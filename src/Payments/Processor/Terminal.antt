-- ===== src/Payments/Processor/Terminal.antt =====
-- payment.processor.ts: what follows the saga, and the dead letter queue, with Redis answering.
use mathlib.Core.List.{map-append}
use queue_system.Payments.Stores.{get_payment}
use queue_system.Prelude.{
  ℕ, ◌≡◌, ap, refl, true, false, String, Option, none, some, List, [], ◌∷◌, ◌++◌, map,
}
use queue_system.Prelude.Number.{Number}
use queue_system.Domain.Errors.{
  PaymentProcessingError, Raised, to_payment_processing_error, unknown,
}
use queue_system.Domain.Errors as Errors
use queue_system.Domain.Payment.{
  PaymentRecord, PaymentStatus, SagaState, IdempotencyRecord, IdempotencyState,
  transition_to_dead_letter, transition_to_completed,
}
use queue_system.Payments.Exec.{ok, raised}
use queue_system.Payments.Redis.{
  Redis, IsRedis, hget-hset_self, get-set_ex_self, Doc, json, malformed,
}
use queue_system.Payments.World.{GuardPort, Env, World, DlqEntry, Within}
use queue_system.Payments.Saga.{SagaOutcome, execute}
use queue_system.Payments.Saga.Outcome.{calm}
use queue_system.Payments.Processor.{
  completed, dead_letter, is_terminal, finalize_dead_letter, run_saga, on_failure,
  handle_job_failure,
}

-- The status that a stored record shows.
abbrev pub stored_status : Option (Doc PaymentRecord) → Option PaymentStatus
stored_status none = none
stored_status (some (json r)) = some r.status
stored_status (some malformed) = none

-- The state of a stored idempotency record, with its payment status.
abbrev pub final_state :
    Option (Doc IdempotencyRecord) → Option (IdempotencyState × Option PaymentStatus)
final_state none = none
final_state (some (json r)) = some (r.state, r.payment_status)
final_state (some malformed) = none

-- The entries handed to the dead letter queue, without times and correlation ids.
abbrev pub dlq_outline : List DlqEntry → List (String × String)
dlq_outline = map (λ e. (e.payment_id, e.reason))

module _ {N : Number} {P : GuardPort N} {R : Redis} (L : IsRedis R) (env : Env)
    (w : World N P R) where
  -- With Redis answering, a payment whose stored record is not terminal is dead-lettered: the
  -- record and the idempotency record say so, one entry, of this payment with this reason, is
  -- handed to the dead letter queue, and nothing is charged, refunded or settled.
  pub finalize_dead_letter_moves :
      (t : ℕ) (r latest : PaymentRecord) (reason : String) (correlation_id : Option String)
      → Within env.clock env.retention_seconds t
      → R.payments.hget r.payment.id w.payments ≡ some (json latest)
      → latest.payment.id ≡ r.payment.id
      → is_terminal latest.status ≡ false
      → let (result, w') = finalize_dead_letter (calm env) r reason correlation_id w in
        (result ≡ ok (dead_letter r.payment.id reason))
        × (stored_status (R.payments.hget r.payment.id w'.payments)
            ≡ some PaymentStatus.dead_letter)
        × (final_state (R.leases.get t r.payment.id w'.idempotency)
            ≡ some (IdempotencyState.failed, some PaymentStatus.dead_letter))
        × (dlq_outline w'.dlq ≡ dlq_outline w.dlq ++ (r.payment.id, reason) ∷ [])
        × (w'.guard ≡ w.guard)
        × (w'.settlements ≡ w.settlements)
  unfolding finalize_dead_letter transition_to_dead_letter
  finalize_dead_letter_moves t r latest reason correlation_id fresh stored same open_status =
      rw (stored, finalize_dead_letter, get_payment)
        (rw (open_status) (
          refl,
          rw same (ap stored_status (hget-hset_self L.payments _ _ _)),
          ap final_state (get-set_ex_self L.leases t _ _ _ _ _ (fresh _)),
          simp map-append,
          refl,
          refl,
        ))

  -- With Redis answering, the handler of exhausted retries leaves a payment whose stored record is
  -- terminal alone: the records, the idempotency records, the dead letter queue and the guard stay
  -- as they are.
  pub handle_job_failure_skips :
      (id : String) (correlation_id : Option String) (message : String) (latest : PaymentRecord)
      → R.payments.hget id w.payments ≡ some (json latest)
      → is_terminal latest.status ≡ true
      → let (result, w') = handle_job_failure (calm env) id correlation_id message w in
        (result ≡ ok tt)
        × (w'.payments ≡ w.payments)
        × (w'.idempotency ≡ w.idempotency)
        × (w'.dlq ≡ w.dlq)
        × (w'.guard ≡ w.guard)
  unfolding handle_job_failure
  handle_job_failure_skips id correlation_id message latest stored final_status =
      rw (stored, handle_job_failure, get_payment)
        (rw (final_status) (refl, refl, refl, refl, refl))

  -- With Redis answering, a saga that returned completes the payment: the stored record and the
  -- idempotency record say so, and after the saga nothing is charged, refunded, settled or
  -- dead-lettered.
  pub run_saga_completes :
      (t : ℕ) (id : String) (correlation_id : Option String) (started_at : ℕ) (o : SagaOutcome)
      (w2 : World N P R)
      → Within env.clock env.retention_seconds t
      → execute (calm env) w ≡ (ok o, w2)
      → w2.current.payment.id ≡ id
      → let (result, w') = run_saga (calm env) id correlation_id started_at w in
        (result ≡ ok (completed id (some o.transaction_id)))
        × (R.payments.hget id w'.payments ≡ some (json w'.current))
        × (w'.current.status ≡ PaymentStatus.completed)
        × (w'.current.saga_state ≡ SagaState.settled)
        × (w'.current.failure_reason ≡ none)
        × (final_state (R.leases.get t id w'.idempotency)
            ≡ some (IdempotencyState.completed, some PaymentStatus.completed))
        × (w'.guard ≡ w2.guard)
        × (w'.settlements ≡ w2.settlements)
        × (w'.dlq ≡ w2.dlq)
  unfolding run_saga transition_to_completed
  run_saga_completes t id correlation_id started_at o w2 fresh returned same =
      rw (returned, run_saga)
        (
          refl,
          rw same (hget-hset_self L.payments _ _ _),
          refl,
          refl,
          refl,
          ap final_state (get-set_ex_self L.leases t _ _ _ _ _ (fresh _)),
          refl,
          refl,
          refl,
        )

  -- With Redis answering, a saga that threw something that may pass leaves the payment to the
  -- queue: the attempt throws too, the record is stored as it is, and neither the idempotency
  -- record nor the dead letter queue changes.
  pub run_saga_retries :
      (id : String) (correlation_id : Option String) (started_at : ℕ) (x : Raised)
      (w2 : World N P R)
      → execute (calm env) w ≡ (raised x, w2)
      → w2.current.payment.id ≡ id
      → let failure = to_payment_processing_error x w2.current.payment.gateway_id unknown in
        failure.retryable ≡ true
        → let (result, w') = run_saga (calm env) id correlation_id started_at w in
          (result ≡ raised (Errors.processing failure))
          × (R.payments.hget id w'.payments ≡ some (json w'.current))
          × (w'.current.status ≡ w2.current.status)
          × (w'.current.payment ≡ w2.current.payment)
          × (w'.idempotency ≡ w2.idempotency)
          × (w'.guard ≡ w2.guard)
          × (w'.settlements ≡ w2.settlements)
          × (w'.dlq ≡ w2.dlq)
  unfolding run_saga on_failure
  run_saga_retries id correlation_id started_at x w2 threw same again =
      rw (threw, run_saga)
        (rw (again, on_failure)
          (refl, rw same (hget-hset_self L.payments _ _ _), refl, refl, refl, refl, refl, refl))

  -- With Redis answering, a saga that threw a permanent failure, with a stored record that is not
  -- terminal, dead-letters the payment with that failure's message as the reason.
  pub run_saga_dead_letters :
      (t : ℕ) (id : String) (correlation_id : Option String) (started_at : ℕ) (x : Raised)
      (w2 : World N P R) (latest : PaymentRecord)
      → Within env.clock env.retention_seconds t
      → execute (calm env) w ≡ (raised x, w2)
      → w2.current.payment.id ≡ id
      → R.payments.hget id w2.payments ≡ some (json latest)
      → latest.payment.id ≡ id
      → is_terminal latest.status ≡ false
      → let failure = to_payment_processing_error x w2.current.payment.gateway_id unknown in
        failure.retryable ≡ false
        → let (result, w') = run_saga (calm env) id correlation_id started_at w in
          (result ≡ ok (dead_letter id failure.message))
          × (stored_status (R.payments.hget id w'.payments) ≡ some PaymentStatus.dead_letter)
          × (final_state (R.leases.get t id w'.idempotency)
              ≡ some (IdempotencyState.failed, some PaymentStatus.dead_letter))
          × (dlq_outline w'.dlq ≡ dlq_outline w2.dlq ++ (id, failure.message) ∷ [])
          × (w'.guard ≡ w2.guard)
          × (w'.settlements ≡ w2.settlements)
  unfolding run_saga on_failure finalize_dead_letter transition_to_dead_letter
  run_saga_dead_letters t id correlation_id started_at x w2 latest fresh threw same stored its_own
        open_status permanent =
      rw (threw, run_saga)
        (rw (permanent, on_failure)
          (rw (same, finalize_dead_letter)
            (rw (stored, get_payment)
              (rw (open_status) (
                refl,
                rw its_own (ap stored_status (hget-hset_self L.payments _ _ _)),
                ap final_state (get-set_ex_self L.leases t _ _ _ _ _ (fresh _)),
                simp map-append,
                refl,
                refl,
              )))))
