-- ===== src/Payments/Processor.antt =====
-- src/payments/payment.processor.ts: one attempt of the worker. Tracing spans only observe, and log
-- lines are left out. A duration is 0 if the clock went back.
pub mod Attempt
pub mod Terminal
pub mod Reopen
use queue_system.Prelude.{
  ℕ, ◌+◌, ◌-◌, Bool, true, false, String, Option, none, some, List, [], ◌∷◌, ◌++◌, if◌then◌else◌,
  or_else,
}
use queue_system.Prelude.Text.{◌<>◌, to_string}
use queue_system.Prelude.Number.{Number}
use queue_system.Domain.Errors.{
  PaymentProcessingError, Raised, other, to_payment_processing_error, unknown, code_text,
}
use queue_system.Domain.Errors as Errors
use queue_system.Domain.Payment.{
  PaymentRecord, PaymentStatus, SagaState, IdempotencyRecord, IdempotencyState, charge,
  transition_to_processing, transition_to_completed, transition_to_dead_letter, payment_processing,
  payment_completed, payment_dead_lettered,
}
use queue_system.Common.Events.{
  AppEvent, PaymentEvent, PaymentEventType, payment_event, job_completed,
}
use queue_system.Payments.Exec.{◌>>=◌, ◌>>◌, pure, raise, gets, try_catch, try_finally}
use queue_system.Payments.Redis.{Redis}
use queue_system.Payments.World.{GuardPort, Env, World, M, DlqEntry, now, external, modify}
use queue_system.Payments.Stores.{save, get_payment, audit, emit}
use queue_system.Payments.Queue.{route_to_dlq}
use queue_system.Payments.Idempotency.{
  get, acquire_execution_lock, release_execution_lock, finalize,
}
use queue_system.Payments.Saga.{SagaOutcome, execute, history}

pub data ProcessResult : Type 0 where
  completed : String → Option String → ProcessResult
  dead_letter skipped : String → String → ProcessResult

-- What the worker reads of a BullMQ job.
pub record Job : Type 0 where
  pub id : String
  pub payment_id : String
  pub correlation_id : Option String
  pub attempts_made : ℕ

-- `${status}`
pub status_text : PaymentStatus → String
status_text PaymentStatus.queued = "queued"
status_text PaymentStatus.processing = "processing"
status_text PaymentStatus.completed = "completed"
status_text PaymentStatus.failed = "failed"
status_text PaymentStatus.dead_letter = "dead_letter"

-- `idem?.state === 'COMPLETED' || idem?.state === 'FAILED'`
abbrev pub is_final : Option IdempotencyRecord → Bool
is_final none = false
is_final (some r) = elim r.state [ IdempotencyState.processing ↦ false | _ ↦ true ]

-- `status === 'dead_letter' || status === 'completed'`
abbrev pub is_terminal : PaymentStatus → Bool
is_terminal PaymentStatus.dead_letter = true
is_terminal PaymentStatus.completed = true
is_terminal _ = false

module _ {N : Number} {P : GuardPort N} {R : Redis} (env : Env) where
  emit_payment :
      PaymentEventType
      → PaymentStatus
      → String
      → PaymentRecord
      → Option String
      → List (String × String)
      → M N P R (Unit {0})
  unfolding now emit
  emit_payment type status id r correlation_id detail = do
    at ← now env
    emit env (
        payment_event (record {
          type = type;
          payment_id = id;
          gateway_id = some r.payment.gateway_id;
          correlation_id = correlation_id;
          status = some status;
          at = at;
          detail = detail;
        }))

  dead_letter_now : String → PaymentRecord → String → Option String → M N P R ProcessResult
  unfolding now save finalize audit emit_payment route_to_dlq
  dead_letter_now id latest reason correlation_id = do
    at ← now env
    save env (transition_to_dead_letter latest reason at)
    finalize env id IdempotencyState.failed PaymentStatus.dead_letter none (some reason)
    audit env id payment_dead_lettered (("reason", reason) ∷ [])
    emit_payment PaymentEventType.failed PaymentStatus.dead_letter id latest correlation_id
        (("reason", reason) ∷ [])
    emit_payment PaymentEventType.dead_lettered PaymentStatus.dead_letter id latest correlation_id
        (("reason", reason) ∷ [])
    dead_lettered_at ← now env
    route_to_dlq env (record {
      payment_id = id;
      correlation_id = correlation_id;
      reason = reason;
      dead_lettered_at = dead_lettered_at;
    })
    pure (dead_letter id reason)

  -- Terminal handling for permanent failures and exhausted retries.
  unfoldable pub finalize_dead_letter :
      PaymentRecord → String → Option String → M N P R ProcessResult
  unfolding get_payment status_text dead_letter_now
  finalize_dead_letter r reason correlation_id = do
    stored ← get_payment env r.payment.id
    let latest = or_else stored r
    if is_terminal latest.status
        then pure (skipped r.payment.id ("already " <> status_text latest.status))
        else dead_letter_now r.payment.id latest reason correlation_id

  -- The worker's `failed` event: retries are exhausted.
  unfoldable pub handle_job_failure : String → Option String → String → M N P R (Unit {0})
  unfolding get_payment finalize_dead_letter
  handle_job_failure id correlation_id message = do
    stored ← get_payment env id
    elim stored [
      | none ↦ pure tt
      | some r ↦
          if is_terminal r.status
          then pure tt
          else do finalize_dead_letter r ("retries exhausted: " <> message) correlation_id; pure tt
    ]

  emit_attempt : Bool → String → ℕ → M N P R (Unit {0})
  unfolding now emit
  emit_attempt ok id started_at = do
    end ← now env
    at ← now env
    r ← gets (λ w. w.current)
    emit env (job_completed id r.payment.gateway_id ok (end - started_at) at)

  -- What follows a saga that returned.
  unfoldable pub complete : String → SagaOutcome → Option String → ℕ → M N P R ProcessResult
  unfolding now modify save finalize audit emit_payment emit_attempt
  complete id outcome correlation_id started_at = do
    at ← now env
    modify env (λ r. transition_to_completed r (some outcome.transaction_id) at)
    modify env (λ r. record r {
      saga_state = SagaState.settled;
      reservation_id = some outcome.reservation_id;
      failure_reason = none;
    })
    r ← gets (λ w. w.current)
    save env r
    finalize env id IdempotencyState.completed PaymentStatus.completed (some outcome.transaction_id)
        none
    audit env id payment_completed (("transactionId", outcome.transaction_id) ∷ [])
    emit_payment PaymentEventType.completed PaymentStatus.completed id r correlation_id []
    emit_attempt true id started_at
    pure (completed id (some outcome.transaction_id))

  -- What follows a failure of the saga, or of `complete`.
  unfoldable pub on_failure : String → Option String → ℕ → Raised → M N P R ProcessResult
  unfolding emit_attempt finalize_dead_letter history save
  on_failure id correlation_id started_at err = do
    emit_attempt false id started_at
    r ← gets (λ w. w.current)
    let failure = to_payment_processing_error err r.payment.gateway_id unknown
    if failure.retryable
        then (do
          history env charge ("transient failure (" <> code_text failure.code <> "), will retry")
              (some failure.message)
          r' ← gets (λ w. w.current)
          save env r'
          raise (Errors.processing failure))
        else finalize_dead_letter r failure.message correlation_id

  unfoldable pub run_saga : String → Option String → ℕ → M N P R ProcessResult
  unfolding complete on_failure
  run_saga id correlation_id started_at =
      try_catch (do outcome ← execute env; complete id outcome correlation_id started_at)
        (on_failure id correlation_id started_at)

  -- The attempt proper, with the lock held.
  unfoldable pub attempt : PaymentRecord → Job → ℕ → M N P R ProcessResult
  unfolding modify save audit emit run_saga
  attempt loaded job started_at = do
    modify env (λ _. transition_to_processing loaded job.attempts_made started_at)
    r ← gets (λ w. w.current)
    save env r
    audit env job.payment_id payment_processing
        (("attempt", to_string (job.attempts_made + 1)) ∷ [])
    emit env (
        payment_event (record {
          type = PaymentEventType.processing;
          payment_id = job.payment_id;
          gateway_id = some r.payment.gateway_id;
          correlation_id = job.correlation_id;
          status = some PaymentStatus.processing;
          at = started_at;
          detail = ("attempt", to_string (job.attempts_made + 1)) ∷ [];
        }))
    run_saga job.payment_id job.correlation_id started_at

  unfoldable pub locked_attempt : Bool → PaymentRecord → Job → ℕ → M N P R ProcessResult
  unfolding attempt release_execution_lock
  locked_attempt false loaded job started_at =
      pure (skipped job.payment_id "concurrent execution lock held by another worker")
  locked_attempt true loaded job started_at =
      try_finally (attempt loaded job started_at) (release_execution_lock env job.payment_id)

  unless_final : Option IdempotencyRecord → PaymentRecord → Job → ℕ → M N P R ProcessResult
  unfolding status_text acquire_execution_lock locked_attempt
  unless_final idem loaded job started_at =
      if is_final idem
      then pure (skipped job.payment_id ("already finalized as " <> status_text loaded.status))
      else do
        locked ← acquire_execution_lock env job.payment_id
        locked_attempt locked loaded job started_at

  found : Option PaymentRecord → Job → ℕ → M N P R ProcessResult
  unfolding get unless_final
  found none job started_at =
      raise (
        other ("payment record " <> job.payment_id <> " not found while processing job " <> job.id))
  found (some loaded) job started_at = do
    idem ← get env job.payment_id
    unless_final idem loaded job started_at

  unfoldable pub process_job : Job → M N P R ProcessResult
  unfolding now get_payment found
  process_job job = do
    started_at ← now env
    stored ← get_payment env job.payment_id
    found stored job started_at
