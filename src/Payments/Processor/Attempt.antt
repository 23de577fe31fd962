-- ===== src/Payments/Processor/Attempt.antt =====
-- payment.processor.ts: which jobs lead to an attempt, and the lock around it, with Redis answering.
use queue_system.Prelude.{
  arith, ℕ, ◌+◌, ◌*◌, ◌<◌, ◌≡◌, ◌≢◌, ◌∙◌, refl, ap, Bool, true, false, Option, none, some,
}
use queue_system.Prelude.Text.{◌<>◌}
use queue_system.Prelude.Number.{Number}
use queue_system.Domain.Errors.{Raised, other}
use queue_system.Domain.Payment.{PaymentRecord, IdempotencyRecord, IdempotencyState}
use queue_system.Payments.Exec.{Result, ok, raised, continue}
use queue_system.Payments.Redis.{Redis, IsRedis, get-set_ex_self, get-del_self, Doc, json, parse}
use queue_system.Payments.World.{GuardPort, Env, World}
use queue_system.Payments.Stores.{get_payment}
use queue_system.Payments.Idempotency as Idempotency
use queue_system.Payments.Idempotency.{acquire_execution_lock, try_lock, release_execution_lock}
use queue_system.Payments.Saga.Outcome.{calm}
use queue_system.Payments.Processor.{
  skipped, Job, is_final, process_job, status_text, attempt, found, unless_final, locked_attempt,
}

module _ {N : Number} {P : GuardPort N} {R : Redis} where
  -- Nothing that an attempt leads to has happened between two states.
  abbrev pub Untouched : World N P R → World N P R → Type 0
  Untouched w w' =
      (w'.guard ≡ w.guard)
      × (w'.payments ≡ w.payments)
      × (w'.idempotency ≡ w.idempotency)
      × (w'.locks ≡ w.locks)
      × (w'.settlements ≡ w.settlements)
      × (w'.dlq ≡ w.dlq)
      × (w'.events ≡ w.events)
      × (w'.audit ≡ w.audit)

is_final-some :
    (idem : IdempotencyRecord)
    → idem.state ≢ IdempotencyState.processing
    → is_final (some idem) ≡ true
is_final-some idem h = ground arith

module _ {N : Number} {P : GuardPort N} {R : Redis} (L : IsRedis R) (env : Env) (w : World N P R)
    (job : Job) where
  -- With Redis answering, a job without a payment record throws and touches nothing.
  pub process_job-missing :
      R.payments.hget job.payment_id w.payments ≡ none
      → let (result, w') = process_job (calm env) job w in
        (result
          ≡ raised (
              other (
                "payment record " <> job.payment_id <> " not found while processing job "
                <> job.id)))
        × Untouched w w'
  unfolding process_job found
  process_job-missing missing =
      rw (missing, process_job, get_payment)
        (refl, (refl, refl, refl, refl, refl, refl, refl, refl))

  -- With Redis answering, a job whose payment is finalized is skipped: nothing is charged, stored,
  -- or put on the dead letter queue.
  pub process_job-finalized :
      (loaded : PaymentRecord) (idem : IdempotencyRecord)
      → R.payments.hget job.payment_id w.payments ≡ some (json loaded)
      → R.leases.get (env.clock (w.calls + 1 + 1)) job.payment_id w.idempotency ≡ some (json idem)
      → idem.state ≢ IdempotencyState.processing
      → let (result, w') = process_job (calm env) job w in
        (result
          ≡ ok (skipped job.payment_id ("already finalized as " <> status_text loaded.status)))
        × Untouched w w'
  unfolding process_job found
  process_job-finalized loaded idem stored claimed final_state =
      rw (stored, process_job, get_payment)
        (rw (claimed, found, Idempotency.get)
          (rw (is_final-some idem final_state, unless_final)
            (refl, (refl, refl, refl, refl, refl, refl, refl, refl))))

  -- With Redis answering, a job of a payment that is not finalized, whose execution lock is held
  -- and has not expired, is skipped: nothing is charged, stored, or put on the dead letter queue.
  pub process_job-locked :
      (loaded : PaymentRecord) (idem : Option (Doc IdempotencyRecord))
      → R.payments.hget job.payment_id w.payments ≡ some (json loaded)
      → R.leases.get (env.clock (w.calls + 1 + 1)) job.payment_id w.idempotency ≡ idem
      → is_final (parse idem) ≡ false
      → R.locks.get (env.clock (w.calls + 1 + 1 + 1)) job.payment_id w.locks ≡ some tt
      → let (result, w') = process_job (calm env) job w in
        (result ≡ ok (skipped job.payment_id "concurrent execution lock held by another worker"))
        × Untouched w w'
  unfolding process_job found
  process_job-locked loaded idem stored claimed unfinished held =
      rw (stored, process_job, get_payment)
        (rw (claimed, found, Idempotency.get)
          (rw (unfinished, unless_final)
            (rw (L.locks.set_ex_nx-taken _ _ _ _ _ _ held, acquire_execution_lock, try_lock)
              (refl, (refl, refl, refl, refl, refl, refl, refl, refl)))))

  -- However an attempt ends, by returning or by throwing, the lock on its payment is released.
  pub locked_attempt_releases :
      (u : ℕ) (loaded : PaymentRecord) (started_at : ℕ)
      → let (result, w') = locked_attempt (calm env) true loaded job started_at w in
        let (result0, w0) = attempt (calm env) loaded job started_at w in
        (result ≡ result0)
        × (R.locks.get u job.payment_id w'.locks ≡ none)
        × (w'.guard ≡ w0.guard)
        × (w'.payments ≡ w0.payments)
        × (w'.idempotency ≡ w0.idempotency)
  unfolding locked_attempt
  locked_attempt_releases u loaded started_at = (refl, get-del_self L.locks u _ _, refl, refl, refl)

module _ {N : Number} {P : GuardPort N} {R : Redis} (L : IsRedis R) (env : Env) (w : World N P R)
    (job : Job) where
  -- The state in which the lock is asked for.
  abbrev pub asking : World N P R
  asking = record w { calls = w.calls + 1 + 1 + 1 }

  pub process_job_asks :
      (loaded : PaymentRecord) (idem : Option (Doc IdempotencyRecord))
      → R.payments.hget job.payment_id w.payments ≡ some (json loaded)
      → R.leases.get (env.clock (w.calls + 1 + 1)) job.payment_id w.idempotency ≡ idem
      → is_final (parse idem) ≡ false
      → process_job (calm env) job w
        ≡ continue
            (λ locked. locked_attempt (calm env) locked loaded job (env.clock w.calls))
            (acquire_execution_lock (calm env) job.payment_id asking)
  unfolding process_job found
  process_job_asks loaded idem stored claimed unfinished =
      rw (stored, process_job, get_payment)
        (rw (claimed, found, Idempotency.get) (rw (unfinished, unless_final) refl))

  acquire_execution_lock_free :
      (t : ℕ)
      → t < env.clock (w.calls + 1 + 1 + 1) + 1000 * env.lease_ttl_seconds
      → R.locks.get (env.clock (w.calls + 1 + 1 + 1)) job.payment_id w.locks ≡ none
      → let (r, w1) = acquire_execution_lock (calm env) job.payment_id asking in
        (r ≡ ok true)
        × (R.locks.get t job.payment_id w1.locks ≡ some tt)
        × (w1.guard ≡ w.guard)
        × (w1.settlements ≡ w.settlements)
        × (w1.dlq ≡ w.dlq)
  unfolding acquire_execution_lock
  acquire_execution_lock_free t fresh free =
      rw (L.locks.set_ex_nx-free _ _ _ _ _ free, acquire_execution_lock, try_lock)
        (refl, get-set_ex_self L.locks t _ _ _ _ _ fresh, refl, refl, refl)

  -- With Redis answering, a job of a payment that is not finalized, with the lock free, leads to
  -- one attempt, with the lock held for the lease time from a state with the same guard, ledger and
  -- dead letter queue. Its result, a throw included, is the job's, and the lock is released
  -- afterwards.
  pub process_job-attempts :
      (t u : ℕ) (loaded : PaymentRecord) (idem : Option (Doc IdempotencyRecord))
      → R.payments.hget job.payment_id w.payments ≡ some (json loaded)
      → R.leases.get (env.clock (w.calls + 1 + 1)) job.payment_id w.idempotency ≡ idem
      → is_final (parse idem) ≡ false
      → R.locks.get (env.clock (w.calls + 1 + 1 + 1)) job.payment_id w.locks ≡ none
      → t < env.clock (w.calls + 1 + 1 + 1) + 1000 * env.lease_ttl_seconds
      → let (result, w') = process_job (calm env) job w in
        (w1 : World N P R) × (R.locks.get t job.payment_id w1.locks ≡ some tt)
        × (w1.guard ≡ w.guard)
        × (w1.settlements ≡ w.settlements)
        × (w1.dlq ≡ w.dlq)
        × (result ≡ (attempt (calm env) loaded job (env.clock w.calls) w1).0)
        × (w'.guard ≡ (attempt (calm env) loaded job (env.clock w.calls) w1).1.guard)
        × (R.locks.get u job.payment_id w'.locks ≡ none)
  process_job-attempts t u loaded idem stored claimed unfinished free fresh =
      let f = acquire_execution_lock_free t fresh free in
      let w1 : World N P R = (acquire_execution_lock (calm env) job.payment_id asking).1 in
      let r = locked_attempt_releases L env w1 job u loaded (env.clock w.calls) in
      rw
        (process_job_asks loaded idem stored claimed unfinished
          ∙ ap
              (λ (a : Result Raised Bool).
                continue (λ locked. locked_attempt (calm env) locked loaded job (env.clock w.calls))
                  (a, w1))
              f.0)
        (w1, f.1, f.2, f.3, f.4, r.0, r.2, r.1)
