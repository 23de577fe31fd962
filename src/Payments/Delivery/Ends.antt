-- ===== src/Payments/Delivery/Ends.antt =====
-- payment.processor.ts and queue-manager.service.ts: the deliveries of one job, with Redis answering and
-- nothing else at work on its payment.
use mathlib.Core.Path.{subst}
use queue_system.Prelude.{
  arith, ℕ, zero, suc, ◌+◌, ◌≡◌, ◌∙◌, refl, ap, sym, Bool, true, false, String, Option, none, some,
  inl, inr, leb, eq_refl, if◌then◌else◌,
}
use queue_system.Prelude.Text.{◌<>◌}
use queue_system.Prelude.Number.{Number}
use queue_system.Domain.Errors.{Raised}
use queue_system.Payments.Exec.{Result, ok, raised, continue, catching, pure, ◌>>◌}
use queue_system.Payments.Redis.{Redis, IsRedis, json, parse}
use queue_system.Payments.World.{GuardPort, Env, World, M, Within}
use queue_system.Payments.Idempotency.{lease, acquire_execution_lock, try_lock}
use queue_system.Payments.Saga.Outcome.{calm}
use queue_system.Payments.Processor.{
  ProcessResult, Job, is_final, process_job, handle_job_failure, locked_attempt,
  finalize_dead_letter,
}
use queue_system.Payments.Processor.Attempt.{asking, process_job_asks, locked_attempt_releases}
use queue_system.Payments.Processor.Terminal.{finalize_dead_letter_moves}
use queue_system.Payments.Delivery.{on_failed, deliver}
use queue_system.Payments.Delivery.Attempts.{
  Ended, Open, Unfinished, Decided, locked_attempt_decides,
}

module _ {N : Number} {P : GuardPort N} {R : Redis} where
  -- No worker holds the execution lock of the payment.
  abbrev pub Unlocked : String → World N P R → Type 0
  Unlocked id w = (u : ℕ) → R.locks.get u id w.locks ≡ none

  Ended-then :
      (t : ℕ) (id its_id : String) {p : ProcessResult}
      (m : Result Raised ProcessResult × World N P R)
      → m.0 ≡ ok p
      → its_id ≡ id
      → Ended t its_id m.1
      → Ended t id (continue {X = Raised} (λ _. pure tt) m).1
  Ended-then t id its_id (r, w) returned same ended =
      subst (λ r. Ended t id (continue {X = Raised} (λ _. pure tt) (r, w)).1) (sym returned)
        (subst (λ id. Ended t id w) same ended)

pub lease_open :
    (live : Bool) (id : String) (claimed_at : Option ℕ) (now : ℕ)
    → is_final (parse (if live then some (json (lease id claimed_at now)) else none)) ≡ false
lease_open true id claimed_at now = refl
lease_open false id claimed_at now = refl

module _ {N : Number} {P : GuardPort N} {R : Redis} (L : IsRedis R) (env : Env) (w : World N P R)
    (job : Job) where
  acquire-Unfinished :
      Unfinished job.payment_id w
      → Unlocked job.payment_id w
      → let (r, w1) = acquire_execution_lock (calm env) job.payment_id (asking L env w job) in
        (r ≡ ok true) × Unfinished job.payment_id w1
  unfolding acquire_execution_lock
  acquire-Unfinished unfinished free =
      rw (L.locks.set_ex_nx-free _ _ _ _ _ (free _), acquire_execution_lock, try_lock)
        (refl, λ u. rw (L.leases.get-set_ex, eq_refl job.payment_id) (lease_open _ _ _ _))

  process_job_decides :
      (t : ℕ)
      → Within env.clock env.retention_seconds t
      → Open job.payment_id w
      → Unfinished job.payment_id w
      → Unlocked job.payment_id w
      → let (r, w') = process_job (calm env) job w in
        Decided t job.payment_id (r, w') × Unlocked job.payment_id w'
  process_job_decides t fresh (latest, stored, its_own, open_status) unfinished free =
      let a = acquire-Unfinished unfinished free in
      let w1 : World N P R =
        (acquire_execution_lock (calm env) job.payment_id (asking L env w job)).1 in
      rw
        (process_job_asks L env w job latest _ stored refl (unfinished _)
          ∙ ap
              (λ (r : Result Raised Bool).
                continue (λ locked. locked_attempt (calm env) locked latest job (env.clock w.calls))
                  (r, w1))
              a.0)
        (
          locked_attempt_decides L env w1 t job fresh latest (env.clock w.calls) its_own a.1,
          λ u. (locked_attempt_releases L env w1 job u latest (env.clock w.calls)).1,
        )

  handle_job_failure_ends :
      (t : ℕ) (message : String)
      → Within env.clock env.retention_seconds t
      → Open job.payment_id w
      → Ended t job.payment_id
          (handle_job_failure (calm env) job.payment_id job.correlation_id message w).1
  unfolding handle_job_failure
  handle_job_failure_ends t message fresh (latest, stored, its_own, open_status) =
      let w1 : World N P R = record w { calls = w.calls + 1 } in
      let c =
        finalize_dead_letter_moves L env w1 t latest latest ("retries exhausted: " <> message)
          job.correlation_id fresh (ap (λ k. R.payments.hget k w.payments) its_own ∙ stored) refl
          open_status in
      rw (stored) (
        rw (open_status) (
          Ended-then t job.payment_id latest.payment.id
            (finalize_dead_letter (calm env) latest ("retries exhausted: " <> message)
              job.correlation_id w1)
            c.0 its_own (inr (c.1, c.2))))

not_yet :
    (made attempts left : ℕ) → attempts ≡ made + suc (suc left) → leb attempts (made + 1) ≡ false
not_yet made attempts left counted = ground arith

used_up : (made attempts : ℕ) → attempts ≡ made + suc zero → leb attempts (made + 1) ≡ true
used_up made attempts counted = ground arith

module _ {N : Number} {P : GuardPort N} {R : Redis} (L : IsRedis R) (env : Env) where
  -- What follows an attempt that threw.
  abbrev after : ℕ → ℕ → Job → Raised → M N P R (Option ProcessResult)
  after left attempts job err = do
    on_failed (calm env) (record job { attempts_made = job.attempts_made + 1 }) (some attempts) err
    deliver (calm env) left (some attempts) (record job { attempts_made = job.attempts_made + 1 })

  caught_done :
      {A : Type 0} (a : A) (m : Result Raised (Unit {0}) × World N P R)
      → (continue {X = Raised} (λ _. pure a) (catching (λ _. pure tt) m)).1 ≡ m.1
  caught_done a (ok u, w) = refl
  caught_done a (raised x, w) = refl

  last_attempt_ends :
      (attempts t : ℕ) (job : Job) (w : World N P R) (x : Raised)
      → attempts ≡ job.attempts_made + suc zero
      → Within env.clock env.retention_seconds t
      → Open job.payment_id w
      → Ended t job.payment_id (after zero attempts job x w).1
  unfolding deliver on_failed
  last_attempt_ends attempts t job w x counted fresh stored =
      rw (used_up job.attempts_made attempts counted) (
        subst (Ended t job.payment_id) (sym (caught_done none _))
          (handle_job_failure_ends L env w job t _ fresh stored))

  more_attempts_end :
      (left attempts t : ℕ) (job : Job) (w : World N P R) (x : Raised)
      → attempts ≡ job.attempts_made + suc (suc left)
      → Ended t job.payment_id
          (deliver
            (calm env)
            (suc left)
            (some attempts)
            (record job { attempts_made = job.attempts_made + 1 })
            w).1
      → Ended t job.payment_id (after (suc left) attempts job x w).1
  unfolding on_failed
  more_attempts_end left attempts t job w x counted ended =
      rw (not_yet job.attempts_made attempts left counted) ended

  -- An attempt that returned stands, and one that threw is followed by `next`.
  attempted :
      (t : ℕ) (id : String) (next : Raised → M N P R (Option ProcessResult))
      (r : Result Raised ProcessResult) (w : World N P R)
      → Decided t id (r, w)
      → ((x : Raised) → Open id w → Unfinished id w → Ended t id (next x w).1)
      → Ended t id (catching next (continue (λ p. pure (some p)) (r, w))).1
  attempted t id next r w (inl (p, returned, ended)) throws =
      subst (λ r. Ended t id (catching next (continue (λ p. pure (some p)) (r, w))).1)
        (sym returned) ended
  attempted t id next r w (inr (x, threw, stored, unfinished)) throws =
      subst (λ r. Ended t id (catching next (continue (λ p. pure (some p)) (r, w))).1) (sym threw)
        (throws x stored unfinished)

  -- With Redis answering and nothing else at work on its payment, a job that is delivered as often
  -- as its option allows ends its payment, if at the start the stored record is not terminal, the
  -- idempotency record says at no time that the payment is finalized, and no lock is held: the stored
  -- record and, until its retention is over, the idempotency record both say that the payment is
  -- completed, or both that it is dead-lettered.
  pub deliver_ends :
      (left attempts t : ℕ) (job : Job) (w : World N P R)
      → attempts ≡ job.attempts_made + suc left
      → Within env.clock env.retention_seconds t
      → Open job.payment_id w
      → Unfinished job.payment_id w
      → Unlocked job.payment_id w
      → Ended t job.payment_id (deliver (calm env) (suc left) (some attempts) job w).1
  unfolding deliver
  deliver_ends zero attempts t job w counted fresh stored unfinished free =
      let d = process_job_decides L env w job t fresh stored unfinished free in
      attempted t job.payment_id (after zero attempts job) _ _ d.0
        (λ x still _. last_attempt_ends attempts t job _ x counted fresh still)
  deliver_ends (suc left) attempts t job w counted fresh stored unfinished free =
      let d = process_job_decides L env w job t fresh stored unfinished free in
      attempted t job.payment_id (after (suc left) attempts job) _ _ d.0 (λ x still again.
        more_attempts_end left attempts t job _ x counted (
          deliver_ends left attempts t (record job { attempts_made = job.attempts_made + 1 }) _
            (ground arith) fresh still again d.1))
