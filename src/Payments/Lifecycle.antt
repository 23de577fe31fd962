-- ===== src/Payments/Lifecycle.antt =====
-- payment.service.ts, queue-manager.service.ts and payment.processor.ts together: a payment from its
-- submission to its end, with Redis answering.
use mathlib.Core.Path.{subst}
use queue_system.Prelude.{
  arith, ℕ, suc, ◌+◌, ◌≡◌, ◌∙◌, refl, ap, String, Option, none, some, [], ◌∷◌, ◌++◌, or_else,
  Option-cases, inl, inr, eq_refl,
}
use queue_system.Prelude.Number.{Number}
use queue_system.Domain.Payment.{default_max_retries, create_payment_record}
use queue_system.Payments.Exec.{ok}
use queue_system.Payments.Redis.{Redis, IsRedis, hget-hset_self, json, parse}
use queue_system.Payments.World.{GuardPort, Env, World, QueuedJob, EnqueuePaymentJobInput, Within}
use queue_system.Payments.Queue.{enqueue, job_of}
use queue_system.Payments.Idempotency as Idempotency
use queue_system.Payments.Saga.Outcome.{calm}
use queue_system.Payments.Processor.{Job, is_final}
use queue_system.Payments.Delivery.{deliver}
use queue_system.Payments.Delivery.Attempts.{Ended, Open, Unfinished}
use queue_system.Payments.Delivery.Ends.{Unlocked, lease_open, deliver_ends}
use queue_system.Payments.Service.{
  CreatePaymentInput, created, submit, submit_claimed, claim_or_recover, enqueue_record,
}
use queue_system.Payments.Service.Submit.{fresh_record, submit_from, submit_claimed-creates}

-- The job that a worker takes from a queue, before its first attempt.
abbrev pub taken : QueuedJob → Job
taken j = record {
  id = j.job_id;
  payment_id = j.data_of.payment_id;
  correlation_id = j.data_of.correlation_id;
  attempts_made = 0;
}

module _ {N : Number} {P : GuardPort N} {R : Redis} (L : IsRedis R) (env : Env)
    (input : CreatePaymentInput) (current : Option String)
    (accepts : (job : EnqueuePaymentJobInput) → env.queue_fault job ≡ none) where
  -- What an accepted submission leaves for the workers.
  record Handed (w w' : World N P R) (j : QueuedJob) : Type 0 where
    queued : w'.jobs ≡ w.jobs ++ j ∷ []
    its_payment : j.data_of.payment_id ≡ input.id
    tried : j.attempts ≡ or_else input.max_retries default_max_retries + 1
    stored :
        R.payments.hget input.id w'.payments
        ≡ some (json (fresh_record input current (env.clock w.calls)))
    claims_same : w'.idempotency ≡ w.idempotency
    locks_same : w'.locks ≡ w.locks

  submit_claimed-Handed :
      (w : World N P R)
      → (j : QueuedJob) × Handed w (submit_claimed (calm env) Idempotency.new input current w).1 j
  unfolding submit_claimed create_payment_record job_of
  submit_claimed-Handed w = elim (Option-cases input.scheduled_at) [
    | inl e ↦
        rw (e, submit_claimed)
          (rw (accepts, enqueue_record, enqueue)
            (
              _,
              record {
                queued = refl;
                its_payment = refl;
                tried = refl;
                stored = hget-hset_self L.payments _ _ _;
                claims_same = refl;
                locks_same = refl;
              },
            ))
    | inr (t, e) ↦
        rw (e, submit_claimed)
          (rw (accepts, enqueue_record, enqueue)
            (
              _,
              record {
                queued = refl;
                its_payment = refl;
                tried = refl;
                stored = hget-hset_self L.payments _ _ _;
                claims_same = refl;
                locks_same = refl;
              },
            ))
  ]

  -- The state after a claim that finds nothing.
  abbrev claimed : World N P R → World N P R
  claimed w =
      let t = env.clock w.calls in
      record w {
        idempotency =
            R.leases.set_ex (env.clock (w.calls + 1)) input.id
              (json (Idempotency.lease input.id (some t) t)) env.lease_ttl_seconds w.idempotency;
        calls = w.calls + 1 + 1;
      }

  claim_or_recover_free :
      (w : World N P R)
      → R.leases.get (env.clock (w.calls + 1)) input.id w.idempotency ≡ none
      → claim_or_recover (calm env) input.id w ≡ (ok Idempotency.new, claimed w)
  unfolding claim_or_recover
  claim_or_recover_free w free =
      rw (L.leases.set_ex_nx-free _ _ _ _ _ free, claim_or_recover, Idempotency.claim) refl

  claimed-Unfinished : (w : World N P R) → Unfinished input.id (claimed w)
  claimed-Unfinished w u = rw (L.leases.get-set_ex, eq_refl input.id) (lease_open _ _ _ _)

  fresh_record-Open :
      (now : ℕ) (later : World N P R)
      → R.payments.hget input.id later.payments ≡ some (json (fresh_record input current now))
      → Open input.id later
  unfolding create_payment_record
  fresh_record-Open now later stored = (fresh_record input current now, stored, refl, refl)

  job_ends :
      (t n : ℕ) (j : QueuedJob) (later : World N P R)
      → Within env.clock env.retention_seconds t
      → j.attempts ≡ n + 1
      → j.data_of.payment_id ≡ input.id
      → Open input.id later
      → Unfinished input.id later
      → Unlocked input.id later
      → Ended t input.id (deliver (calm env) j.attempts (some j.attempts) (taken j) later).1
  job_ends t n j later retained tried its open_record unfinished unlocked =
      let tried' : suc n ≡ j.attempts = omega (arith, tried) in
      subst (λ a. Ended t input.id (deliver (calm env) a (some a) (taken j) later).1) tried'
        (subst
          (λ id.
            Open id later
            → Unfinished id later
            → Unlocked id later
            → Ended t id (deliver (calm env) (suc n) (some (suc n)) (taken j) later).1)
          its (deliver_ends L env n (suc n) t (taken j) later (omega arith) retained) open_record
          unfinished unlocked)

  -- With Redis and the queue answering, a submission of a payment that nobody has claimed and whose
  -- execution lock is free is accepted and hands one job to the queue; and that job, delivered as
  -- often as it says from any later state in which payments, idempotency records and locks are what
  -- the submission left, ends its payment: completed, or dead-lettered, in the store and in the
  -- idempotency record alike.
  pub submit-deliver_ends :
      (t : ℕ) (w : World N P R)
      → Within env.clock env.retention_seconds t
      → R.leases.get (env.clock (w.calls + 1)) input.id w.idempotency ≡ none
      → Unlocked input.id w
      → (later : World N P R) → later.payments ≡ (submit (calm env) input current w).1.payments
      → later.idempotency ≡ (submit (calm env) input current w).1.idempotency
      → later.locks ≡ (submit (calm env) input current w).1.locks
      → let (result, w') = submit (calm env) input current w in
        (result ≡ ok (created (fresh_record input current (env.clock (w.calls + 1 + 1)))))
        × ((j : QueuedJob) × (w'.jobs ≡ w.jobs ++ j ∷ [])
            × (j.data_of.payment_id ≡ input.id)
            × Ended t input.id (deliver (calm env) j.attempts (some j.attempts) (taken j) later).1)
  submit-deliver_ends t w retained free unlocked later =
      rw
        (submit_from L (calm env) w input current Idempotency.new (claimed w)
          (claim_or_recover_free w free))
        (λ stored claims locks. (
          (submit_claimed-creates L env (claimed w) input current accepts).0,
          let (j, handed) = submit_claimed-Handed (claimed w) in
              (
                j,
                handed.queued,
                handed.its_payment,
                job_ends t _ j later retained handed.tried handed.its_payment
                    (fresh_record-Open _ later
                      (ap (R.payments.hget input.id) stored ∙ handed.stored))
                    (λ u.
                      ap (λ m. is_final (parse (R.leases.get u input.id m)))
                        (claims ∙ handed.claims_same)
                      ∙ claimed-Unfinished w u)
                    (λ u. ap (R.locks.get u input.id) (locks ∙ handed.locks_same) ∙ unlocked u),
              ),
        ))
