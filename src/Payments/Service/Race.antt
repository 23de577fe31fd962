-- ===== src/Payments/Service/Race.antt =====
-- payment.service.ts: a submission that meets a claim without a stored payment, with Redis answering.
use queue_system.Prelude.{
  ℕ, ◌+◌, ◌*◌, ◌<◌, ◌≡◌, ◌∙◌, refl, ap, String, Option, none, some, [], ◌∷◌, ◌++◌, Option-cases,
  inl, inr,
}
use queue_system.Prelude.Text.{◌<>◌}
use queue_system.Prelude.Number.{Number}
use queue_system.Domain.Errors.{Raised}
use queue_system.Domain.Payment.{
  PaymentRecord, create_payment_record, IdempotencyRecord, IdempotencyState,
}
use queue_system.Payments.Exec.{Result, ok, raised}
use queue_system.Payments.Redis.{Redis, IsRedis, get-set_ex_self, get-del_self, json}
use queue_system.Payments.World.{GuardPort, Env, World, EnqueuePaymentJobInput, Within}
use queue_system.Payments.Stores.{get_payment}
use queue_system.Payments.Queue.{enqueue}
use queue_system.Payments.Idempotency as Idempotency
use queue_system.Payments.Saga.Outcome.{calm}
use queue_system.Payments.Processor.Terminal.{final_state}
use queue_system.Payments.Service.{
  CreatePaymentInput, created, bad_request, submit, submit_claimed, claim_or_recover,
  enqueue_record,
}
use queue_system.Payments.Service.Submit.{
  lost_claim-open, submit_new, submit_claimed-creates, jobs_outline, its_job, fresh_record,
}

module _ {N : Number} {P : GuardPort N} {R : Redis} (L : IsRedis R) (env : Env) (w : World N P R)
    (input : CreatePaymentInput) (current : Option String) where
  claim_or_recover-recovers :
      (idem : IdempotencyRecord)
      → R.leases.get (env.clock (w.calls + 1)) input.id w.idempotency ≡ some (json idem)
      → R.leases.get (env.clock (w.calls + 1 + 1)) input.id w.idempotency ≡ some (json idem)
      → idem.state ≡ IdempotencyState.processing
      → R.payments.hget input.id w.payments ≡ none
      → let (c, w1) = claim_or_recover (calm env) input.id w in
        (c ≡ ok Idempotency.new)
        × (w1.jobs ≡ w.jobs)
        × (w1.guard ≡ w.guard)
        × ((t : ℕ)
            → Within env.clock env.lease_ttl_seconds t
            → final_state (R.leases.get t input.id w1.idempotency)
              ≡ some (IdempotencyState.processing, none))
  unfolding claim_or_recover
  claim_or_recover-recovers idem claimed claimed' unfinished missing =
      rw (L.leases.set_ex_nx-taken _ _ _ _ _ _ claimed, claim_or_recover, Idempotency.claim)
        (rw (claimed', Idempotency.get)
          (rw
            (lost_claim-open
              (Idempotency.lease input.id (some (env.clock w.calls)) (env.clock w.calls)) idem
              unfinished)
            (rw (missing, get_payment)
              (rw
                (L.leases.set_ex_nx-free _ _ _ _ _ (get-del_self L.leases _ _ _), Idempotency.claim)
                (
                  refl,
                  refl,
                  refl,
                  λ t kept. ap final_state (get-set_ex_self L.leases t _ _ _ _ _ (kept _)),
                )))))

  -- With Redis answering, if the queue refuses the job, the submission throws a bad request and the
  -- claim is given back: no idempotency record is left, and no job is queued.
  pub submit_claimed-unqueued :
      (u : ℕ) (message : String)
      → ((job : EnqueuePaymentJobInput) → env.queue_fault job ≡ some message)
      → let (result, w') = submit_claimed (calm env) Idempotency.new input current w in
        (result ≡ raised (bad_request ("payment could not be queued: " <> message)))
        × (R.leases.get u input.id w'.idempotency ≡ none)
        × (w'.jobs ≡ w.jobs)
        × (w'.guard ≡ w.guard)
  unfolding submit_claimed create_payment_record
  submit_claimed-unqueued u message refuses = elim (Option-cases input.scheduled_at) [
    | inl e ↦
        rw (e, submit_claimed)
          (rw (refuses, enqueue_record, enqueue) (refl, get-del_self L.leases u _ _, refl, refl))
    | inr (t, e) ↦
        rw (e, submit_claimed)
          (rw (refuses, enqueue_record, enqueue) (refl, get-del_self L.leases u _ _, refl, refl))
  ]

  submit_recovered :
      (idem : IdempotencyRecord)
      → R.leases.get (env.clock (w.calls + 1)) input.id w.idempotency ≡ some (json idem)
      → R.leases.get (env.clock (w.calls + 1 + 1)) input.id w.idempotency ≡ some (json idem)
      → idem.state ≡ IdempotencyState.processing
      → R.payments.hget input.id w.payments ≡ none
      → ((job : EnqueuePaymentJobInput) → env.queue_fault job ≡ none)
      → let (result, w') = submit (calm env) input current w in
        (r : PaymentRecord) × (result ≡ ok (created r))
        × (R.payments.hget input.id w'.payments ≡ some (json r))
        × (jobs_outline w'.jobs ≡ jobs_outline w.jobs ++ its_job input ∷ [])
        × (w'.guard ≡ w.guard)
        × ((t : ℕ)
            → Within env.clock env.lease_ttl_seconds t
            → final_state (R.leases.get t input.id w'.idempotency)
              ≡ some (IdempotencyState.processing, none))
  submit_recovered idem claimed claimed' unfinished missing accepts =
      let f = claim_or_recover-recovers idem claimed claimed' unfinished missing in
      let w1 : World N P R = (claim_or_recover (calm env) input.id w).1 in
      let s =
        submit_new L env w input current w1
          (ap (λ (c : Result Raised Idempotency.ClaimResult). (c, w1)) f.0) accepts in
      (
        fresh_record input current (env.clock w1.calls),
        s.0,
        s.1,
        s.2 ∙ ap (λ js. jobs_outline js ++ its_job input ∷ []) f.1,
        s.4 ∙ f.2,
        λ t kept. ap (λ m. final_state (R.leases.get t input.id m)) s.3 ∙ f.3 t kept,
      )

  -- With Redis and the queue answering, a submission that finds an unfinished claim, at both reads,
  -- without a stored payment takes it over: it is accepted, its record is stored, one job for it is
  -- handed to the queue, and its claim is in state PROCESSING.
  pub submit-recovers :
      (t : ℕ) (idem : IdempotencyRecord)
      → R.leases.get (env.clock (w.calls + 1)) input.id w.idempotency ≡ some (json idem)
      → R.leases.get (env.clock (w.calls + 1 + 1)) input.id w.idempotency ≡ some (json idem)
      → idem.state ≡ IdempotencyState.processing
      → R.payments.hget input.id w.payments ≡ none
      → ((job : EnqueuePaymentJobInput) → env.queue_fault job ≡ none)
      → Within env.clock env.lease_ttl_seconds t
      → let (result, w') = submit (calm env) input current w in
        (r : PaymentRecord) × (result ≡ ok (created r))
        × (R.payments.hget input.id w'.payments ≡ some (json r))
        × (jobs_outline w'.jobs ≡ jobs_outline w.jobs ++ its_job input ∷ [])
        × (final_state (R.leases.get t input.id w'.idempotency)
            ≡ some (IdempotencyState.processing, none))
        × (w'.guard ≡ w.guard)
  submit-recovers t idem claimed claimed' unfinished missing accepts kept =
      let s = submit_recovered idem claimed claimed' unfinished missing accepts in
      (s.0, s.1, s.2, s.3, s.5 t kept, s.4)

  -- The claim of a payment that nobody had claimed, as another submission finds it.
  claim_or_recover_leases :
      (t : ℕ)
      → t < env.clock (w.calls + 1) + 1000 * env.lease_ttl_seconds
      → R.leases.get (env.clock (w.calls + 1)) input.id w.idempotency ≡ none
      → let (c, w1) = claim_or_recover (calm env) input.id w in
        (c ≡ ok Idempotency.new)
        × (w1.calls ≡ w.calls + 1 + 1)
        × (w1.payments ≡ w.payments)
        × (w1.jobs ≡ w.jobs)
        × (R.leases.get t input.id w1.idempotency
            ≡ some
                (json (Idempotency.lease input.id (some (env.clock w.calls)) (env.clock w.calls))))
  unfolding claim_or_recover
  claim_or_recover_leases t live free =
      rw (L.leases.set_ex_nx-free _ _ _ _ _ free, claim_or_recover, Idempotency.claim)
        (refl, refl, refl, refl, get-set_ex_self L.leases t _ _ _ _ _ live)

module _ {N : Number} {P : GuardPort N} {R : Redis} (L : IsRedis R) (env : Env) (w : World N P R)
    (input : CreatePaymentInput) (current : Option String) where
  -- With Redis and the queue answering, two submissions of one payment, alike but for the amount,
  -- are both accepted, if the second one runs between the claim of the first and its writing of the
  -- record, while the lease lasts: each answers `created`, and each hands a job to the queue, under
  -- the same id.
  pub submit-overtaken :
      (amount : ℕ) (other_current : Option String)
      → R.leases.get (env.clock (w.calls + 1)) input.id w.idempotency ≡ none
      → R.payments.hget input.id w.payments ≡ none
      → env.clock (w.calls + 1 + 1 + 1) < env.clock (w.calls + 1) + 1000 * env.lease_ttl_seconds
      → env.clock (w.calls + 1 + 1 + 1 + 1) < env.clock (w.calls + 1) + 1000 * env.lease_ttl_seconds
      → ((job : EnqueuePaymentJobInput) → env.queue_fault job ≡ none)
      → let second : CreatePaymentInput = record input { amount = amount } in
        let (claimed, w1) = claim_or_recover (calm env) input.id w in
        let (b, w2) = submit (calm env) second other_current w1 in
        let (a, w3) = submit_claimed (calm env) Idempotency.new input current w2 in
        (p : PaymentRecord) × (q : PaymentRecord) × (claimed ≡ ok Idempotency.new)
        × (b ≡ ok (created p))
        × (a ≡ ok (created q))
        × (jobs_outline w3.jobs
            ≡ (jobs_outline w.jobs ++ its_job second ∷ []) ++ its_job input ∷ [])
  submit-overtaken amount other_current free missing live live' accepts =
      let second : CreatePaymentInput = record input { amount = amount } in
      let w1 : World N P R = (claim_or_recover (calm env) input.id w).1 in
      let f = claim_or_recover_leases L env w input current _ live free in
      let f' = claim_or_recover_leases L env w input current _ live' free in
      let w2 : World N P R = (submit (calm env) second other_current w1).1 in
      let s =
        submit_recovered L env w1 second other_current
          (Idempotency.lease input.id (some (env.clock w.calls)) (env.clock w.calls)) (rw f.1 f.4)
          (rw f.1 f'.4) refl (ap (R.payments.hget input.id) f.2 ∙ missing) accepts in
      let c = submit_claimed-creates L env w2 input current accepts in
      (
        s.0,
        fresh_record input current (env.clock w2.calls),
        f.0,
        s.1,
        c.0,
        c.2
            ∙ ap (λ js. js ++ its_job input ∷ [])
                (s.3 ∙ ap (λ js. jobs_outline js ++ its_job second ∷ []) f.3),
      )
