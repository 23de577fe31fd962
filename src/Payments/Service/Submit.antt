-- ===== src/Payments/Service/Submit.antt =====
-- payment.service.ts: what a submission leaves behind, with Redis answering.
use queue_system.Prelude.{
  ℕ, ◌+◌, ◌≡◌, ◌≢◌, ◌∙◌, refl, ap, String, Option, none, some, List, [], ◌∷◌, ◌++◌, map, arith,
  or_else, Option-cases, inl, inr,
}
use mathlib.Core.List.{map-append}
use queue_system.Domain.Json.{end}
use queue_system.Prelude.Number.{Number}
use queue_system.Domain.Errors.{Raised}
use queue_system.Domain.Payment.{
  PaymentRecord, normal, IdempotencyRecord, IdempotencyState, default_max_retries,
  priority_to_numeric, create_payment_record,
}
use queue_system.Payments.Exec.{Result, ok, raised, ◌>>=◌}
use queue_system.Payments.Redis.{Redis, IsRedis, hget-hset_self, get-set_ex_self, json}
use queue_system.Payments.World.{GuardPort, Env, World, QueuedJob, EnqueuePaymentJobInput, Within}
use queue_system.Payments.Stores.{get_payment}
use queue_system.Payments.Queue.{enqueue, job_of}
use queue_system.Payments.Idempotency as Idempotency
use queue_system.Payments.Saga.Outcome.{calm}
use queue_system.Payments.Processor.Terminal.{final_state}
use queue_system.Payments.Service.{
  CreatePaymentInput, created, replayed, processed_elsewhere, submit, submit_claimed,
  claim_or_recover, enqueue_record, either, awaiting,
}

-- Which payments the jobs handed to the queues are for, under which id, with how many attempts and
-- at which priority.
abbrev pub jobs_outline : List QueuedJob → List (String × String × ℕ × ℕ)
jobs_outline = map (λ j. (j.data_of.payment_id, j.job_id, j.attempts, j.priority))

module _ {N : Number} {P : GuardPort N} {R : Redis} where
  -- Nothing was stored, queued or announced, and the claims are as they were.
  abbrev pub Unsubmitted : World N P R → World N P R → Type 0
  Unsubmitted w w' =
      (w'.payments ≡ w.payments)
      × (w'.idempotency ≡ w.idempotency)
      × (w'.jobs ≡ w.jobs)
      × (w'.events ≡ w.events)
      × (w'.audit ≡ w.audit)

pub lost_claim-final :
    (lease idem : IdempotencyRecord)
    → idem.state ≢ IdempotencyState.processing
    → Idempotency.lost_claim lease (some idem) ≡ Idempotency.replayed idem
unfolding Idempotency.lost_claim
lost_claim-final lease idem final = ground arith

pub lost_claim-open :
    (lease idem : IdempotencyRecord)
    → idem.state ≡ IdempotencyState.processing
    → Idempotency.lost_claim lease (some idem) ≡ Idempotency.conflict idem
unfolding Idempotency.lost_claim
lost_claim-open lease idem open_lease = ground arith

module _ (input : CreatePaymentInput) where
  -- The job that a submission hands to the queue of the gateway.
  abbrev pub its_job : String × String × ℕ × ℕ
  its_job = (
    input.id,
    input.id,
    or_else input.max_retries default_max_retries + 1,
    priority_to_numeric (or_else input.priority normal),
  )

module _ (input : CreatePaymentInput) (current : Option String) where
  -- The record of a payment that is submitted at a time.
  abbrev pub fresh_record : ℕ → PaymentRecord
  fresh_record t =
      create_payment_record
        (record {
          id = input.id;
          amount = input.amount;
          currency = input.currency;
          customer_id = input.customer_id;
          gateway_id = input.gateway_id;
          priority = or_else input.priority normal;
          max_retries = input.max_retries;
          metadata = some (or_else input.metadata end);
          scheduled_at = input.scheduled_at;
          correlation_id = either input.correlation_id current;
          created_at = none;
        })
        t

module _ {N : Number} {P : GuardPort N} {R : Redis} (L : IsRedis R) (env : Env) (w : World N P R)
    (input : CreatePaymentInput) (current : Option String) where
  -- With Redis answering, a submission of a payment that is finalized, by what both reads of its
  -- idempotency record say, with its record stored, answers that record and changes nothing.
  pub submit-replays :
      (idem : IdempotencyRecord) (stored : PaymentRecord)
      → R.leases.get (env.clock (w.calls + 1)) input.id w.idempotency ≡ some (json idem)
      → R.leases.get (env.clock (w.calls + 1 + 1)) input.id w.idempotency ≡ some (json idem)
      → idem.state ≢ IdempotencyState.processing
      → R.payments.hget input.id w.payments ≡ some (json stored)
      → let (result, w') = submit (calm env) input current w in
        (result ≡ ok (replayed stored)) × Unsubmitted w w'
  unfolding submit claim_or_recover
  submit-replays idem stored claimed claimed' final found =
      rw (L.leases.set_ex_nx-taken _ _ _ _ _ _ claimed, submit, claim_or_recover, Idempotency.claim)
        (rw (claimed', Idempotency.get)
          (rw
            (lost_claim-final
              (Idempotency.lease input.id (some (env.clock w.calls)) (env.clock w.calls)) idem
              final)
            (rw (found, submit_claimed, get_payment) (refl, (refl, refl, refl, refl, refl)))))

  -- With Redis answering, a submission of a payment that is being processed, by what both reads of
  -- its idempotency record say, with its record stored, is refused with the stored status and
  -- changes nothing.
  pub submit-refuses :
      (idem : IdempotencyRecord) (stored : PaymentRecord)
      → R.leases.get (env.clock (w.calls + 1)) input.id w.idempotency ≡ some (json idem)
      → R.leases.get (env.clock (w.calls + 1 + 1)) input.id w.idempotency ≡ some (json idem)
      → idem.state ≡ IdempotencyState.processing
      → R.payments.hget input.id w.payments ≡ some (json stored)
      → let (result, w') = submit (calm env) input current w in
        (result ≡ raised (processed_elsewhere input.id stored.status)) × Unsubmitted w w'
  unfolding submit claim_or_recover
  submit-refuses idem stored claimed claimed' unfinished found =
      rw (L.leases.set_ex_nx-taken _ _ _ _ _ _ claimed, submit, claim_or_recover, Idempotency.claim)
        (rw (claimed', Idempotency.get)
          (rw
            (lost_claim-open
              (Idempotency.lease input.id (some (env.clock w.calls)) (env.clock w.calls)) idem
              unfinished)
            (rw (found, submit_claimed, get_payment)
              (rw found refl, (refl, refl, refl, refl, refl)))))

  pub claim_or_recover-new :
      (t : ℕ)
      → Within env.clock env.lease_ttl_seconds t
      → R.leases.get (env.clock (w.calls + 1)) input.id w.idempotency ≡ none
      → let (c, w1) = claim_or_recover (calm env) input.id w in
        (c ≡ ok Idempotency.new)
        × (final_state (R.leases.get t input.id w1.idempotency)
            ≡ some (IdempotencyState.processing, none))
        × (w1.jobs ≡ w.jobs)
        × (w1.payments ≡ w.payments)
        × (w1.guard ≡ w.guard)
        × (w1.calls ≡ w.calls + 1 + 1)
  unfolding claim_or_recover
  claim_or_recover-new t kept free =
      rw (L.leases.set_ex_nx-free _ _ _ _ _ free, claim_or_recover, Idempotency.claim)
        (
          refl,
          ap final_state (get-set_ex_self L.leases t _ _ _ _ _ (kept _)),
          refl,
          refl,
          refl,
          refl,
        )

  -- What a submission with the claim in its hands leads to, when the queue takes the job.
  pub submit_claimed-creates :
      ((job : EnqueuePaymentJobInput) → env.queue_fault job ≡ none)
      → let (result, w') = submit_claimed (calm env) Idempotency.new input current w in
        (result ≡ ok (created (fresh_record input current (env.clock w.calls))))
        × (R.payments.hget input.id w'.payments
            ≡ some (json (fresh_record input current (env.clock w.calls))))
        × (jobs_outline w'.jobs ≡ jobs_outline w.jobs ++ its_job input ∷ [])
        × (w'.idempotency ≡ w.idempotency)
        × (w'.guard ≡ w.guard)
  unfolding submit_claimed create_payment_record job_of
  submit_claimed-creates accepts = elim (Option-cases input.scheduled_at) [
    | inl e ↦
        rw (e, submit_claimed)
          (rw (accepts, enqueue_record, enqueue)
            (rw e refl, hget-hset_self L.payments _ _ _, simp map-append, refl, refl))
    | inr (t, e) ↦
        rw (e, submit_claimed)
          (rw (accepts, enqueue_record, enqueue)
            (rw e refl, hget-hset_self L.payments _ _ _, simp map-append, refl, refl))
  ]

module _ {N : Number} {P : GuardPort N} {R : Redis} (L : IsRedis R) (env : Env) (w : World N P R)
    (input : CreatePaymentInput) (current : Option String) where
  pub submit_from :
      (c : Idempotency.ClaimResult) (w1 : World N P R)
      → claim_or_recover env input.id w ≡ (ok c, w1)
      → submit env input current w ≡ submit_claimed env c input current w1
  unfolding submit
  submit_from c w1 h =
      ap
        (λ (x : Result Raised Idempotency.ClaimResult × World N P R).
          (awaiting (λ _. x) >>= λ c. submit_claimed env c input current) w)
        h

module _ {N : Number} {P : GuardPort N} {R : Redis} (L : IsRedis R) (env : Env) (w : World N P R)
    (input : CreatePaymentInput) (current : Option String) where
  -- Submissions that find the claim taken by nobody, or taken without a stored payment, once that
  -- claim is theirs.
  pub submit_new :
      (w1 : World N P R)
      → claim_or_recover (calm env) input.id w ≡ (ok Idempotency.new, w1)
      → ((job : EnqueuePaymentJobInput) → env.queue_fault job ≡ none)
      → let (result, w') = submit (calm env) input current w in
        (result ≡ ok (created (fresh_record input current (env.clock w1.calls))))
        × (R.payments.hget input.id w'.payments
            ≡ some (json (fresh_record input current (env.clock w1.calls))))
        × (jobs_outline w'.jobs ≡ jobs_outline w1.jobs ++ its_job input ∷ [])
        × (w'.idempotency ≡ w1.idempotency)
        × (w'.guard ≡ w1.guard)
  submit_new w1 h accepts =
      rw (submit_from L (calm env) w input current Idempotency.new w1 h)
        (submit_claimed-creates L env w1 input current accepts)

  -- With Redis and the queue answering, a submission of a payment that nobody has claimed is
  -- accepted: its record is stored as queued, one job for it is handed to the queue, with one
  -- attempt more than its retries, its claim is in state PROCESSING, and the provider is not
  -- called.
  pub submit-creates :
      (t : ℕ)
      → Within env.clock env.lease_ttl_seconds t
      → R.leases.get (env.clock (w.calls + 1)) input.id w.idempotency ≡ none
      → ((job : EnqueuePaymentJobInput) → env.queue_fault job ≡ none)
      → let (result, w') = submit (calm env) input current w in
        let r = fresh_record input current (env.clock (w.calls + 1 + 1)) in
        (result ≡ ok (created r))
        × (R.payments.hget input.id w'.payments ≡ some (json r))
        × (jobs_outline w'.jobs ≡ jobs_outline w.jobs ++ its_job input ∷ [])
        × (final_state (R.leases.get t input.id w'.idempotency)
            ≡ some (IdempotencyState.processing, none))
        × (w'.guard ≡ w.guard)
  submit-creates t kept free accepts =
      let f = claim_or_recover-new L env w input current t kept free in
      let w1 : World N P R = (claim_or_recover (calm env) input.id w).1 in
      let s =
        submit_new w1 (ap (λ (c : Result Raised Idempotency.ClaimResult). (c, w1)) f.0) accepts in
      (
        s.0 ∙ ap (λ n. ok (created (fresh_record input current (env.clock n)))) f.5,
        s.1 ∙ ap (λ n. some (json (fresh_record input current (env.clock n)))) f.5,
        s.2 ∙ ap (λ js. jobs_outline js ++ its_job input ∷ []) f.2,
        ap (λ m. final_state (R.leases.get t input.id m)) s.3 ∙ f.1,
        s.4 ∙ f.4,
      )
