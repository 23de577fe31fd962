-- ===== src/Payments/Delivery/Attempts.antt =====
-- payment.processor.ts: what one delivered attempt leads to, with Redis answering.
use queue_system.Prelude.{
  ℕ, ◌≡◌, ◌∙◌, refl, ap, true, false, String, Option, some, ◌⊎◌, inl, inr, sym, Bool-cases,
}
use queue_system.Prelude.Number.{Number}
use queue_system.Domain.Errors.{Raised, to_payment_processing_error, unknown}
use queue_system.Domain.Payment.{
  PaymentRecord, PaymentStatus, IdempotencyState, transition_to_processing,
}
use queue_system.Payments.Exec.{Result, ok, raised}
use queue_system.Payments.Redis.{Redis, IsRedis, json, parse}
use queue_system.Payments.World.{GuardPort, Env, World, Within}
use queue_system.Payments.Saga.{SagaOutcome, execute}
use queue_system.Payments.Saga.Outcome.{calm}
use queue_system.Payments.Saga.Keeps.{Keeps, execute-Keeps}
use queue_system.Payments.Processor.{
  ProcessResult, Job, is_final, is_terminal, run_saga, attempt, locked_attempt,
}
use queue_system.Payments.Processor.Terminal.{
  stored_status, final_state, run_saga_completes, run_saga_retries, run_saga_dead_letters,
}

module _ {N : Number} {P : GuardPort N} {R : Redis} where
  -- The stored record and the idempotency record agree on one of the two ends of a payment.
  abbrev pub Ended : ℕ → String → World N P R → Type 0
  Ended t id w =
      ((stored_status (R.payments.hget id w.payments) ≡ some PaymentStatus.completed)
        × (final_state (R.leases.get t id w.idempotency)
            ≡ some (IdempotencyState.completed, some PaymentStatus.completed)))
      ⊎ ((stored_status (R.payments.hget id w.payments) ≡ some PaymentStatus.dead_letter)
          × (final_state (R.leases.get t id w.idempotency)
              ≡ some (IdempotencyState.failed, some PaymentStatus.dead_letter)))

  -- A stored record of the payment that is not terminal.
  abbrev pub Open : String → World N P R → Type 0
  Open id w =
      (latest : PaymentRecord) × (R.payments.hget id w.payments ≡ some (json latest))
      × (latest.payment.id ≡ id)
      × (is_terminal latest.status ≡ false)

  -- At no time does the idempotency record say that the payment is finalized.
  abbrev pub Unfinished : String → World N P R → Type 0
  Unfinished id w = (u : ℕ) → is_final (parse (R.leases.get u id w.idempotency)) ≡ false

  -- An attempt that returns has ended the payment, one that throws has left it open.
  abbrev pub Decided : ℕ → String → Result Raised ProcessResult × World N P R → Type 0
  Decided t id (r, w) =
      ((p : ProcessResult) × (r ≡ ok p) × Ended t id w)
      ⊎ ((x : Raised) × (r ≡ raised x) × Open id w × Unfinished id w)

module _ {N : Number} {P : GuardPort N} {R : Redis} (L : IsRedis R) (env : Env) (w : World N P R)
    (t : ℕ) (id : String) (fresh : Within env.clock env.retention_seconds t) where
  run_saga_decides :
      (correlation_id : Option String) (started_at : ℕ) (e : Result Raised SagaOutcome)
      (w2 : World N P R)
      → execute (calm env) w ≡ (e, w2)
      → Keeps w w2
      → w.current.payment.id ≡ id
      → is_terminal w.current.status ≡ false
      → Unfinished id w
      → Decided t id (run_saga (calm env) id correlation_id started_at w)
  run_saga_decides correlation_id started_at (ok o) w2 returned k same open_status unfinished =
      let c =
        run_saga_completes L env w t id correlation_id started_at o w2 fresh returned
          (ap (λ p. p.id) k.0 ∙ same) in
      inl (_, c.0, inl (ap stored_status c.1 ∙ ap some c.2, c.5))
  run_saga_decides correlation_id started_at (raised x) w2 threw
        (payment, status, idempotency, (latest, stored, its_own, its_status)) same open_status
        unfinished =
      let id2 : w2.current.payment.id ≡ id = ap (λ p. p.id) payment ∙ same in
      elim (Bool-cases
        (to_payment_processing_error x w2.current.payment.gateway_id unknown).retryable) [
          | inl again ↦
              let c = run_saga_retries L env w id correlation_id started_at x w2 threw id2 again in
              inr (
                _,
                c.0,
                (_, c.1, ap (λ p. p.id) c.3 ∙ id2, ap is_terminal (c.2 ∙ status) ∙ open_status),
                λ u.
                    ap (λ m. is_final (parse (R.leases.get u id m))) (c.4 ∙ idempotency)
                    ∙ unfinished u,
              )
          | inr permanent ↦
              let c =
                run_saga_dead_letters L env w t id correlation_id started_at x w2 latest fresh threw
                  id2 (ap (λ k. R.payments.hget k w2.payments) (sym same) ∙ stored)
                  (ap (λ p. p.id) its_own ∙ same) (ap is_terminal its_status ∙ open_status)
                  permanent in
              inl (_, c.0, inr (c.1, c.2))
        ]

module _ {N : Number} {P : GuardPort N} {R : Redis} (L : IsRedis R) (env : Env) (w : World N P R)
    (t : ℕ) (job : Job) (fresh : Within env.clock env.retention_seconds t) where
  attempt_decides :
      (loaded : PaymentRecord) (started_at : ℕ)
      → loaded.payment.id ≡ job.payment_id
      → Unfinished job.payment_id w
      → Decided t job.payment_id (attempt (calm env) loaded job started_at w)
  unfolding attempt transition_to_processing
  attempt_decides loaded started_at same unfinished =
      run_saga_decides L env _ t job.payment_id fresh job.correlation_id started_at _ _ refl
        (execute-Keeps L env _) same refl unfinished

  pub locked_attempt_decides :
      (loaded : PaymentRecord) (started_at : ℕ)
      → loaded.payment.id ≡ job.payment_id
      → Unfinished job.payment_id w
      → Decided t job.payment_id (locked_attempt (calm env) true loaded job started_at w)
  unfolding locked_attempt
  locked_attempt_decides loaded started_at same unfinished =
      attempt_decides loaded started_at same unfinished
