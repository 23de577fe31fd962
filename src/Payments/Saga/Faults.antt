-- ===== src/Payments/Saga/Faults.antt =====
-- payment-saga.service.ts: what is stored and what is not, and a Redis failure after a charge.
use queue_system.Prelude.{ℕ, ◌+◌, ◌≡◌, ◌∙◌, refl, ap, String, Option, none, some}
use queue_system.Prelude.Number.{Number}
use queue_system.Domain.Errors.{Raised, other}
use queue_system.Domain.Payment.{PaymentRecord, SagaState}
use queue_system.Gateway.Guard.{CallOutcome}
use queue_system.Payments.Exec.{Result, ok, raised, continue, ◌>>=◌}
use queue_system.Payments.Redis.{Redis, IsRedis, hget-hset_self, Doc, json, malformed}
use queue_system.Payments.World.{GuardPort, Env, World, external}
use queue_system.Payments.Stores as Stores
use queue_system.Payments.Stores.{save, audit}
use queue_system.Payments.Saga.{
  execute, charge_step, settle_step, reserve_step, charge_done, guard_call,
}
use queue_system.Payments.Saga.Outcome.{calm}

-- The saga state that a stored record shows.
abbrev pub stored_state : Option (Doc PaymentRecord) → Option SagaState
stored_state none = none
stored_state (some (json r)) = some r.saga_state
stored_state (some malformed) = none

module _ {N : Number} {P : GuardPort N} {R : Redis} (L : IsRedis R) (env : Env)
    (w : World N P R) where
  -- With Redis answering, when the saga returns after a settlement, the record that is stored still
  -- says `charged`: the transition to `settled` is in the shared object alone.
  pub execute_stores_charged :
      (transaction_id : String) (status : ℕ) (latency : N.Carrier) (g : P.State)
      → P.call w.current.payment w.current.correlation_id w.guard
        ≡ (CallOutcome.ok transaction_id status latency, g)
      → env.ledger_fault w.current.payment ≡ none
      → let (r, w') = execute (calm env) w in
        (w'.current.saga_state ≡ SagaState.settled)
        × (stored_state (R.payments.hget w.current.payment.id w'.payments) ≡ some SagaState.charged)
  unfolding execute
  execute_stores_charged transaction_id status latency g called accepted =
      rw (called, execute)
        (rw (accepted, charge_step, settle_step, Stores.settle)
          (refl, ap stored_state (hget-hset_self L.payments _ _ _)))

  -- The first step, when Redis takes its two writes.
  reserve_step_facts :
      env.fault 2 ≡ none
      → env.fault 4 ≡ none
      → let (r, w1) = reserve_step env (record w { calls = 0 }) in
        (id : String) × (r ≡ ok id)
        × (w1.calls ≡ 6)
        × (w1.guard ≡ w.guard)
        × (w1.settlements ≡ w.settlements)
        × (w1.dlq ≡ w.dlq)
        × (w1.current.payment ≡ w.current.payment)
        × (w1.current.correlation_id ≡ w.current.correlation_id)
  unfolding reserve_step
  reserve_step_facts saved audited =
      rw (saved, reserve_step, save, external)
        (rw (audited, reserve_step, audit, external) (_, refl, refl, refl, refl, refl, refl, refl))

  charge_step_fault :
      (id transaction_id : String) (status : ℕ) (latency : N.Carrier) (message : String)
      → env.fault (w.calls + 1) ≡ some message
      → let (r, w') = charge_step env id (CallOutcome.ok transaction_id status latency) w in
        (r ≡ raised (other message))
        × (w'.guard ≡ w.guard)
        × (w'.settlements ≡ w.settlements)
        × (w'.dlq ≡ w.dlq)
  unfolding charge_step
  charge_step_fault id transaction_id status latency message fails =
      rw (fails, charge_step, charge_done, save, external) (refl, refl, refl, refl)

  -- The saga from the end of its first step on.
  execute_from :
      (id : String) (w1 : World N P R) (o : CallOutcome N) (g : P.State)
      → reserve_step env w ≡ (ok id, w1)
      → P.call w1.current.payment w1.current.correlation_id w1.guard ≡ (o, g)
      → execute env w ≡ charge_step env id o (record w1 { guard = g })
  unfolding execute
  execute_from id w1 o g reserved called =
      ap (continue (λ id. guard_call env >>= charge_step env id)) reserved
      ∙ ap (λ (x : CallOutcome N × P.State). charge_step env id x.0 (record w1 { guard = x.1 }))
          called

module _ {N : Number} {P : GuardPort N} {R : Redis} (L : IsRedis R) (env : Env)
    (w : World N P R) where
  -- If the provider has charged the payment and the next call to Redis, the write of the record, fails,
  -- the saga throws the failure of Redis, unclassified, and refunds nothing. The calls to the outside
  -- are counted from the start of the attempt: the write is the eighth.
  pub execute_uncompensated :
      (transaction_id : String) (status : ℕ) (latency : N.Carrier) (g : P.State) (message : String)
      → P.call w.current.payment w.current.correlation_id w.guard
        ≡ (CallOutcome.ok transaction_id status latency, g)
      → env.fault 2 ≡ none
      → env.fault 4 ≡ none
      → env.fault 7 ≡ some message
      → let (r, w') = execute env (record w { calls = 0 }) in
        (r ≡ raised (other message))
        × (w'.guard ≡ g)
        × (w'.settlements ≡ w.settlements)
        × (w'.dlq ≡ w.dlq)
  execute_uncompensated transaction_id status latency g message called saved audited fails =
      let f = reserve_step_facts L env w saved audited in
      let w1 : World N P R = (reserve_step env (record w { calls = 0 })).1 in
      let c =
        charge_step_fault L env (record w1 { guard = g }) f.0 transaction_id status latency message
          (rw f.2 fails) in
      rw
        (execute_from L env (record w { calls = 0 }) f.0 w1
          (CallOutcome.ok transaction_id status latency) g
          (ap (λ (r : Result Raised String). (r, w1)) f.1) (rw (f.6, f.7, f.3) called))
        (c.0, c.1, c.2 ∙ f.4, c.3 ∙ f.5)
