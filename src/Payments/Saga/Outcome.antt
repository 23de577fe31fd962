-- ===== src/Payments/Saga/Outcome.antt =====
-- payment-saga.service.ts: what one execution of the saga leaves behind, with Redis answering every
-- call.
use mathlib.Core.List.{append-nil, append_assoc, map-append}
use queue_system.Prelude.{ℕ, ◌≡◌, refl, ap, false, String, none, some, List, [], ◌∷◌, ◌++◌, map}
use queue_system.Prelude.Number.{Number}
use queue_system.Domain.Errors.{PaymentProcessingError, processing, settle_failed, is_transient}
use queue_system.Domain.Payment.{
  Payment, SagaState, SagaPhase, SagaHistoryEntry, reserve, charge, settle, compensation,
}
use queue_system.Common.Events.{
  AppEvent, MetricsAlertPayload, metrics_alert, critical, payment_event, job_completed, job_failed,
  circuit_opened, circuit_closed, rate_limit_throttled, saga_phase,
}
use queue_system.Gateway.Guard.{CallOutcome, RefundOutcome}
use queue_system.Payments.Exec.{ok, raised}
use queue_system.Payments.Redis.{
  Redis, SettlementEntry, IsRedis, hget-hset_self, lrange-rpush_self, json,
}
use queue_system.Payments.World.{GuardPort, Env, World}
use queue_system.Payments.Stores as Stores
use queue_system.Payments.Stores.{settlements_key}
use queue_system.Payments.Saga.{
  execute, charge_step, settle_step, settle_failed_step, refund_charge, guard_refund, SagaOutcome,
}

-- The same environment, with a Redis that never rejects.
abbrev pub calm : Env → Env
calm env = record env { fault = λ _. none }

-- A history without times and details.
abbrev pub outline : List SagaHistoryEntry → List (SagaPhase × String)
outline = map (λ h. (h.phase, h.event))

-- The alerts among a list of events.
abbrev pub alerts : {N : Number} → List (AppEvent N) → List (MetricsAlertPayload N)
alerts [] = []
alerts (metrics_alert a at ∷ rest) = a ∷ alerts rest
alerts (_ ∷ rest) = alerts rest

-- What a settlement of a payment says, without its time.
abbrev pub SettledAs : Payment → String → SettlementEntry → Type 0
SettledAs p transaction_id s =
    (s.payment_id ≡ p.id)
    × (s.transaction_id ≡ transaction_id)
    × (s.amount ≡ p.amount)
    × (s.currency ≡ p.currency)
    × (s.customer_id ≡ p.customer_id)
    × (s.gateway_id ≡ p.gateway_id)

module _ {N : Number} {P : GuardPort N} {R : Redis} (L : IsRedis R) (env : Env)
    (w : World N P R) where
  -- With Redis answering, if the charge succeeds and the ledger accepts the settlement, the saga
  -- returns the charge's transaction, the ledger has one more entry, of this payment and this
  -- charge, and nothing is refunded: the guard is as the charge left it.
  pub execute_succeeds :
      (transaction_id : String) (status : ℕ) (latency : N.Carrier) (g : P.State)
      → P.call w.current.payment w.current.correlation_id w.guard
        ≡ (CallOutcome.ok transaction_id status latency, g)
      → env.ledger_fault w.current.payment ≡ none
      → let (r, w') = execute (calm env) w in
        (o : SagaOutcome) × (s : SettlementEntry) × (r ≡ ok o)
        × (o.transaction_id ≡ transaction_id)
        × (w'.guard ≡ g)
        × (R.settlements.lrange settlements_key w'.settlements
            ≡ R.settlements.lrange settlements_key w.settlements ++ s ∷ [])
        × SettledAs w.current.payment transaction_id s
        × (w'.current.saga_state ≡ SagaState.settled)
        × (w'.current.transaction_id ≡ some transaction_id)
        × (w'.current.reservation_id ≡ some o.reservation_id)
        × (outline w'.current.history
            ≡ outline w.current.history ++ (reserve, "ok") ∷ (charge, "ok") ∷ (settle, "ok") ∷ [])
  unfolding execute
  execute_succeeds transaction_id status latency g called accepted =
      rw (called, execute)
        (rw (accepted, charge_step, settle_step, Stores.settle)
          (
            _,
            _,
            refl,
            refl,
            refl,
            lrange-rpush_self L.settlements _ _ _,
            (refl, refl, refl, refl, refl, refl),
            refl,
            refl,
            refl,
            simp (map-append, append_assoc),
          ))

  -- With Redis answering, if the guard refuses the call or the provider rejects the charge, the
  -- saga throws that very error; nothing is settled and nothing refunded, the reservation is
  -- released, and the record that is stored is the record at hand.
  pub execute_charge_failed :
      (error : PaymentProcessingError) (g : P.State)
      → P.call w.current.payment w.current.correlation_id w.guard ≡ (CallOutcome.fail error, g)
      → let (r, w') = execute (calm env) w in
        (r ≡ raised (processing error))
        × (w'.guard ≡ g)
        × (w'.settlements ≡ w.settlements)
        × (w'.current.transaction_id ≡ w.current.transaction_id)
        × (R.payments.hget w.current.payment.id w'.payments ≡ some (json w'.current))
        × (outline w'.current.history
            ≡ outline w.current.history
              ++ (reserve, "ok") ∷ (charge, "failure") ∷ (compensation, "release_funds") ∷ [])
  unfolding execute
  execute_charge_failed error g called =
      rw (called, execute)
        (refl, refl, refl, refl, hget-hset_self L.payments _ _ _, simp (map-append, append_assoc))

alerts-append :
    {N : Number} (xs ys : List (AppEvent N)) → alerts (xs ++ ys) ≡ alerts xs ++ alerts ys
alerts-append [] ys = refl
alerts-append (metrics_alert a at ∷ rest) ys = ap (◌∷◌ a) (alerts-append rest ys)
alerts-append (payment_event e ∷ rest) ys = alerts-append rest ys
alerts-append (job_completed p g b d at ∷ rest) ys = alerts-append rest ys
alerts-append (job_failed p g r at ∷ rest) ys = alerts-append rest ys
alerts-append (circuit_opened g at ∷ rest) ys = alerts-append rest ys
alerts-append (circuit_closed g at ∷ rest) ys = alerts-append rest ys
alerts-append (rate_limit_throttled g at ∷ rest) ys = alerts-append rest ys
alerts-append (saga_phase p g h o at ∷ rest) ys = alerts-append rest ys

-- A refund is recorded, or its failure raises one critical alert.
abbrev pub Compensated :
    {N : Number} {P : GuardPort N} {R : Redis}
    → RefundOutcome N
    → World N P R
    → World N P R
    → Type 0
Compensated (RefundOutcome.ok refund_id status latency) w w' =
    (w'.current.refund_id ≡ some refund_id) × (alerts w'.events ≡ alerts w.events)
Compensated (RefundOutcome.fail error) w w' =
    (w'.current.refund_id ≡ w.current.refund_id)
    × (map (λ a. a.severity) (alerts w'.events)
        ≡ map (λ a. a.severity) (alerts w.events) ++ critical ∷ [])

module _ {N : Number} {P : GuardPort N} {R : Redis} (L : IsRedis R) (env : Env)
    (w : World N P R) where
  -- What a settlement that failed after the charge of `transaction_id` leads to, given the refund's
  -- answer.
  abbrev pub Reversed : RefundOutcome N → P.State → Type 0
  Reversed o g' =
      let (r, w') = execute (calm env) w in
      (e : PaymentProcessingError) × (r ≡ raised (processing e))
      × (e.code ≡ settle_failed)
      × (e.retryable ≡ false)
      × (w'.guard ≡ g')
      × (w'.settlements ≡ w.settlements)
      × (w'.current.saga_state ≡ SagaState.compensated)
      × (R.payments.hget w.current.payment.id w'.payments ≡ some (json w'.current))
      × Compensated o w w'

  settle_failed_by :
      (transaction_id : String) (status : ℕ) (latency : N.Carrier) (g g' : P.State)
      (message : String) (o : RefundOutcome N)
      → P.call w.current.payment w.current.correlation_id w.guard
        ≡ (CallOutcome.ok transaction_id status latency, g)
      → env.ledger_fault w.current.payment ≡ some message
      → P.refund w.current.payment.gateway_id transaction_id g ≡ (o, g')
      → Reversed o g'
  unfolding execute is_transient
  settle_failed_by transaction_id status latency g g' message (RefundOutcome.ok rid st lt) called
        refused refunded =
      rw (called, execute)
        (rw (refused, charge_step, settle_step, Stores.settle)
          (rw (refunded, settle_failed_step, refund_charge, guard_refund)
            (
              _,
              refl,
              refl,
              refl,
              refl,
              refl,
              refl,
              hget-hset_self L.payments _ _ _,
              (refl, simp (alerts-append, append-nil)),
            )))
  settle_failed_by transaction_id status latency g g' message (RefundOutcome.fail error) called
        refused refunded =
      rw (called, execute)
        (rw (refused, charge_step, settle_step, Stores.settle)
          (rw (refunded, settle_failed_step, refund_charge, guard_refund)
            (
              _,
              refl,
              refl,
              refl,
              refl,
              refl,
              refl,
              hget-hset_self L.payments _ _ _,
              (refl, simp (alerts-append, append-nil, map-append)),
            )))

  -- With Redis answering, if the charge succeeds and the ledger rejects the settlement, the charge
  -- is refunded by exactly one call, without asking whether the breaker is open; the saga throws a
  -- permanent error, nothing is settled, the stored record is the record at hand, marked as
  -- compensated. A refund that succeeds is recorded, one that fails raises one critical alert.
  pub execute_settle_failed :
      (transaction_id : String) (status : ℕ) (latency : N.Carrier) (g : P.State) (message : String)
      → P.call w.current.payment w.current.correlation_id w.guard
        ≡ (CallOutcome.ok transaction_id status latency, g)
      → env.ledger_fault w.current.payment ≡ some message
      → let (o, g') = P.refund w.current.payment.gateway_id transaction_id g in Reversed o g'
  execute_settle_failed transaction_id status latency g message called refused =
      settle_failed_by transaction_id status latency g _ message _ called refused refl
