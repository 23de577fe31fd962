-- ===== src/Payments/Guarded/Balance.antt =====
-- What one execution of the saga asks of the provider, against what it books.
use mathlib.Core.List.{append-nil, append_assoc}
use queue_system.Prelude.{
  ℕ, ◌≡◌, ◌∙◌, refl, ap, sym, false, String, Option, List, [], ◌∷◌, ◌++◌, Option-cases, inl, inr,
  ◌⊎◌,
}
use queue_system.Prelude.Number.{Number}
use queue_system.Domain.Errors.{PaymentProcessingError, Raised, processing}
use queue_system.Domain.Payment.{Payment}
use queue_system.Gateway.Types.{
  GatewayFailure, GatewayChargeResult, GatewayRefundResult, PaymentGateways,
}
use queue_system.Gateway.Bucket.{AdaptiveTokenBucket}
use queue_system.Gateway.Guard.{
  GuardConfig, GuardState, Admission, admitted, refused, CallOutcome, call, refund, charge_if,
  begin_call, finish_call,
}
use queue_system.Payments.Exec.{Result, ok, raised}
use queue_system.Payments.Redis.{Redis, SettlementEntry, IsRedis}
use queue_system.Payments.World.{GuardPort, Env, World}
use queue_system.Payments.Stores.{settlements_key}
use queue_system.Payments.Saga.{SagaOutcome, execute}
use queue_system.Payments.Saga.Outcome.{
  calm, SettledAs, execute_succeeds, execute_charge_failed, execute_settle_failed,
}
use queue_system.Payments.Guarded.{ProviderCall, charged, refunded, recorded, answered, guard_port}

-- What an execution for a payment may lead to: its result, the settlements it books and the calls
-- that the provider gets.
pub data Balanced {N : Number} (p : Payment)
    : Result Raised SagaOutcome → List SettlementEntry → List (ProviderCall N) → Type 0 where
  -- Charged once, and settled once.
  booked :
      (o : SagaOutcome) (s : SettlementEntry) (transaction_id : String) (status : ℕ)
      (latency : N.Carrier)
      → o.transaction_id ≡ transaction_id
      → SettledAs p transaction_id s
      → Balanced p
          (ok o)
          (s ∷ [])
          (charged p.id (GatewayChargeResult.ok transaction_id status latency) ∷ [])
  -- Charged once, not settled, and asked once to refund this charge.
  reversed :
      (e : PaymentProcessingError) (transaction_id : String) (status : ℕ) (latency : N.Carrier)
      (answer : GatewayRefundResult N)
      → e.retryable ≡ false
      → Balanced p (raised (processing e)) [] (
          charged p.id (GatewayChargeResult.ok transaction_id status latency)
          ∷ refunded transaction_id answer
          ∷ [])
  -- The provider rejected the charge.
  rejected :
      (e : PaymentProcessingError) (f : GatewayFailure) (latency : N.Carrier)
      → Balanced p
          (raised (processing e))
          []
          (charged p.id (GatewayChargeResult.fail f latency) ∷ [])
  -- The provider was not asked.
  unasked : (e : PaymentProcessingError) → Balanced p (raised (processing e)) [] []

-- What the provider was asked by a call of the guard, given the guard's answer.
Asked : {N : Number} → Payment → CallOutcome N → List (ProviderCall N) → Type 0
Asked {N} p (CallOutcome.ok transaction_id status latency) calls =
    calls ≡ charged p.id (GatewayChargeResult.ok transaction_id status latency) ∷ []
Asked {N} p (CallOutcome.fail e) calls =
    (calls ≡ [])
    ⊎ ((f : GatewayFailure) × (latency : N.Carrier) × (calls
          ≡ charged p.id (GatewayChargeResult.fail f latency) ∷ []))

module _ {N : Number} (config : GuardConfig N) (clock : ℕ → ℕ)
    (others : ℕ → AdaptiveTokenBucket N → AdaptiveTokenBucket N) (fuel : ℕ)
    (G : PaymentGateways N) where
  abbrev port : GuardPort N
  port = guard_port config clock others fuel (recorded G)

  abbrev Port : Type 0
  Port = GuardState N × (G.State × List (ProviderCall N))

  answer-Asked :
      (p : Payment) (s : GuardState N) (r : GatewayChargeResult N)
      → Asked p (finish_call config clock p.gateway_id r s).0 (charged p.id r ∷ [])
  unfolding finish_call Asked
  answer-Asked p s (GatewayChargeResult.ok t status latency) = refl
  answer-Asked p s (GatewayChargeResult.fail f latency) = inr (f, latency, refl)

  charge_if-Asked :
      (a : Admission) (p : Payment) (c : Option String) (s : GuardState N)
      (γ : G.State × List (ProviderCall N))
      → let (o, s', γ') = charge_if config clock (recorded G) a p c (s, γ) in
        (calls : List (ProviderCall N)) × (γ'.1 ≡ γ.1 ++ calls) × Asked p o calls
  unfolding charge_if Asked
  charge_if-Asked (refused e) p c s γ = ([], sym (append-nil γ.1), inl refl)
  charge_if-Asked admitted p c s γ = (
    charged p.id (G.charge p.gateway_id p c γ.0).0 ∷ [],
    refl,
    answer-Asked p s (G.charge p.gateway_id p c γ.0).0,
  )

  port-Asked :
      (p : Payment) (c : Option String) (s : GuardState N) (γ : G.State × List (ProviderCall N))
      → let (o, g) = port.call p c (s, γ) in
        (calls : List (ProviderCall N)) × (g.1.1 ≡ γ.1 ++ calls) × Asked p o calls
  unfolding answered call Asked
  port-Asked p c s γ = elim (Option-cases (begin_call config clock others fuel p.gateway_id s)) [
    | inl stuck ↦ rw (stuck, answered, call) ([], sym (append-nil γ.1), inl refl)
    | inr ((a, s1), e) ↦ rw (e, answered, call) (charge_if-Asked a p c s1 γ)
  ]

  refund-log :
      (gateway_id t : String) (s : GuardState N) (γ : G.State × List (ProviderCall N))
      → (port.refund gateway_id t (s, γ)).1.1.1
        ≡ γ.1 ++ refunded t (G.refund gateway_id t γ.0).0 ∷ []
  unfolding refund
  refund-log gateway_id t s γ = by_answer (G.refund gateway_id t γ.0).0 refl
    where
      by_answer :
          (answer : GatewayRefundResult N)
          → (G.refund gateway_id t γ.0).0 ≡ answer
          → (port.refund gateway_id t (s, γ)).1.1.1 ≡ γ.1 ++ refunded t answer ∷ []
      by_answer (GatewayRefundResult.ok i status latency) e =
          rw (e, refund) (ap (λ r. γ.1 ++ refunded t r ∷ []) e)
      by_answer (GatewayRefundResult.fail f latency) e =
          rw (e, refund) (ap (λ r. γ.1 ++ refunded t r ∷ []) e)

  module _ {R : Redis} (L : IsRedis R) (env : Env) (w : World N port R) where
    -- What an execution adds to the settlements and to the calls of the provider.
    abbrev Outcome : Type 0
    Outcome =
        let (r, w') = execute (calm env) w in
        (entries : List SettlementEntry) × (calls : List (ProviderCall N)) × (R.settlements.lrange
            settlements_key w'.settlements
          ≡ R.settlements.lrange settlements_key w.settlements ++ entries)
        × (w'.guard.1.1 ≡ w.guard.1.1 ++ calls)
        × Balanced w.current.payment r entries calls

    fail-Outcome :
        (e : PaymentProcessingError) (g : Port) (calls : List (ProviderCall N))
        → port.call w.current.payment w.current.correlation_id w.guard ≡ (CallOutcome.fail e, g)
        → g.1.1 ≡ w.guard.1.1 ++ calls
        → Asked w.current.payment (CallOutcome.fail e) calls
        → Outcome
    unfolding Asked
    fail-Outcome e g calls called log asked =
        let c = execute_charge_failed L env w e g called in
        (
          [],
          calls,
          ap (R.settlements.lrange settlements_key) c.2 ∙ sym (append-nil _),
          ap (λ h. h.1.1) c.1 ∙ log,
          elim asked [
            | inl none_asked ↦ rw (c.0, none_asked) (unasked e)
            | inr (f, latency, one) ↦ rw (c.0, one) (rejected e f latency)
          ],
        )

    ok-Outcome :
        (t : String) (status : ℕ) (latency : N.Carrier) (g : Port) (calls : List (ProviderCall N))
        → port.call w.current.payment w.current.correlation_id w.guard
          ≡ (CallOutcome.ok t status latency, g)
        → g.1.1 ≡ w.guard.1.1 ++ calls
        → Asked w.current.payment (CallOutcome.ok t status latency) calls
        → Outcome
    unfolding Asked
    ok-Outcome t status latency g calls called log asked =
        elim (Option-cases (env.ledger_fault w.current.payment)) [
          | inl accepted ↦
              let (o, s, returned, same, kept, entry, its, _, _, _, _) =
                execute_succeeds L env w t status latency g called accepted in
              (
                s ∷ [],
                calls,
                entry,
                ap (λ h. h.1.1) kept ∙ log,
                rw (returned, asked) (booked o s t status latency same its),
              )
          | inr (message, broken) ↦
              let (e, thrown, _, permanent, kept, unsettled, _, _, _) =
                execute_settle_failed L env w t status latency g message called broken in
              let answer = (G.refund w.current.payment.gateway_id t g.1.0).0 in
              (
                [],
                calls ++ refunded t answer ∷ [],
                ap (R.settlements.lrange settlements_key) unsettled ∙ sym (append-nil _),
                ap (λ h. h.1.1) kept
                    ∙ refund-log w.current.payment.gateway_id t g.0 g.1
                    ∙ rw (log, append_assoc) refl,
                rw (thrown, asked) (reversed e t status latency answer permanent),
              )
        ]

    by_answer :
        (answer : CallOutcome N × Port) (calls : List (ProviderCall N))
        → port.call w.current.payment w.current.correlation_id w.guard ≡ answer
        → answer.1.1.1 ≡ w.guard.1.1 ++ calls
        → Asked w.current.payment answer.0 calls
        → Outcome
    by_answer (CallOutcome.fail e, g) calls called log asked =
        fail-Outcome e g calls called log asked
    by_answer (CallOutcome.ok t status latency, g) calls called log asked =
        ok-Outcome t status latency g calls called log asked

    -- With Redis answering, one execution of the saga over the guard, whatever state the limiter and
    -- the breaker are in, whatever the provider answers and whether or not the ledger accepts: the
    -- provider is asked for at most one charge; a charge that it accepted is either settled, once,
    -- and not refunded, or it is not settled and the provider is asked once to refund it; and without
    -- an accepted charge nothing is settled and nothing refunded.
    pub execute-Balanced :
        let (r, w') = execute (calm env) w in
        (entries : List SettlementEntry) × (calls : List (ProviderCall N)) × (R.settlements.lrange
            settlements_key w'.settlements
          ≡ R.settlements.lrange settlements_key w.settlements ++ entries)
        × (w'.guard.1.1 ≡ w.guard.1.1 ++ calls)
        × Balanced w.current.payment r entries calls
    execute-Balanced =
        let s = w.guard in
        let (calls, log, asked) = port-Asked w.current.payment w.current.correlation_id s.0 s.1 in
        by_answer (port.call w.current.payment w.current.correlation_id s) calls refl log asked
