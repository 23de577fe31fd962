-- ===== src/Payments/Guarded.antt =====
-- payment-saga.service.ts over the guard of gateway-guard.ts: the saga's calls go through the controls
-- of the gateway to its provider.
pub mod Balance
use queue_system.Prelude.{
  Bool, true, false, arith, ℕ, suc, ◌+◌, ◌*◌, ◌≤◌, ◌≡◌, ◌≢◌, refl, String, Option, none, some, List,
  [], ◌∷◌, ◌++◌, Option-cases, inl, inr,
}
use queue_system.Prelude.Number.{Number}
use queue_system.Domain.Payment.{Payment}
use queue_system.Gateway.Types.{GatewayChargeResult, GatewayRefundResult, PaymentGateways}
use queue_system.Gateway.Bucket.{AdaptiveTokenBucket}
use queue_system.Gateway.Bucket.Wait.{IsTimely, wait_for_token_ends}
use queue_system.Gateway.Guard.{
  GuardConfig, GuardState, CallOutcome, RefundOutcome, call, refund, rate_limit_error, begin_call,
  pass_wait, get_bucket,
}
use queue_system.Payments.World.{GuardPort}

-- What a provider was asked, and what it answered.
pub data ProviderCall (N : Number) : Type 0 where
  charged : String → GatewayChargeResult N → ProviderCall N
  refunded : String → GatewayRefundResult N → ProviderCall N

-- The same providers, which keep a list of their calls.
abbrev pub recorded : {N : Number} → PaymentGateways N → PaymentGateways N
recorded {N} G = record {
  State = G.State × List (ProviderCall N);
  charge = λ g p c s. let (r, γ) = G.charge g p c s.0 in (r, (γ, s.1 ++ charged p.id r ∷ []));
  refund = λ g t s. let (r, γ) = G.refund g t s.0 in (r, (γ, s.1 ++ refunded t r ∷ []));
}

module _ {N : Number} (config : GuardConfig N) (clock : ℕ → ℕ)
    (others : ℕ → AdaptiveTokenBucket N → AdaptiveTokenBucket N) (fuel : ℕ)
    (G : PaymentGateways N) where
  -- A wait that spends its fuel counts as one without a token.
  unfoldable pub answered :
      Payment
      → GuardState N × G.State
      → Option (CallOutcome N × GuardState N × G.State)
      → CallOutcome N × (GuardState N × G.State)
  answered p s none =
      (CallOutcome.fail (rate_limit_error p.gateway_id config.rate_limiter.token_wait_ms), s)
  answered p s (some (outcome, s', γ)) = (outcome, (s', γ))

  -- The guard that the saga is given.
  abbrev pub guard_port : GuardPort N
  guard_port = record {
    State = GuardState N × G.State;
    call = λ p c s. answered p s (call config clock G others fuel p c s);
    refund = λ g t s. let (outcome, s', γ) = refund config clock G g t s in (outcome, (s', γ));
  }

  -- Where the call of the guard ends, the port answers as the guard does.
  pub answered_lem :
      (p : Payment) (c : Option String) (s : GuardState N × G.State)
      → call config clock G others fuel p c s ≢ none
      → call config clock G others fuel p c s
        ≡ some (let (outcome, g) = guard_port.call p c s in (outcome, g.0, g.1))
  unfolding answered
  answered_lem p c s ends = elim (Option-cases (call config clock G others fuel p c s)) [
    | inl stuck ↦ absurd (ends stuck)
    | inr ((outcome, s', γ), e) ↦ rw (e) refl
  ]

module _ {N : Number} (config : GuardConfig N) (clock : ℕ → ℕ)
    (others : ℕ → AdaptiveTokenBucket N → AdaptiveTokenBucket N) (fuel : ℕ)
    (G : PaymentGateways N) where
  pass_wait-some :
      (g : String) (s : GuardState N) (r : Option (AdaptiveTokenBucket N × Bool × ℕ))
      → r ≢ none
      → pass_wait config clock g s r ≢ none
  unfolding pass_wait
  pass_wait-some g s none some_answer = absurd (some_answer refl)
  pass_wait-some g s (some (b, true, k)) some_answer = cc
  pass_wait-some g s (some (b, false, k)) some_answer = cc

  -- With timely sleeps, and fuel for the time that a call may wait for its token, the port answers as
  -- the guard does.
  pub guard_port_ends :
      (p : Payment) (c : Option String) (s : GuardState N) (γ : G.State)
      → let k = (get_bucket config clock p.gateway_id s).1.reads in
        IsTimely clock others (clock k + config.rate_limiter.token_wait_ms) (k + 1)
        → clock k ≤ clock (k + 2)
        → config.rate_limiter.token_wait_ms ≤ 5 * fuel
        → call config clock G others (suc fuel) p c (s, γ)
          ≡ some (
              let (outcome, g) = (guard_port config clock others (suc fuel) G).call p c (s, γ) in
              (outcome, g.0, g.1))
  unfolding begin_call call
  guard_port_ends p c s γ timely onward enough =
      let (b, s0) = get_bucket config clock p.gateway_id s in
      answered_lem config clock others (suc fuel) G p c (s, γ)
        (λ stuck. elim (Option-cases (begin_call config clock others (suc fuel) p.gateway_id s)) [
          | inl none_yet ↦
              pass_wait-some p.gateway_id s0 _
                (wait_for_token_ends clock others fuel config.rate_limiter.token_wait_ms s0.reads b
                  timely onward enough)
                none_yet
          | inr ((a, s1), e) ↦ cc (rw (e, call) at stuck)
        ])
