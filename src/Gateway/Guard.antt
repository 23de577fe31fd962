-- ===== src/Gateway/Guard.antt =====
-- src/gateway/gateway-guard.ts with the two registries (rate-limiter.registry.ts,
-- circuit-breaker.registry.ts): one bucket and one breaker per gateway, made when first asked for.
-- A call is what it does before the provider answers, the provider, and what it does after: between
-- the two, other calls of the same process may run.
pub mod Registry
pub mod Reset
pub mod Policy
pub mod Feedback
pub mod Isolation
pub mod Leak
use queue_system.Prelude.{
  ℕ, ◌+◌, Bool, true, false, not, ◌||◌, String, Option, none, some, List, [], ◌∷◌, ◌++◌, ◌==◌,
  if◌then◌else◌, or_else,
}
use queue_system.Prelude.Text.{◌<>◌, to_string}
use queue_system.Prelude.Maps.{Map, set, map_values}
use queue_system.Prelude.Number.{Number}
use queue_system.Domain.Errors.{
  PaymentErrorCode, PaymentProcessingError, new_error, rate_limited, circuit_open,
}
use queue_system.Domain.Payment.{Payment}
use queue_system.Common.Events.{AppEvent, circuit_opened, circuit_closed, rate_limit_throttled}
use queue_system.Gateway.Types.{
  GatewayFailure, GatewayChargeResult, GatewayRefundResult, PaymentGateways,
}
use queue_system.Gateway.Breaker
use queue_system.Gateway.Breaker.{
  CircuitBreaker, CircuitBreakerParams, CircuitBreakerState, Gate, closed, open_state, half_open,
}
use queue_system.Gateway.Bucket
use queue_system.Gateway.Bucket.{AdaptiveTokenBucket, TokenBucketParams}

module _ (N : Number) where
  -- The parts of `AppConfig` that the registries read.
  pub record GuardConfig : Type 0 where
    pub rate_limiter : TokenBucketParams N
    pub circuit_breaker : CircuitBreakerParams N

  pub record GuardState : Type 0 where
    pub buckets : Map (AdaptiveTokenBucket N)
    pub breakers : Map (CircuitBreaker N)
    pub events : List (AppEvent N)
    pub reads : ℕ

  pub data CallOutcome : Type 0 where
    ok : String → ℕ → N.Carrier → CallOutcome
    fail : PaymentProcessingError → CallOutcome

  pub data RefundOutcome : Type 0 where
    ok : String → ℕ → N.Carrier → RefundOutcome
    fail : PaymentProcessingError → RefundOutcome

  pub record GatewayHealth : Type 0 where
    pub gateway_id : String
    pub state : CircuitBreakerState
    pub samples : ℕ
    pub failures : ℕ
    pub failure_rate : N.Carrier
    pub trip_count : ℕ
    pub rate : N.Carrier
    pub burst : N.Carrier
    pub tokens : N.Carrier
    pub throttle_count : ℕ

-- What stands before the provider is asked.
pub data Admission : Type 0 where
  admitted : Admission
  refused : PaymentProcessingError → Admission

-- `${gate.state}`
pub state_text : CircuitBreakerState → String
state_text closed = "CLOSED"
state_text open_state = "OPEN"
state_text half_open = "HALF_OPEN"

unfoldable pub to_processing_error : GatewayFailure → String → PaymentProcessingError
to_processing_error failure gateway_id =
    new_error failure.message failure.code (some failure.http_status) (some gateway_id)

abbrev pub rate_limit_error : String → ℕ → PaymentProcessingError
rate_limit_error gateway_id token_wait_ms =
    new_error
      ("gateway "
        <> gateway_id
        <> " rate limiter: no token within "
        <> to_string token_wait_ms
        <> "ms")
      rate_limited (some 429) (some gateway_id)

abbrev pub circuit_error : String → CircuitBreakerState → PaymentProcessingError
unfolding state_text
circuit_error gateway_id state =
    new_error
      ("gateway " <> gateway_id <> " circuit is " <> state_text state <> "; call fast-failed")
      circuit_open (some 503) (some gateway_id)

module _ {N : Number} (config : GuardConfig N) (clock : ℕ → ℕ) where
  -- `RateLimiterRegistry.get`: the constructor of a bucket reads the clock.
  unfoldable pub get_bucket : String → GuardState N → AdaptiveTokenBucket N × GuardState N
  get_bucket gateway_id s = elim (s.buckets gateway_id) [
    | some b ↦ (b, s)
    | none ↦
        let b = Bucket.new_bucket config.rate_limiter (clock s.reads) in
        (b, record s { buckets = set gateway_id b s.buckets; reads = s.reads + 1 })
  ]

  unfoldable pub get_breaker : String → GuardState N → CircuitBreaker N × GuardState N
  get_breaker gateway_id s = elim (s.breakers gateway_id) [
    | some b ↦ (b, s)
    | none ↦
        let b = Breaker.new_breaker config.circuit_breaker in
        (b, record s { breakers = set gateway_id b s.breakers })
  ]

  -- The callbacks that the registries give to a breaker and a bucket: an event for each.
  breaker_events : String → ℕ → List Breaker.Callback → List (AppEvent N)
  breaker_events gateway_id at [] = []
  breaker_events gateway_id at (Breaker.on_opened ∷ rest) =
      circuit_opened gateway_id at ∷ breaker_events gateway_id at rest
  breaker_events gateway_id at (Breaker.on_closed ∷ rest) =
      circuit_closed gateway_id at ∷ breaker_events gateway_id at rest

  -- Consult the breaker.
  unfoldable pub gate_call : String → GuardState N → Admission × GuardState N
  unfolding get_breaker
  gate_call gateway_id s =
      let (breaker, s1) = get_breaker gateway_id s in
      let (breaker', gate) = Breaker.allow_call (clock s1.reads) breaker in
      let s2 : GuardState N = record s1 {
        breakers = set gateway_id breaker' s1.breakers;
        reads = s1.reads + 1;
      } in
      (if gate.allowed then admitted else refused (circuit_error gateway_id gate.state), s2)

  -- What follows the wait.
  unfoldable pub pass_wait :
      String
      → GuardState N
      → Option (AdaptiveTokenBucket N × Bool × ℕ)
      → Option (Admission × GuardState N)
  pass_wait gateway_id s none = none
  pass_wait gateway_id s (some (bucket, true, reads)) =
      some (
        gate_call gateway_id
          (record s { buckets = set gateway_id bucket s.buckets; reads = reads }))
  pass_wait gateway_id s (some (bucket, false, reads)) = some (
    refused (rate_limit_error gateway_id config.rate_limiter.token_wait_ms),
    record s { buckets = set gateway_id bucket s.buckets; reads = reads },
  )

  -- Wait for a token, then consult the breaker. `none`: the fuel of the wait ran out.
  unfoldable pub begin_call :
      (ℕ → AdaptiveTokenBucket N → AdaptiveTokenBucket N)
      → ℕ
      → String
      → GuardState N
      → Option (Admission × GuardState N)
  unfolding get_bucket pass_wait
  begin_call others fuel gateway_id s =
      let (bucket, s1) = get_bucket gateway_id s in
      pass_wait gateway_id s1
        (Bucket.wait_for_token clock others fuel config.rate_limiter.token_wait_ms s1.reads bucket)

  -- `bucket.onThrottled()` on the gateway's bucket.
  unfoldable pub throttle : String → GuardState N → GuardState N
  unfolding get_bucket
  throttle gateway_id s =
      let (bucket, s1) = get_bucket gateway_id s in
      record s1 {
        buckets = set gateway_id (Bucket.on_throttled bucket).0 s1.buckets;
        events = s1.events ++ rate_limit_throttled gateway_id (clock s1.reads) ∷ [];
        reads = s1.reads + 1;
      }

  unfoldable pub succeed : String → GuardState N → GuardState N
  unfolding get_bucket
  succeed gateway_id s =
      let (bucket, s1) = get_bucket gateway_id s in
      record s1 { buckets = set gateway_id (Bucket.on_success bucket) s1.buckets }

  -- `breaker.recordOutcome(ok)` on the gateway's breaker; the event takes a reading of its own.
  unfoldable pub sample : String → Bool → GuardState N → GuardState N
  unfolding get_breaker breaker_events
  sample gateway_id succeeded s =
      let (breaker, s1) = get_breaker gateway_id s in
      let (breaker', callbacks) = Breaker.record_outcome succeeded (clock s1.reads) breaker in
      record s1 {
        breakers = set gateway_id breaker' s1.breakers;
        events = s1.events ++ breaker_events gateway_id (clock (s1.reads + 1)) callbacks;
        reads = s1.reads + 2;
      }

  -- Only throttling sheds load; only provider degradation samples the breaker.
  unfoldable pub finish_call :
      String → GatewayChargeResult N → GuardState N → CallOutcome N × GuardState N
  unfolding throttle sample succeed to_processing_error
  finish_call gateway_id (GatewayChargeResult.fail failure latency) s =
      let error = to_processing_error failure gateway_id in
      let s1 =
        if failure.http_status == 429 || failure.http_status == 503
        then throttle gateway_id s
        else s in
      let s2 = if error.retryable then sample gateway_id false s1 else s1 in
      (CallOutcome.fail error, s2)
  finish_call gateway_id (GatewayChargeResult.ok transaction_id http_status latency) s = (
    CallOutcome.ok transaction_id http_status latency,
    succeed gateway_id (sample gateway_id true s),
  )

  module _ (G : PaymentGateways N) where
    -- What a gated charge leads to, once the breaker has answered.
    unfoldable pub charge_if :
        Admission
        → Payment
        → Option String
        → GuardState N × G.State
        → CallOutcome N × GuardState N × G.State
    unfolding finish_call
    charge_if (refused error) payment correlation_id (s, g) = (CallOutcome.fail error, s, g)
    charge_if admitted payment correlation_id (s, g) =
        let (charge, g') = G.charge payment.gateway_id payment correlation_id g in
        let (outcome, s') = finish_call payment.gateway_id charge s in (outcome, s', g')

    unfoldable pub call :
        (ℕ → AdaptiveTokenBucket N → AdaptiveTokenBucket N)
        → ℕ
        → Payment
        → Option String
        → GuardState N × G.State
        → Option (CallOutcome N × GuardState N × G.State)
    unfolding begin_call charge_if
    call others fuel payment correlation_id (s, g) =
        elim (begin_call others fuel payment.gateway_id s) [
          | none ↦ none
          | some (admission, s') ↦ some (charge_if admission payment correlation_id (s', g))
        ]

    -- Compensation: no token, no breaker.
    unfoldable pub refund :
        String → String → GuardState N × G.State → RefundOutcome N × GuardState N × G.State
    unfolding to_processing_error
    refund gateway_id transaction_id (s, g) =
        let (answer, g') = G.refund gateway_id transaction_id g in
        elim answer [
          | GatewayRefundResult.fail failure latency ↦
              (RefundOutcome.fail (to_processing_error failure gateway_id), s, g')
          | GatewayRefundResult.ok refund_id http_status latency ↦
              (RefundOutcome.ok refund_id http_status latency, s, g')
        ]

  unfoldable pub health : String → GuardState N → GatewayHealth N × GuardState N
  unfolding get_bucket get_breaker
  health gateway_id s =
      let (breaker, s1) = get_breaker gateway_id s in
      let (breaker', seen) = Breaker.get_state (clock s1.reads) breaker in
      let s2 : GuardState N = record s1 {
        breakers = set gateway_id breaker' s1.breakers;
        reads = s1.reads + 1;
      } in
      let (bucket, s3) = get_bucket gateway_id s2 in
      let bucket' = Bucket.get_state (clock s3.reads) bucket in
      (
        record {
          gateway_id = gateway_id;
          state = seen.state;
          samples = seen.stats.samples;
          failures = seen.stats.failures;
          failure_rate = seen.stats.failure_rate;
          trip_count = seen.trip_count;
          rate = bucket'.rate;
          burst = bucket'.burst;
          tokens = bucket'.tokens;
          throttle_count = bucket'.throttle_count;
        },
        record s3 { buckets = set gateway_id bucket' s3.buckets; reads = s3.reads + 1 },
      )
