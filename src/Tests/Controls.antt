-- ===== src/Tests/Controls.antt =====
-- The breaker, the bucket and the guard at concrete values, with whole numbers for the doubles.
use queue_system.Prelude.{
  ℕ, ◌+◌, ◌*◌, ◌≤◌, ◌≡◌, ◌≢◌, ◌↔◌, refl, true, false, none, some, [], ◌∷◌, arith, length,
  if◌then◌else◌,
}
use queue_system.Prelude.Maps.{empty, set}
use queue_system.Prelude.Number.{Number, whole_number, whole_number-IsLawful}
use queue_system.Domain.Errors.{card_declined, is_transient}
use queue_system.Domain.Json.{end}
use queue_system.Domain.Payment.{Payment, normal}
use queue_system.Gateway.Types.{
  GatewayFailure, GatewayChargeResult, GatewayRefundResult, PaymentGateways,
}
use queue_system.Gateway.Breaker.{
  CircuitBreaker, CircuitBreakerParams, closed, open_state, half_open, new_breaker, record_outcome,
  allow_call, failure_count,
}
use queue_system.Gateway.Breaker.Probe.{allow_calls, allow_calls_one_probe, refusal}
use queue_system.Gateway.Breaker.Trip.{
  Reach, Inv, Step, Reach-Inv, sampled, record_outcome_trips_iff,
}
use queue_system.Gateway.Bucket.{
  AdaptiveTokenBucket, TokenBucketParams, new_bucket, refill, try_acquire, on_throttled,
  wait_for_token,
}
use queue_system.Gateway.Bucket.Bounds as Bounds
use queue_system.Gateway.Bucket.Wait as Wait
use queue_system.Gateway.Guard.{
  GuardConfig, GuardState, CallOutcome, gate_call, finish_call, admitted, call, begin_call,
  pass_wait, charge_if, get_bucket, to_processing_error,
}
use queue_system.Gateway.Guard.Feedback.{finish_call-fail}
use queue_system.Gateway.Guard.Isolation.{call-isolates}
use queue_system.Gateway.Guard.Leak.{Probing, Calls, leaked_probe}

abbrev W : Number
W = whole_number

abbrev breaker_params : CircuitBreakerParams W
breaker_params = record { window_ms = 30; failure_threshold = 1; min_samples = 2; cooldown_ms = 50 }

abbrev tripped : CircuitBreaker W
tripped = record {
  params = breaker_params;
  state = open_state;
  window = [];
  opened_at = 10;
  probe_in_flight = false;
  trip_count = 1;
}

abbrev failing : CircuitBreaker W
failing = record {
  params = breaker_params;
  state = closed;
  window = record { t = 5; ok = false } ∷ [];
  opened_at = 0;
  probe_in_flight = false;
  trip_count = 0;
}

allow_calls_one_probe_example :
    (allow_calls (60 ∷ 61 ∷ 900 ∷ []) tripped).1
    ≡ record { allowed = true; state = half_open } ∷ refusal half_open ∷ refusal half_open ∷ []
allow_calls_one_probe_example = allow_calls_one_probe 60 (61 ∷ 900 ∷ []) tripped refl (omega arith)

record_outcome_trips_iff_example : ((record_outcome false 9 failing).0.state ≡ open_state) ↔ (
    (2 ≤ length (sampled false 9 failing))
    × (W.le 1 (W.div (failure_count (sampled false 9 failing)) (length (sampled false 9 failing)))
        ≡ true))
record_outcome_trips_iff_example =
    record_outcome_trips_iff false 9 0 failing refl (omega arith) (omega arith) (omega arith)

abbrev tried : CircuitBreaker W
tried = (allow_call 70 (record_outcome false 9 (new_breaker breaker_params)).0).0

tried-Reach : Reach breaker_params tried
tried-Reach = Reach.step (Reach.step Reach.start (Step.records false 9)) (Step.allows 70)

Reach-Inv_example : Inv tried
Reach-Inv_example = Reach-Inv tried-Reach

abbrev bucket_params : TokenBucketParams W
bucket_params = record {
  nominal_rps = 20;
  burst_factor = 2;
  min_rate_factor = 1;
  ai_step_rps = 1;
  token_wait_ms = 12;
}

bucket_params-IsValid : Bounds.IsValid whole_number-IsLawful bucket_params
bucket_params-IsValid = record {
  nominal = refl;
  factor = refl;
  min_factor = refl;
  step = refl;
  floor_below = refl;
}

abbrev drained : AdaptiveTokenBucket W
drained = record {
  params = bucket_params;
  rate = 20;
  burst = 40;
  tokens = 0;
  last_refill = 0;
  throttle_count = 0;
}

drained-Inv : Bounds.Inv whole_number-IsLawful drained
drained-Inv = record {
  floor-le-rate = refl;
  rate-le-nominal = refl;
  floor-le-burst = refl;
  burst-le-max = refl;
  tokens-nonneg = refl;
  tokens-le-burst = refl;
}

used-Reach :
    Bounds.Reach whole_number-IsLawful bucket_params 0
      (on_throttled (try_acquire 7 (new_bucket bucket_params 0)).0).0
used-Reach =
    Bounds.Reach.step (Bounds.Reach.step Bounds.Reach.start (Bounds.Step.acquires 7))
      Bounds.Step.throttles

Reach-bounds_example :
    Bounds.IsValid whole_number-IsLawful
      (on_throttled (try_acquire 7 (new_bucket bucket_params 0)).0).0.params
    × Bounds.Inv whole_number-IsLawful
        (on_throttled (try_acquire 7 (new_bucket bucket_params 0)).0).0
Reach-bounds_example = Bounds.Reach-bounds whole_number-IsLawful bucket_params-IsValid used-Reach

-- A clock whose n-th reading is 20 n: it outruns every sleep.
abbrev fast : ℕ → ℕ
fast n = 20 * n

abbrev alone : ℕ → AdaptiveTokenBucket W → AdaptiveTokenBucket W
alone _ b = b

fast-IsTimely : (deadline k : ℕ) → Wait.IsTimely fast alone deadline k
fast-IsTimely deadline k = record {
  sleeps = λ i. omega (arith, Wait.sleep_ms_bounds deadline (20 * (k + 2 * i + 1)));
  onward = λ i. omega arith;
}

wait_for_token_ends_example : wait_for_token fast alone 4 12 0 drained ≢ none
wait_for_token_ends_example =
    Wait.wait_for_token_ends fast alone 3 12 0 drained (fast-IsTimely 12 1) (omega arith)
      (omega arith)

wait_for_token-Explained_example :
    Wait.Explained fast alone 12 (record drained { last_refill = 20 }, false, 3)
unfolding wait_for_token try_acquire refill
wait_for_token-Explained_example =
    Wait.wait_for_token-Explained fast alone 4 12 0 drained
      (record drained { last_refill = 20 }, false, 3) refl

abbrev declined : GatewayFailure
declined = record { code = card_declined; message = "declined"; http_status = 400 }

-- A provider that counts its charges and declines them all.
abbrev decliner : PaymentGateways W
decliner = record {
  State = ℕ;
  charge = λ g p c n. (GatewayChargeResult.fail declined 0, n + 1);
  refund = λ g t n. (GatewayRefundResult.ok t 200 0, n);
}

abbrev config : GuardConfig W
config = record { rate_limiter = bucket_params; circuit_breaker = breaker_params }

abbrev guarded : GuardState W
guarded = record {
  buckets = set "stripe" (new_bucket bucket_params 0) empty;
  breakers = set "stripe" tripped empty;
  events = [];
  reads = 3;
}

abbrev order : Payment
order = record {
  id = "pay_1";
  amount = 500;
  currency = "EUR";
  customer_id = "cust_1";
  gateway_id = "stripe";
  priority = normal;
  max_retries = 3;
  metadata = end;
  created_at = 0;
  scheduled_at = none;
}

finish_call-fail_example :
    let (outcome, s') =
      finish_call config fast "stripe" (GatewayChargeResult.fail declined 0) guarded in
    (outcome
      ≡ CallOutcome.fail (record {
        message = "declined";
        code = card_declined;
        http_status = some 400;
        gateway_id = some "stripe";
        retryable = is_transient card_declined;
      }))
    × (s'.buckets "stripe" ≡ some (new_bucket bucket_params 0))
    × (k : ℕ) × (s'.breakers "stripe"
        ≡ some (
            if is_transient card_declined
            then (record_outcome false (fast k) tripped).0
            else tripped))
finish_call-fail_example =
    finish_call-fail config fast "stripe" declined 0 guarded (new_bucket bucket_params 0) tripped
      refl refl

-- After a charge of `order` that ended in a refusal.
abbrev declined_state : GuardState W
declined_state =
    (finish_call config fast "stripe" (GatewayChargeResult.fail declined 0)
      (gate_call config fast "stripe" (record guarded {
        buckets =
            set "stripe" (record (new_bucket bucket_params 0) { tokens = 39; last_refill = 80 })
              guarded.buckets;
        reads = 5;
      })).1).1

call-isolates_example :
    (declined_state.buckets "adyen" ≡ guarded.buckets "adyen")
    × (declined_state.breakers "adyen" ≡ guarded.breakers "adyen")
unfolding call begin_call pass_wait charge_if wait_for_token try_acquire refill new_bucket
    get_bucket gate_call allow_call
call-isolates_example =
    call-isolates config fast "stripe" "adyen" refl decliner alone 4 order none
      (CallOutcome.fail (to_processing_error declined "stripe")) guarded declined_state 0 1 refl
      refl

leaked_probe_example :
    let (a, s1) = gate_call config fast "stripe" guarded in
    let s2 = (finish_call config fast "stripe" (GatewayChargeResult.fail declined 0) s1).1 in
    (a ≡ admitted)
    × ((γ : ℕ) (w : GuardState W × ℕ)
        → Calls config fast decliner "stripe" (s2, γ) w
        → (w.1 ≡ γ) × Probing config fast "stripe" w.0)
unfolding is_transient
leaked_probe_example =
    leaked_probe config fast decliner "stripe" declined 0 guarded tripped refl refl (omega arith)
      refl
