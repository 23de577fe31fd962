-- ===== src/Gateway/Guard/Feedback.antt =====
-- gateway-guard.ts: how an answer of the provider is classified and fed back to both controls.
use queue_system.Prelude.{
  ℕ, ◌≡◌, refl, true, false, ◌||◌, String, some, ◌==◌, arith, if◌then◌else◌, Bool-cases, inl, inr,
}
use queue_system.Prelude.Number.{Number}
use queue_system.Domain.Errors.{is_transient}
use queue_system.Gateway.Types.{GatewayFailure, GatewayChargeResult}
use queue_system.Gateway.Breaker.{CircuitBreaker, record_outcome}
use queue_system.Gateway.Bucket.{AdaptiveTokenBucket, on_throttled, on_success}
use queue_system.Gateway.Guard.{GuardConfig, GuardState, CallOutcome, finish_call, throttle, sample}
use queue_system.Gateway.Guard.Registry.{
  throttle_found, throttle-breakers, sample-buckets, sample_found, succeed_found, succeed-breakers,
}

module _ {N : Number} (config : GuardConfig N) (clock : ℕ → ℕ) where
  -- A rejection leaves as one classified error with the provider's code and status, retryable exactly
  -- if its code is transient; the bucket is throttled exactly on 429 and 503, and the breaker
  -- is given a failure exactly if the code is transient.
  pub finish_call-fail :
      (g : String) (f : GatewayFailure) (latency : N.Carrier) (s : GuardState N)
      (bucket : AdaptiveTokenBucket N) (breaker : CircuitBreaker N)
      → s.buckets g ≡ some bucket
      → s.breakers g ≡ some breaker
      → let (outcome, s') = finish_call config clock g (GatewayChargeResult.fail f latency) s in
        (outcome
          ≡ CallOutcome.fail (record {
            message = f.message;
            code = f.code;
            http_status = some f.http_status;
            gateway_id = some g;
            retryable = is_transient f.code;
          }))
        × (s'.buckets g
            ≡ some (
                if f.http_status == 429 || f.http_status == 503
                then (on_throttled bucket).0
                else bucket))
        × (k : ℕ) × (s'.breakers g
            ≡ some (
                if is_transient f.code
                then (record_outcome false (clock k) breaker).0
                else breaker))
  unfolding finish_call
  finish_call-fail g f latency s bucket breaker hb hc =
      let s1 : GuardState N = throttle config clock g s in
      let kept : s1.breakers g ≡ some breaker = rw (throttle-breakers config clock g s) hc in
      let thrown : s1.buckets g ≡ some (on_throttled bucket).0 =
        throttle_found config clock g s bucket hb in
      elim (Bool-cases (f.http_status == 429 || f.http_status == 503)) [
        | inl sheds ↦ (
          refl,
          ground (arith, sample-buckets config clock g false s1),
          s1.reads,
          ground (arith, sample_found config clock g false s1 breaker kept),
        )
        | inr calm ↦ (
          refl,
          ground (arith, sample-buckets config clock g false s),
          s.reads,
          ground (arith, sample_found config clock g false s breaker hc),
        )
      ]

  -- A success gives the breaker a success and the bucket its additive increase.
  pub finish_call-ok :
      (g transaction_id : String) (status : ℕ) (latency : N.Carrier) (s : GuardState N)
      (bucket : AdaptiveTokenBucket N) (breaker : CircuitBreaker N)
      → s.buckets g ≡ some bucket
      → s.breakers g ≡ some breaker
      → let (outcome, s') =
          finish_call config clock g (GatewayChargeResult.ok transaction_id status latency) s in
        (outcome ≡ CallOutcome.ok transaction_id status latency)
        × (s'.buckets g ≡ some (on_success bucket))
        × (s'.breakers g ≡ some (record_outcome true (clock s.reads) breaker).0)
  unfolding finish_call
  finish_call-ok g transaction_id status latency s bucket breaker hb hc =
      let s1 : GuardState N = sample config clock g true s in
      (
        refl,
        succeed_found config clock g s1 bucket (rw (sample-buckets config clock g true s) hb),
        rw (succeed-breakers config clock g s1) (sample_found config clock g true s breaker hc),
      )
