-- ===== src/Gateway/Guard/Policy.antt =====
-- gateway-guard.ts, circuit-breaker.registry.ts and rate-limiter.registry.ts: `configure`. A field that
-- a partial policy does not have is `none`; it takes the value of the configuration, not the one that
-- was set before.
use queue_system.Prelude.{
  ℕ, ◌+◌, ◌≡◌, refl, String, Option, none, some, or_else, eq_refl, Option-cases, inl, inr,
}
use queue_system.Prelude.Maps.{set}
use queue_system.Prelude.Number.{Number}
use queue_system.Gateway.Breaker as Breaker
use queue_system.Gateway.Breaker.{CircuitBreaker, CircuitBreakerParams, new_breaker, reset}
use queue_system.Gateway.Bucket as Bucket
use queue_system.Gateway.Bucket.{AdaptiveTokenBucket, TokenBucketParams}
use queue_system.Gateway.Guard.{GuardConfig, GuardState}

module _ (N : Number) where
  pub record PartialTokenBucketParams : Type 0 where
    pub nominal_rps : Option N.Carrier
    pub burst_factor : Option N.Carrier
    pub min_rate_factor : Option N.Carrier
    pub ai_step_rps : Option N.Carrier
    pub token_wait_ms : Option ℕ

  pub record PartialCircuitBreakerParams : Type 0 where
    pub window_ms : Option ℕ
    pub failure_threshold : Option N.Carrier
    pub min_samples : Option ℕ
    pub cooldown_ms : Option ℕ

  pub record GuardPolicy : Type 0 where
    pub rate_limiter : Option PartialTokenBucketParams
    pub circuit_breaker : Option PartialCircuitBreakerParams

module _ {N : Number} (config : GuardConfig N) (clock : ℕ → ℕ) where
  -- `{ ...this.paramsFor(gatewayId), ...partial }`
  unfoldable pub bucket_params : PartialTokenBucketParams N → TokenBucketParams N
  bucket_params partial = record {
    nominal_rps = or_else partial.nominal_rps config.rate_limiter.nominal_rps;
    burst_factor = or_else partial.burst_factor config.rate_limiter.burst_factor;
    min_rate_factor = or_else partial.min_rate_factor config.rate_limiter.min_rate_factor;
    ai_step_rps = or_else partial.ai_step_rps config.rate_limiter.ai_step_rps;
    token_wait_ms = or_else partial.token_wait_ms config.rate_limiter.token_wait_ms;
  }

  unfoldable pub breaker_params : PartialCircuitBreakerParams N → CircuitBreakerParams N
  breaker_params partial = record {
    window_ms = or_else partial.window_ms config.circuit_breaker.window_ms;
    failure_threshold = or_else partial.failure_threshold config.circuit_breaker.failure_threshold;
    min_samples = or_else partial.min_samples config.circuit_breaker.min_samples;
    cooldown_ms = or_else partial.cooldown_ms config.circuit_breaker.cooldown_ms;
  }

  -- `RateLimiterRegistry.configure`: the constructor of a bucket reads the clock.
  unfoldable pub configure_bucket :
      String → PartialTokenBucketParams N → GuardState N → GuardState N
  unfolding bucket_params
  configure_bucket gateway_id partial s = elim (s.buckets gateway_id) [
    | some b ↦ record s {
      buckets = set gateway_id (Bucket.reconfigure (bucket_params partial) b) s.buckets;
    }
    | none ↦ record s {
      buckets =
          set gateway_id (Bucket.new_bucket (bucket_params partial) (clock s.reads)) s.buckets;
      reads = s.reads + 1;
    }
  ]

  -- `CircuitBreakerRegistry.configure`
  unfoldable pub configure_breaker :
      String → PartialCircuitBreakerParams N → GuardState N → GuardState N
  unfolding breaker_params
  configure_breaker gateway_id partial s = elim (s.breakers gateway_id) [
    | some b ↦ record s {
      breakers = set gateway_id (Breaker.reconfigure (breaker_params partial) b) s.breakers;
    }
    | none ↦ record s {
      breakers = set gateway_id (new_breaker (breaker_params partial)) s.breakers;
    }
  ]

  unfoldable pub configure : String → GuardPolicy N → GuardState N → GuardState N
  unfolding configure_bucket configure_breaker
  configure gateway_id policy s =
      let s1 : GuardState N = elim policy.rate_limiter [
        | none ↦ s
        | some partial ↦ configure_bucket gateway_id partial s
      ] in
      elim policy.circuit_breaker [
        | none ↦ s1
        | some partial ↦ configure_breaker gateway_id partial s1
      ]

  -- A breaker that was given a policy is as new: whatever it had seen, and whatever was set before,
  -- is gone.
  pub configure_breaker-new :
      (g : String) (partial : PartialCircuitBreakerParams N) (s : GuardState N)
      → (configure_breaker g partial s).breakers g ≡ some (new_breaker (breaker_params partial))
  unfolding configure_breaker Breaker.reconfigure new_breaker
  configure_breaker-new g partial s = elim (Option-cases (s.breakers g)) [
    | inl unknown ↦ rw (unknown, configure_breaker) (rw (eq_refl g) refl)
    | inr (b, known) ↦ rw (known, configure_breaker) (rw (eq_refl g) refl)
  ]
