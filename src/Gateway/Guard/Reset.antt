-- ===== src/Gateway/Guard/Reset.antt =====
-- circuit-breaker.registry.ts and rate-limiter.registry.ts: the resets.
use queue_system.Prelude.{ℕ, ◌≡◌, refl, String, none, some}
use queue_system.Prelude.Maps.{set, set_self, map_values}
use queue_system.Prelude.Number.{Number}
use queue_system.Gateway.Breaker as Breaker
use queue_system.Gateway.Breaker.{CircuitBreaker, allow_call}
use queue_system.Gateway.Bucket as Bucket
use queue_system.Gateway.Guard.{GuardConfig, GuardState, admitted, gate_call}
use queue_system.Gateway.Guard.Registry.{gate_call_found}

module _ {N : Number} where
  -- `CircuitBreakerRegistry.reset`: an unknown gateway is left unknown.
  unfoldable pub reset_breaker : String → GuardState N → GuardState N
  reset_breaker gateway_id s = elim (s.breakers gateway_id) [
    | none ↦ s
    | some b ↦ record s { breakers = set gateway_id (Breaker.reset b) s.breakers }
  ]

  unfoldable pub reset_breakers : GuardState N → GuardState N
  reset_breakers s = record s { breakers = map_values Breaker.reset s.breakers }

  unfoldable pub reset_buckets : GuardConfig N → GuardState N → GuardState N
  reset_buckets config s = record s {
    buckets = map_values (Bucket.reconfigure config.rate_limiter) s.buckets;
  }

module _ {N : Number} (config : GuardConfig N) (clock : ℕ → ℕ) where
  -- After a reset of the breaker of a gateway that is known, whatever state it was in, the next call
  -- to the gateway is admitted.
  pub reset_breaker-admits :
      (g : String) (s : GuardState N) (b : CircuitBreaker N)
      → s.breakers g ≡ some b
      → (gate_call config clock g (reset_breaker g s)).0 ≡ admitted
  unfolding reset_breaker Breaker.reset allow_call
  reset_breaker-admits g s b known =
      let s1 : GuardState N = record s { breakers = set g (Breaker.reset b) s.breakers } in
      rw (known, reset_breaker)
        (rw
          (gate_call_found config clock g s1 (Breaker.reset b)
            (set_self g (Breaker.reset b) s.breakers))
          refl)
