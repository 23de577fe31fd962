-- ===== src/Gateway/Guard/Registry.antt =====
-- rate-limiter.registry.ts and circuit-breaker.registry.ts: what the guard's steps do to the entry of
-- a gateway that the registries know, and to all other entries.
use queue_system.Prelude.{ℕ, ◌+◌, ◌≡◌, Bool, String, some, arith, eq_refl, if◌then◌else◌}
use queue_system.Prelude.Maps.{set}
use queue_system.Prelude.Number.{Number}
use queue_system.Gateway.Breaker.{CircuitBreaker, allow_call, record_outcome}
use queue_system.Gateway.Bucket.{AdaptiveTokenBucket, on_throttled, on_success}
use queue_system.Gateway.Guard.{
  GuardConfig, GuardState, admitted, refused, circuit_error, get_bucket, get_breaker, gate_call,
  throttle, sample, succeed,
}

module _ {N : Number} (config : GuardConfig N) (clock : ℕ → ℕ) where
  pub get_bucket_found :
      (g : String) (s : GuardState N) (b : AdaptiveTokenBucket N)
      → s.buckets g ≡ some b
      → get_bucket config clock g s ≡ (b, s)
  unfolding get_bucket
  get_bucket_found g s b e = rw (e, get_bucket)

  pub get_breaker_found :
      (g : String) (s : GuardState N) (b : CircuitBreaker N)
      → s.breakers g ≡ some b
      → get_breaker config clock g s ≡ (b, s)
  unfolding get_breaker
  get_breaker_found g s b e = rw (e, get_breaker)

  pub get_bucket-breakers :
      (g : String) (s : GuardState N) → (get_bucket config clock g s).1.breakers ≡ s.breakers
  unfolding get_bucket
  get_bucket-breakers g s = ground arith

  pub gate_call_found :
      (g : String) (s : GuardState N) (b : CircuitBreaker N)
      → s.breakers g ≡ some b
      → let (b', gate) = allow_call (clock s.reads) b in
        gate_call config clock g s ≡ (
          if gate.allowed then admitted else refused (circuit_error g gate.state),
          record s { breakers = set g b' s.breakers; reads = s.reads + 1 },
        )
  unfolding gate_call
  gate_call_found g s b e = rw (get_breaker_found g s b e, gate_call)

  pub throttle-breakers :
      (g : String) (s : GuardState N) → (throttle config clock g s).breakers ≡ s.breakers
  unfolding throttle
  throttle-breakers g s = ground (arith, get_bucket-breakers g s)

  pub throttle_found :
      (g : String) (s : GuardState N) (b : AdaptiveTokenBucket N)
      → s.buckets g ≡ some b
      → (throttle config clock g s).buckets g ≡ some (on_throttled b).0
  unfolding throttle
  throttle_found g s b e = rw (get_bucket_found g s b e, throttle) (rw (eq_refl g))

  pub sample-buckets :
      (g : String) (succeeded : Bool) (s : GuardState N)
      → (sample config clock g succeeded s).buckets ≡ s.buckets
  unfolding sample get_breaker
  sample-buckets g succeeded s = ground arith

  pub sample_found :
      (g : String) (succeeded : Bool) (s : GuardState N) (b : CircuitBreaker N)
      → s.breakers g ≡ some b
      → (sample config clock g succeeded s).breakers g
        ≡ some (record_outcome succeeded (clock s.reads) b).0
  unfolding sample
  sample_found g succeeded s b e = rw (get_breaker_found g s b e, sample) (rw (eq_refl g))

  pub succeed-breakers :
      (g : String) (s : GuardState N) → (succeed config clock g s).breakers ≡ s.breakers
  unfolding succeed
  succeed-breakers g s = ground (arith, get_bucket-breakers g s)

  pub succeed_found :
      (g : String) (s : GuardState N) (b : AdaptiveTokenBucket N)
      → s.buckets g ≡ some b
      → (succeed config clock g s).buckets g ≡ some (on_success b)
  unfolding succeed
  succeed_found g s b e = rw (get_bucket_found g s b e, succeed) (rw (eq_refl g))
