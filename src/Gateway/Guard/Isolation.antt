-- ===== src/Gateway/Guard/Isolation.antt =====
-- gateway-guard.ts: one gateway's calls leave the controls of the others alone, and `health` leaves
-- the breaker's state alone.
use queue_system.Prelude.{
  ℕ, ◌≡◌, refl, ◌∙◌, Bool, true, false, String, Option, none, some, arith, eq_refl, str_eq,
  Option-cases, inl, inr,
}
use queue_system.Prelude.Number.{Number}
use queue_system.Domain.Payment.{Payment}
use queue_system.Gateway.Types.{GatewayChargeResult, PaymentGateways}
use queue_system.Gateway.Breaker.{CircuitBreaker}
use queue_system.Gateway.Breaker as Breaker
use queue_system.Gateway.Bucket.{AdaptiveTokenBucket}
use queue_system.Gateway.Guard.Registry.{get_breaker_found, get_bucket-breakers}
use queue_system.Gateway.Guard.{
  GuardConfig, GuardState, Admission, admitted, refused, CallOutcome, get_bucket, get_breaker,
  gate_call, pass_wait, begin_call, finish_call, throttle, sample, succeed, charge_if, call, health,
}

module _ {N : Number} (config : GuardConfig N) (clock : ℕ → ℕ) (g k : String)
    (apart : str_eq g k ≡ false) where
  -- The controls of gateway `k` are the same in both states.
  pub record Same (s s' : GuardState N) : Type 0 where
    pub bucket : s'.buckets k ≡ s.buckets k
    pub breaker : s'.breakers k ≡ s.breakers k

  Same-trans : {s s' s'' : GuardState N} → Same s s' → Same s' s'' → Same s s''
  Same-trans p q = record { bucket = q.bucket ∙ p.bucket; breaker = q.breaker ∙ p.breaker }

  get_bucket-Same : (s : GuardState N) → Same s (get_bucket config clock g s).1
  unfolding get_bucket
  get_bucket-Same s = ground arith

  get_breaker-Same : (s : GuardState N) → Same s (get_breaker config clock g s).1
  unfolding get_breaker
  get_breaker-Same s = ground arith

  gate_call-Same : (s : GuardState N) → Same s (gate_call config clock g s).1
  unfolding gate_call
  gate_call-Same s = Same-trans (get_breaker-Same s) (record { bucket = refl; breaker = rw apart })

  throttle-Same : (s : GuardState N) → Same s (throttle config clock g s)
  unfolding throttle
  throttle-Same s = Same-trans (get_bucket-Same s) (record { bucket = rw apart; breaker = refl })

  succeed-Same : (s : GuardState N) → Same s (succeed config clock g s)
  unfolding succeed
  succeed-Same s = Same-trans (get_bucket-Same s) (record { bucket = rw apart; breaker = refl })

  sample-Same : (ok : Bool) (s : GuardState N) → Same s (sample config clock g ok s)
  unfolding sample
  sample-Same ok s = Same-trans (get_breaker-Same s) (record { bucket = refl; breaker = rw apart })

  finish_call-Same :
      (r : GatewayChargeResult N) (s : GuardState N) → Same s (finish_call config clock g r s).1
  unfolding finish_call
  finish_call-Same (GatewayChargeResult.ok t h l) s =
      Same-trans (sample-Same true s) (succeed-Same (sample config clock g true s))
  finish_call-Same (GatewayChargeResult.fail f l) s =
      ground
        (arith, throttle-Same s, sample-Same false s, sample-Same false (throttle config clock g s))

  pass_wait-Same :
      (s s' : GuardState N) (w : Option (AdaptiveTokenBucket N × Bool × ℕ)) (a : Admission)
      → pass_wait config clock g s w ≡ some (a, s')
      → Same s s'
  unfolding pass_wait
  pass_wait-Same s s' none a h = absurd (cc)
  pass_wait-Same s s' (some (b, true, reads)) a h =
      Same-trans (record { bucket = rw apart; breaker = refl }) (Same-of-eq (gate_call-Same _) h)
    where
      Same-of-eq :
          {s1 : GuardState N} {r : Admission × GuardState N}
          → Same s1 r.1
          → ◌≡◌ {A = Option (Admission × GuardState N)} (some r) (some (a, s'))
          → Same s1 s'
      Same-of-eq q e = record { bucket = ground arith; breaker = ground arith }
  pass_wait-Same s s' (some (b, false, reads)) a h = record {
    bucket = ground arith;
    breaker = ground arith;
  }

  begin_call-Same :
      (others : ℕ → AdaptiveTokenBucket N → AdaptiveTokenBucket N) (fuel : ℕ) (s s' : GuardState N)
      (a : Admission)
      → begin_call config clock others fuel g s ≡ some (a, s')
      → Same s s'
  unfolding begin_call
  begin_call-Same others fuel s s' a h =
      Same-trans (get_bucket-Same s) (pass_wait-Same (get_bucket config clock g s).1 s' _ a h)

  charge_if-Same :
      (G : PaymentGateways N) (a : Admission) (p : Payment) (correlation_id : Option String)
      (s : GuardState N) (γ : G.State)
      → p.gateway_id ≡ g
      → Same s (charge_if config clock G a p correlation_id (s, γ)).1
  unfolding charge_if
  charge_if-Same G (refused e) p correlation_id s γ h = record { bucket = refl; breaker = refl }
  charge_if-Same G admitted p correlation_id s γ h = rw h (finish_call-Same _ s)

  -- A call to gateway `g`, however it ends, leaves the bucket and the breaker of any other gateway as
  -- they were.
  pub call-isolates :
      (G : PaymentGateways N) (others : ℕ → AdaptiveTokenBucket N → AdaptiveTokenBucket N)
      (fuel : ℕ) (p : Payment) (correlation_id : Option String) (o : CallOutcome N)
      (s s' : GuardState N) (γ γ' : G.State)
      → p.gateway_id ≡ g
      → call config clock G others fuel p correlation_id (s, γ) ≡ some (o, s', γ')
      → (s'.buckets k ≡ s.buckets k) × (s'.breakers k ≡ s.breakers k)
  unfolding call
  call-isolates G others fuel p correlation_id o s s' γ γ' e h =
      elim (Option-cases (begin_call config clock others fuel p.gateway_id s)) [
        | inl stuck ↦ absurd (cc (rw (stuck, call) at h))
        | inr ((a, s1), b) ↦
            let first = begin_call-Same others fuel s s1 a (rw e at b) in
            let second = charge_if-Same G a p correlation_id s1 γ e in
            let h' = rw (b, call) at h in
            (
              ground (arith, first.bucket, second.bucket),
              ground (arith, first.breaker, second.breaker),
            )
      ]

module _ {N : Number} (config : GuardConfig N) (clock : ℕ → ℕ) where
  -- Reading the health of a gateway never admits a probe: state, probe, opening time and trip count
  -- of its breaker stay as they are.
  pub health-reads :
      (g : String) (s : GuardState N) (b : CircuitBreaker N)
      → s.breakers g ≡ some b
      → let (seen, s') = health config clock g s in
        (seen.state ≡ b.state)
        × (c : CircuitBreaker N) × (s'.breakers g ≡ some c)
        × (c.state ≡ b.state)
        × (c.probe_in_flight ≡ b.probe_in_flight)
        × (c.opened_at ≡ b.opened_at)
        × (c.trip_count ≡ b.trip_count)
  unfolding health Breaker.get_state
  health-reads g s b e =
      rw (get_breaker_found config clock g s b e, health)
        (
          refl,
          (Breaker.get_state (clock s.reads) b).0,
          rw (get_bucket-breakers config clock g _) (rw (eq_refl g)),
          refl,
          refl,
          refl,
          refl,
        )
