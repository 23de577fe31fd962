-- ===== src/Gateway/Guard/Leak.antt =====
-- A probe whose answer is a permanent rejection: gateway-guard.ts reports no outcome for it, and
-- circuit-breaker.ts waits for one.
use queue_system.Prelude.{
  ℕ, ◌+◌, ◌≤◌, ◌≡◌, ◌≢◌, ◌∙◌, refl, inl, inr, Bool, true, false, String, Option, none, some, arith,
  Option-cases,
}
use queue_system.Prelude.Number.{Number}
use queue_system.Domain.Errors.{is_transient}
use queue_system.Domain.Payment.{Payment}
use queue_system.Gateway.Types.{GatewayFailure, GatewayChargeResult, PaymentGateways}
use queue_system.Gateway.Breaker.{CircuitBreaker, open_state, half_open}
use queue_system.Gateway.Breaker.Probe.{allow_call_probing, allow_call_cooled}
use queue_system.Gateway.Bucket.{AdaptiveTokenBucket}
use queue_system.Prelude.Maps.{set, set_self}
use queue_system.Gateway.Guard.Registry.{gate_call_found, throttle-breakers, get_bucket-breakers}
use queue_system.Gateway.Guard.{
  GuardConfig, GuardState, CallOutcome, Admission, admitted, refused, finish_call, gate_call,
  begin_call, pass_wait, charge_if, call, circuit_error, get_bucket,
}

module _ {N : Number} (config : GuardConfig N) (clock : ℕ → ℕ) where
  -- The gateway's breaker waits for the outcome of a probe.
  pub record Probing (g : String) (s : GuardState N) : Type 0 where
    pub breaker : CircuitBreaker N
    pub found : s.breakers g ≡ some breaker
    pub state : breaker.state ≡ half_open
    pub in_flight : breaker.probe_in_flight ≡ true

  Probing-after :
      (g : String) (s : GuardState N) (b : CircuitBreaker N) (reads : ℕ)
      → b.state ≡ half_open
      → b.probe_in_flight ≡ true
      → Probing g (record s { breakers = set g b s.breakers; reads = reads })
  Probing-after g s b reads h p = record {
    breaker = b;
    found = set_self g b s.breakers;
    state = h;
    in_flight = p;
  }

  gate_call_cooled :
      (g : String) (s : GuardState N) (b : CircuitBreaker N)
      → s.breakers g ≡ some b
      → b.state ≡ open_state
      → b.opened_at + b.params.cooldown_ms ≤ clock s.reads
      → ((gate_call config clock g s).0 ≡ admitted) × Probing g (gate_call config clock g s).1
  gate_call_cooled g s b found o cooled = rw (gate_call_found config clock g s b found) (
      rw (allow_call_cooled (clock s.reads) b o cooled) (
        refl,
        Probing-after g s (record b { state = half_open; probe_in_flight = true }) _ refl refl,
      ))

  gate_call-Probing :
      (g : String) (s : GuardState N)
      → Probing g s
      → ((gate_call config clock g s).0 ≡ refused (circuit_error g half_open))
        × Probing g (gate_call config clock g s).1
  gate_call-Probing g s p = rw (gate_call_found config clock g s p.breaker p.found) (
      rw (allow_call_probing (clock s.reads) p.breaker p.state p.in_flight)
        (refl, Probing-after g s p.breaker _ p.state p.in_flight))

  Probing-same :
      (g : String) (s s' : GuardState N) → s'.breakers g ≡ s.breakers g → Probing g s → Probing g s'
  Probing-same g s s' e p = record {
    breaker = p.breaker;
    found = e ∙ p.found;
    state = p.state;
    in_flight = p.in_flight;
  }

  -- A permanent rejection leaves the probe in flight.
  permanent_keeps_Probing :
      (g : String) (f : GatewayFailure) (latency : N.Carrier) (s : GuardState N)
      → is_transient f.code ≡ false
      → Probing g s
      → Probing g (finish_call config clock g (GatewayChargeResult.fail f latency) s).1
  unfolding finish_call
  permanent_keeps_Probing g f latency s permanent p =
      Probing-same g s _ (ground (arith, throttle-breakers config clock g s)) p

  gate_call-some-Probing :
      (g : String) (s s' : GuardState N) (a : Admission)
      → Probing g s
      → ◌≡◌ {A = Option (Admission × GuardState N)}
          (some (gate_call config clock g s))
          (some (a, s'))
      → (a ≢ admitted) × Probing g s'
  gate_call-some-Probing g s s' a p h =
      let r = gate_call-Probing g s p in
      (cc, Probing-same g (gate_call config clock g s).1 s' (ground arith) r.1)

  pass_wait-Probing :
      (g : String) (s s' : GuardState N) (w : Option (AdaptiveTokenBucket N × Bool × ℕ))
      (a : Admission)
      → Probing g s
      → pass_wait config clock g s w ≡ some (a, s')
      → (a ≢ admitted) × Probing g s'
  unfolding pass_wait
  pass_wait-Probing g s s' none a p h = absurd (cc)
  pass_wait-Probing g s s' (some (bucket, true, reads)) a p h =
      gate_call-some-Probing g _ s' a (Probing-same g s _ refl p) h
  pass_wait-Probing g s s' (some (bucket, false, reads)) a p h =
      (cc, Probing-same g s s' (ground arith) p)

  -- A call that finds the probe in flight is not admitted, and leaves it in flight.
  begin_call-Probing :
      (others : ℕ → AdaptiveTokenBucket N → AdaptiveTokenBucket N) (fuel : ℕ) (g : String)
      (s s' : GuardState N) (a : Admission)
      → Probing g s
      → begin_call config clock others fuel g s ≡ some (a, s')
      → (a ≢ admitted) × Probing g s'
  unfolding begin_call
  begin_call-Probing others fuel g s s' a p h =
      pass_wait-Probing g (get_bucket config clock g s).1 s' _ a
        (Probing-same g s _ (ground (arith, get_bucket-breakers config clock g s)) p) h

  module _ (G : PaymentGateways N) where
    -- A history of calls to one gateway: from a state of the guard and the providers to another.
    pub data Calls (g : String) (w : GuardState N × G.State) : GuardState N × G.State → Type 0 where
      start : Calls g w w
      next :
          {v v' : GuardState N × G.State}
          (others : ℕ → AdaptiveTokenBucket N → AdaptiveTokenBucket N) (fuel : ℕ) (p : Payment)
          (correlation_id : Option String) (o : CallOutcome N)
          → p.gateway_id ≡ g
          → call config clock G others fuel p correlation_id v ≡ some (o, v'.0, v'.1)
          → Calls g w v
          → Calls g w v'

    charge_if_not_admitted :
        (a : Admission) (p : Payment) (correlation_id : Option String) (s : GuardState N)
        (γ : G.State)
        → a ≢ admitted
        → ((charge_if config clock G a p correlation_id (s, γ)).1 ≡ s)
          × ((charge_if config clock G a p correlation_id (s, γ)).2 ≡ γ)
    unfolding charge_if
    charge_if_not_admitted admitted p correlation_id s γ h = absurd (h refl)
    charge_if_not_admitted (refused e) p correlation_id s γ h = (refl, refl)

    call-Probing :
        (others : ℕ → AdaptiveTokenBucket N → AdaptiveTokenBucket N) (fuel : ℕ) (p : Payment)
        (correlation_id : Option String) (o : CallOutcome N) (s s' : GuardState N) (γ γ' : G.State)
        → Probing p.gateway_id s
        → call config clock G others fuel p correlation_id (s, γ) ≡ some (o, s', γ')
        → Probing p.gateway_id s' × (γ' ≡ γ)
    unfolding call
    call-Probing others fuel p correlation_id o s s' γ γ' pr h =
        elim (Option-cases (begin_call config clock others fuel p.gateway_id s)) [
          | inl stuck ↦ absurd (cc (rw (stuck, call) at h))
          | inr ((a, s1), e) ↦
              let b = begin_call-Probing others fuel p.gateway_id s s1 a pr e in
              let c = charge_if_not_admitted a p correlation_id s1 γ b.0 in
              let h' = rw (e, call) at h in
              (Probing-same p.gateway_id s1 s' (ground arith) b.1, ground arith)
        ]

    Calls-Probing :
        (g : String) (s : GuardState N) (γ : G.State) {w : GuardState N × G.State}
        → Probing g s
        → Calls g (s, γ) w
        → Probing g w.0 × (w.1 ≡ γ)
    Calls-Probing g s γ p start = (p, refl)
    Calls-Probing g s γ p (next {v} {v'} others fuel q correlation_id o e h r) =
        let ih = Calls-Probing g s γ p r in
        let c = call-Probing others fuel q correlation_id o v.0 v'.0 v.1 v'.1 (rw e ih.0) h in
        (rw e at c.0, c.1 ∙ ih.1)

    -- A cooled breaker admits a probe. If the provider answers it with a permanent rejection,
    -- then after any further calls to that gateway the provider has not been asked again
    -- and the breaker still waits for the probe.
    pub leaked_probe :
        (g : String) (f : GatewayFailure) (latency : N.Carrier) (s : GuardState N)
        (b : CircuitBreaker N)
        → s.breakers g ≡ some b
        → b.state ≡ open_state
        → b.opened_at + b.params.cooldown_ms ≤ clock s.reads
        → is_transient f.code ≡ false
        → let (a, s1) = gate_call config clock g s in
          let s2 = (finish_call config clock g (GatewayChargeResult.fail f latency) s1).1 in
          (a ≡ admitted)
          × ((γ : G.State) (w : GuardState N × G.State)
              → Calls g (s2, γ) w
              → (w.1 ≡ γ) × Probing g w.0)
    leaked_probe g f latency s b found o cooled permanent =
        let c = gate_call_cooled g s b found o cooled in
        (
          c.0,
          λ γ w r.
              let q =
                Calls-Probing g _ γ
                  (permanent_keeps_Probing g f latency (gate_call config clock g s).1 permanent c.1)
                  r in
              (q.1, q.0),
        )
