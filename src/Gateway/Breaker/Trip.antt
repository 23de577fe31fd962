-- ===== src/Gateway/Breaker/Trip.antt =====
-- How circuit-breaker.ts moves between its states.
use queue_system.Prelude.{
  ℕ, ◌≤◌, ◌<◌, ◌≡◌, ◌↔◌, Bool, true, List, [], ◌∷◌, ◌++◌, arith, ↔_trans, All, filter_by, length,
}
use queue_system.Prelude.Number.{Number}
use queue_system.Gateway.Breaker.{
  CircuitBreakerState, closed, open_state, half_open, CircuitBreaker, CircuitBreakerParams,
  OutcomeSample, allow_call, record_outcome, get_state, reset, reconfigure, new_breaker, breaches,
  window_stats, failure_count, prune_window, on_opened, on_closed, Callback,
}
use queue_system.Gateway.Breaker.Window.{Ordered, recent, prune_window-filter_by, Ordered-push}

-- The arrows of the state diagram.
pub data Arrow : CircuitBreakerState → CircuitBreakerState → Type 0 where
  stay : {s : CircuitBreakerState} → Arrow s s
  trips : Arrow closed open_state
  cools : Arrow open_state half_open
  recovers : Arrow half_open closed
  reopens : Arrow half_open open_state

-- The callback that belongs to a change of state.
abbrev pub callbacks_for : CircuitBreakerState → CircuitBreakerState → List Callback
callbacks_for closed open_state = on_opened ∷ []
callbacks_for half_open open_state = on_opened ∷ []
callbacks_for half_open closed = on_closed ∷ []
callbacks_for _ _ = []

length-filter_by-push :
    (p : OutcomeSample → Bool) (s : OutcomeSample) (xs : List OutcomeSample)
    → p s ≡ true
    → 0 < length (filter_by p (xs ++ s ∷ []))
length-filter_by-push p s [] h = ground arith
length-filter_by-push p s (x ∷ xs) h = ground (arith, length-filter_by-push p s xs h)

module _ {N : Number} where
  -- What can happen to a breaker, in the order of the class's methods.
  pub data Step (b : CircuitBreaker N) : CircuitBreaker N → Type 0 where
    allows : (now : ℕ) → Step b (allow_call now b).0
    records : (ok : Bool) (now : ℕ) → Step b (record_outcome ok now b).0
    reads : (now : ℕ) → Step b (get_state now b).0
    resets : Step b (reset b)
    reconfigures : (p : CircuitBreakerParams N) → Step b (reconfigure p b)

  pub data Reach (p : CircuitBreakerParams N) : CircuitBreaker N → Type 0 where
    start : Reach p (new_breaker p)
    step : {b c : CircuitBreaker N} → Reach p b → Step b c → Reach p c

  pub record Inv (b : CircuitBreaker N) : Type 0 where
    pub probing : b.state ≡ half_open → b.probe_in_flight ≡ true
    pub idle : b.probe_in_flight ≡ true → b.state ≡ half_open
    pub tripped : b.trip_count ≡ 0 → b.state ≡ closed

  Step-Inv : {b c : CircuitBreaker N} → Step b c → Inv b → Inv c
  unfolding allow_call record_outcome get_state reset reconfigure breaches
  Step-Inv (allows now) v = ground arith
  Step-Inv (records ok now) v = ground arith
  Step-Inv (reads now) v = ground arith
  Step-Inv resets v = ground arith
  Step-Inv (reconfigures p) v = ground arith

  -- In every state that a breaker can reach, a probe is out exactly in HALF_OPEN, and a breaker
  -- that never tripped since its last reset is CLOSED.
  pub Reach-Inv : {p : CircuitBreakerParams N} {b : CircuitBreaker N} → Reach p b → Inv b
  unfolding new_breaker
  Reach-Inv start = ground arith
  Reach-Inv (step r s) = Step-Inv s (Reach-Inv r)

  -- Without a reset the state changes along the diagram only.
  pub allow_call-Arrow : (now : ℕ) (b : CircuitBreaker N) → Arrow b.state (allow_call now b).0.state
  unfolding allow_call
  allow_call-Arrow now b = grind (arith, stay, cools)

  pub record_outcome-Arrow :
      (ok : Bool) (now : ℕ) (b : CircuitBreaker N) → Arrow b.state (record_outcome ok now b).0.state
  unfolding record_outcome breaches
  record_outcome-Arrow ok now b = grind (arith, stay, trips, recovers, reopens)

  -- The listeners hear of each change of state, and of nothing else.
  pub record_outcome-callbacks :
      (ok : Bool) (now : ℕ) (b : CircuitBreaker N)
      → (record_outcome ok now b).1 ≡ callbacks_for b.state (record_outcome ok now b).0.state
  unfolding record_outcome breaches
  record_outcome-callbacks ok now b = ground arith

  -- The samples that the window holds once an outcome at `now` is added.
  abbrev pub sampled : Bool → ℕ → CircuitBreaker N → List OutcomeSample
  sampled ok now b =
      filter_by (recent b.params.window_ms now) (b.window ++ record { t = now; ok = ok } ∷ [])

  record_outcome-window :
      (ok : Bool) (now low : ℕ) (b : CircuitBreaker N)
      → low ≤ now
      → Ordered low b.window
      → All (λ s. s.t ≤ now) b.window
      → prune_window b.params.window_ms now (b.window ++ record { t = now; ok = ok } ∷ [])
        ≡ sampled ok now b
  record_outcome-window ok now low b h o a =
      prune_window-filter_by b.params.window_ms now low _ (Ordered-push low now ok b.window h o a)

  breaches_iff :
      (p : CircuitBreakerParams N) (xs : List OutcomeSample)
      → 0 < length xs
      → (breaches p xs ≡ true) ↔ (
          (p.min_samples ≤ length xs)
          × (N.le p.failure_threshold (N.div (N.of_ℕ (failure_count xs)) (N.of_ℕ (length xs)))
              ≡ true))
  unfolding breaches window_stats
  breaches_iff p xs h = ground arith

  record_outcome-breaches :
      (ok : Bool) (now : ℕ) (b : CircuitBreaker N)
      → b.state ≡ closed
      → ((record_outcome ok now b).0.state ≡ open_state) ↔ (
          breaches b.params
            (prune_window b.params.window_ms now (b.window ++ record { t = now; ok = ok } ∷ []))
          ≡ true)
  unfolding record_outcome
  record_outcome-breaches ok now b s = ground arith

  -- A closed breaker whose samples are in the order of their times, none of them later than now, trips
  -- exactly if, of the samples not older than the window, there are at least `minSamples` and the share
  -- of failures is at least the threshold: it trips at the threshold too.
  pub record_outcome_trips_iff :
      (ok : Bool) (now low : ℕ) (b : CircuitBreaker N)
      → b.state ≡ closed
      → low ≤ now
      → Ordered low b.window
      → All (λ s. s.t ≤ now) b.window
      → ((record_outcome ok now b).0.state ≡ open_state) ↔ (
          (b.params.min_samples ≤ length (sampled ok now b))
          × (N.le b.params.failure_threshold (
                N.div
                  (N.of_ℕ (failure_count (sampled ok now b)))
                  (N.of_ℕ (length (sampled ok now b))))
              ≡ true))
  record_outcome_trips_iff ok now low b s h o a = ↔_trans (record_outcome-breaches ok now b s) (
      rw (record_outcome-window ok now low b h o a) (
        breaches_iff b.params _
          (length-filter_by-push (recent b.params.window_ms now) _ b.window (ground arith))))
