-- ===== src/Gateway/Breaker.antt =====
-- src/gateway/circuit-breaker.ts: the three-state circuit breaker. Times are whole milliseconds;
-- each method takes the time that `this.now()` reads. `now - a >= b` is written `a + b <= now`.
pub mod Window
pub mod Trip
pub mod Probe
use queue_system.Prelude.{
  ℕ, zero, ◌+◌, Bool, true, false, not, Option, none, some, List, [], ◌∷◌, ◌++◌, ◌&&◌, leb, ltb,
  ◌==◌, length, filter_by, if◌then◌else◌,
}
use queue_system.Prelude.Number.{Number}

pub data CircuitBreakerState : Type 0 where
  closed open_state half_open : CircuitBreakerState

pub record OutcomeSample : Type 0 where
  pub t : ℕ
  pub ok : Bool

-- The callbacks that a method makes.
pub data Callback : Type 0 where
  on_opened on_closed : Callback

-- What `allowCall` answers.
pub record Gate : Type 0 where
  pub allowed : Bool
  pub state : CircuitBreakerState

module _ (N : Number) where
  pub record CircuitBreakerParams : Type 0 where
    pub window_ms : ℕ
    pub failure_threshold : N.Carrier
    pub min_samples : ℕ
    pub cooldown_ms : ℕ

  pub record CircuitBreaker : Type 0 where
    pub params : CircuitBreakerParams
    pub state : CircuitBreakerState
    pub window : List OutcomeSample
    pub opened_at : ℕ
    pub probe_in_flight : Bool
    pub trip_count : ℕ

  pub record WindowStats : Type 0 where
    pub samples : ℕ
    pub failures : ℕ
    pub failure_rate : N.Carrier

  pub record CircuitBreakerSnapshot : Type 0 where
    pub params : CircuitBreakerParams
    pub state : CircuitBreakerState
    pub stats : WindowStats
    pub opened_at : Option ℕ
    pub trip_count : ℕ

-- `while (this.window.length > 0 && this.window[0].t < cutoff) this.window.shift()`
unfoldable pub prune_window : ℕ → ℕ → List OutcomeSample → List OutcomeSample
prune_window window_ms now [] = []
prune_window window_ms now (s ∷ rest) =
    if ltb (s.t + window_ms) now then prune_window window_ms now rest else s ∷ rest

abbrev pub failure_count : List OutcomeSample → ℕ
failure_count window = length (filter_by (λ s. not s.ok) window)

module _ {N : Number} where
  unfoldable pub window_stats : List OutcomeSample → WindowStats N
  window_stats window = record {
    samples = length window;
    failures = failure_count window;
    failure_rate =
        if length window == 0
        then N.of_ℕ 0
        else N.div (N.of_ℕ (failure_count window)) (N.of_ℕ (length window));
  }

  unfoldable pub new_breaker : CircuitBreakerParams N → CircuitBreaker N
  new_breaker params = record {
    params = params;
    state = closed;
    window = [];
    opened_at = 0;
    probe_in_flight = false;
    trip_count = 0;
  }

  unfoldable pub reset : CircuitBreaker N → CircuitBreaker N
  reset b = record b {
    state = closed;
    window = [];
    opened_at = 0;
    probe_in_flight = false;
    trip_count = 0;
  }

  unfoldable pub reconfigure : CircuitBreakerParams N → CircuitBreaker N → CircuitBreaker N
  unfolding reset
  reconfigure params b = reset (record b { params = params })

  allow_in : CircuitBreakerState → ℕ → CircuitBreaker N → CircuitBreaker N × Gate
  allow_in closed now b = (b, record { allowed = true; state = closed })
  allow_in open_state now b =
      if leb (b.opened_at + b.params.cooldown_ms) now
      then (
        record b { state = half_open; probe_in_flight = true },
        record { allowed = true; state = half_open },
      )
      else (b, record { allowed = false; state = open_state })
  allow_in half_open now b =
      if b.probe_in_flight
      then (b, record { allowed = false; state = half_open })
      else (record b { probe_in_flight = true }, record { allowed = true; state = half_open })

  -- May the caller invoke the gateway now?
  unfoldable pub allow_call : ℕ → CircuitBreaker N → CircuitBreaker N × Gate
  unfolding allow_in
  allow_call now b = allow_in b.state now b

  trip : ℕ → CircuitBreaker N → CircuitBreaker N × List Callback
  trip now b = (
    record b { state = open_state; opened_at = now; trip_count = b.trip_count + 1 },
    on_opened ∷ [],
  )

  -- The test that follows a sample in the closed state.
  unfoldable pub breaches : CircuitBreakerParams N → List OutcomeSample → Bool
  unfolding window_stats
  breaches p window =
      let stats : WindowStats N = window_stats window in
      leb p.min_samples stats.samples && N.le p.failure_threshold stats.failure_rate

  record_in : CircuitBreakerState → Bool → ℕ → CircuitBreaker N → CircuitBreaker N × List Callback
  unfolding trip breaches prune_window
  record_in half_open ok now b =
      if ok
      then (record b { probe_in_flight = false; state = closed; window = [] }, on_closed ∷ [])
      else trip now (record b { probe_in_flight = false })
  record_in open_state ok now b = (b, [])
  record_in closed ok now b =
      let window =
        prune_window b.params.window_ms now (b.window ++ record { t = now; ok = ok } ∷ []) in
      if breaches b.params window
      then trip now (record b { window = window })
      else (record b { window = window }, [])

  -- The outcome of a call that reached the gateway.
  unfoldable pub record_outcome : Bool → ℕ → CircuitBreaker N → CircuitBreaker N × List Callback
  unfolding record_in
  record_outcome ok now b = record_in b.state ok now b

  unfoldable pub get_state : ℕ → CircuitBreaker N → CircuitBreaker N × CircuitBreakerSnapshot N
  unfolding prune_window window_stats
  get_state now b =
      let window = prune_window b.params.window_ms now b.window in
      (
        record b { window = window },
        record {
          params = b.params;
          state = b.state;
          stats = window_stats window;
          opened_at = if b.opened_at == 0 then none else some b.opened_at;
          trip_count = b.trip_count;
        },
      )
