-- ===== src/Gateway/Breaker/Probe.antt =====
-- The OPEN and HALF_OPEN states of circuit-breaker.ts: refusals and the single probe.
use queue_system.Prelude.{ℕ, ◌+◌, ◌≤◌, ◌≡◌, refl, true, false, List, [], ◌∷◌, arith, map, le→leb}
use queue_system.Prelude.Number.{Number}
use queue_system.Gateway.Breaker.{
  CircuitBreakerState, open_state, half_open, CircuitBreaker, Gate, allow_call,
}

-- The answer to a call that is fast-failed.
abbrev pub refusal : CircuitBreakerState → Gate
refusal s = record { allowed = false; state = s }

module _ {N : Number} where
  -- A series of `allowCall`s with no outcome reported between them.
  unfoldable pub allow_calls : List ℕ → CircuitBreaker N → CircuitBreaker N × List Gate
  allow_calls [] b = (b, [])
  allow_calls (now ∷ rest) b =
      let (b', gate) = allow_call now b in
      let (b'', gates) = allow_calls rest b' in (b'', gate ∷ gates)

  pub allow_call_probing :
      (now : ℕ) (b : CircuitBreaker N)
      → b.state ≡ half_open
      → b.probe_in_flight ≡ true
      → allow_call now b ≡ (b, refusal half_open)
  unfolding allow_call
  allow_call_probing now b s p = ground arith

  -- While the probe is out the breaker refuses every call, at any time, and stays as it is.
  pub allow_calls_probing :
      (times : List ℕ) (b : CircuitBreaker N)
      → b.state ≡ half_open
      → b.probe_in_flight ≡ true
      → allow_calls times b ≡ (b, map (λ _. refusal half_open) times)
  unfolding allow_calls
  allow_calls_probing [] b s p = refl
  allow_calls_probing (now ∷ rest) b s p =
      rw (allow_call_probing now b s p, allow_calls)
        (ground (arith, allow_calls_probing rest b s p))

  pub allow_call_cooled :
      (now : ℕ) (b : CircuitBreaker N)
      → b.state ≡ open_state
      → b.opened_at + b.params.cooldown_ms ≤ now
      → allow_call now b ≡ (
        record b { state = half_open; probe_in_flight = true },
        record { allowed = true; state = half_open },
      )
  unfolding allow_call
  allow_call_cooled now b s h = rw (s, allow_call) (rw (le→leb _ _ h))

  -- An open breaker that has cooled down admits one call, and refuses all that follow it, at
  -- whatever times they come, until an outcome is reported.
  pub allow_calls_one_probe :
      (now : ℕ) (times : List ℕ) (b : CircuitBreaker N)
      → b.state ≡ open_state
      → b.opened_at + b.params.cooldown_ms ≤ now
      → (allow_calls (now ∷ times) b).1
        ≡ record { allowed = true; state = half_open } ∷ map (λ _. refusal half_open) times
  unfolding allow_calls
  allow_calls_one_probe now times b s h =
      rw (allow_call_cooled now b s h, allow_calls)
        (rw (
          allow_calls_probing times (record b { state = half_open; probe_in_flight = true }) refl
            refl))
