-- ===== src/Gateway/Breaker/Window.antt =====
-- The sliding window of circuit-breaker.ts: what `prune` keeps.
use queue_system.Prelude.{
  ℕ, ◌+◌, ◌≤◌, ◌≡◌, refl, Bool, inl, inr, List, [], ◌∷◌, ◌++◌, arith, leb, ltb, Bool-cases,
  filter_by, All,
}
use queue_system.Gateway.Breaker.{OutcomeSample, prune_window}

-- The samples stand in the order of their times, none earlier than `low`.
abbrev pub Ordered : ℕ → List OutcomeSample → Type 0
Ordered low [] = Unit
Ordered low (s ∷ rest) = (low ≤ s.t) × Ordered s.t rest

-- Not older than the window.
abbrev pub recent : ℕ → ℕ → OutcomeSample → Bool
recent window_ms now s = leb now (s.t + window_ms)

Ordered-weaken :
    {low low' : ℕ} (xs : List OutcomeSample) → low' ≤ low → Ordered low xs → Ordered low' xs
Ordered-weaken [] h o = tt
Ordered-weaken (s ∷ rest) h o = (omega arith, o.1)

filter_by-recent :
    (window_ms now low : ℕ) (xs : List OutcomeSample)
    → now ≤ low + window_ms
    → Ordered low xs
    → filter_by (recent window_ms now) xs ≡ xs
filter_by-recent window_ms now low [] h o = refl
filter_by-recent window_ms now low (s ∷ rest) h o =
    ground (arith, filter_by-recent window_ms now s.t rest (omega arith) o.1, o.0)

-- In a window that is ordered by time `prune` keeps the recent samples, and all of them.
pub prune_window-filter_by :
    (window_ms now low : ℕ) (xs : List OutcomeSample)
    → Ordered low xs
    → prune_window window_ms now xs ≡ filter_by (recent window_ms now) xs
unfolding prune_window
prune_window-filter_by window_ms now low [] o = refl
prune_window-filter_by window_ms now low (s ∷ rest) o = ground (
  arith,
  prune_window-filter_by window_ms now s.t rest o.1,
  filter_by-recent window_ms now s.t rest,
  o.0,
)

pub prune_window-Ordered :
    (window_ms now low : ℕ) (xs : List OutcomeSample)
    → Ordered low xs
    → Ordered low (prune_window window_ms now xs)
unfolding prune_window
prune_window-Ordered window_ms now low [] o = tt
prune_window-Ordered window_ms now low (s ∷ rest) o =
    elim (Bool-cases (ltb (s.t + window_ms) now)) [
      | inl old ↦ rw old (
          Ordered-weaken (prune_window window_ms now rest) o.0
            (prune_window-Ordered window_ms now s.t rest o.1))
      | inr new ↦ rw new o
    ]

pub Ordered-push :
    (low now : ℕ) (ok : Bool) (xs : List OutcomeSample)
    → low ≤ now
    → Ordered low xs
    → All (λ s. s.t ≤ now) xs
    → Ordered low (xs ++ record { t = now; ok = ok } ∷ [])
Ordered-push low now ok [] h o a = (h, tt)
Ordered-push low now ok (s ∷ rest) h o a = (o.0, Ordered-push s.t now ok rest a.0 o.1 a.1)
