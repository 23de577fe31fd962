-- ===== src/Metrics/Window.antt =====
-- src/metrics/metrics-collector.service.ts: the list of samples, and percentiles over it.
use queue_system.Prelude.{
  ℕ, ◌-◌, Bool, String, Option, List, [], ◌∷◌, ltb, leb, length, drop, get_elem?, if◌then◌else◌,
}

pub record AttemptSample : Type 0 where
  pub t : ℕ
  pub gateway_id : String
  pub ok : Bool
  pub duration_ms : ℕ

abbrev pub max_samples : ℕ
max_samples = 10_000

-- `while (samples.length > 0 && samples[0].t < cutoff) samples.shift()`
unfoldable pub drop_old : ℕ → List AttemptSample → List AttemptSample
drop_old cutoff [] = []
drop_old cutoff (s ∷ rest) =
    let shifted = drop_old cutoff rest in if ltb s.t cutoff then shifted else s ∷ rest

unfoldable pub cap_samples : List AttemptSample → List AttemptSample
cap_samples samples = drop (length samples - max_samples) samples

unfoldable pub insert : ℕ → List ℕ → List ℕ
insert x [] = x ∷ []
insert x (y ∷ ys) = let rest = insert x ys in if leb x y then x ∷ y ∷ ys else y ∷ rest

-- `.sort((a, b) => a - b)`
unfoldable pub sort : List ℕ → List ℕ
unfolding insert
sort [] = []
sort (x ∷ xs) = insert x (sort xs)

-- `ceil_of n` is `Math.ceil(p * n)`.
unfoldable pub percentile : List ℕ → (ℕ → ℕ) → Option ℕ
percentile sorted ceil_of =
    let index = ceil_of (length sorted) - 1 in
    let last = length sorted - 1 in get_elem? sorted (if ltb last index then last else index)

abbrev pub durations : List AttemptSample → List ℕ
durations [] = []
durations (s ∷ rest) = s.duration_ms ∷ durations rest
