-- ===== src/Metrics/Collector/Samples.antt =====
-- metrics-collector.service.ts: the bounds of the window of samples, and percentiles.
use queue_system.Prelude.{
  ℕ, zero, suc, All, All-append, All-drop, ◌-◌, ◌*◌, ◌≤◌, ◌<◌, ◌≡◌, refl, Bool, true, String, some,
  List, [], ◌∷◌, ◌++◌, Bool-cases, inl, inr, arith, length, length-drop, drop, get_elem?, ltb, leb,
}
use queue_system.Prelude.Number.{Number}
use queue_system.Metrics.Collector.{MetricsCollector, MetricsConfig, record_attempt}
use queue_system.Metrics.Window.{
  AttemptSample, drop_old, cap_samples, max_samples, sort, percentile, insert,
}

-- The least of a list of numbers is in front, and so on for the rest.
abbrev below : ℕ → List ℕ → Bool
below x [] = true
below x (y ∷ ys) = leb x y

abbrev pub IsSorted : List ℕ → Type 0
IsSorted [] = Unit
IsSorted (x ∷ xs) = (below x xs ≡ true) × IsSorted xs

insert-below :
    (b x : ℕ) (xs : List ℕ) → leb b x ≡ true → below b xs ≡ true → below b (insert x xs) ≡ true
unfolding insert
insert-below b x [] h k = h
insert-below b x (y ∷ ys) h k = ground arith

insert-IsSorted : (x : ℕ) (xs : List ℕ) → IsSorted xs → IsSorted (insert x xs)
unfolding insert
insert-IsSorted x [] h = (refl, tt)
insert-IsSorted x (y ∷ ys) h = elim (Bool-cases (leb x y)) [
  | inl e ↦ rw e (e, h)
  | inr e ↦ rw e (insert-below y x ys (ground arith) h.0, insert-IsSorted x ys h.1)
]

sort-IsSorted : (xs : List ℕ) → IsSorted (sort xs)
unfolding sort
sort-IsSorted [] = tt
sort-IsSorted (x ∷ xs) = insert-IsSorted x (sort xs) (sort-IsSorted xs)

get_elem?-some : (xs : List ℕ) (i : ℕ) → i < length xs → (x : ℕ) × (get_elem? xs i ≡ some x)
get_elem?-some [] i h = ground arith
get_elem?-some (x ∷ xs) zero h = (x, refl)
get_elem?-some (x ∷ xs) (suc i) h = get_elem?-some xs i (omega arith)

length-insert : (x : ℕ) (xs : List ℕ) → length (insert x xs) ≡ suc (length xs)
unfolding insert
length-insert x [] = refl
length-insert x (y ∷ ys) = ground (arith, length-insert x ys)

length-sort : (xs : List ℕ) → length (sort xs) ≡ length xs
unfolding sort
length-sort [] = refl
length-sort (x ∷ xs) = omega (arith, length-insert x (sort xs), length-sort xs)

percentile-some :
    (xs : List ℕ) (ceil_of : ℕ → ℕ) → 1 ≤ length xs → (y : ℕ) × (percentile xs ceil_of ≡ some y)
unfolding percentile
percentile-some xs ceil_of h = get_elem?-some xs _ (ground arith)

-- If an attempt is in the window, the durations are sorted, there are as many as before, and the
-- percentile is one of the numbers that stand in the sorted list, whatever the rounding of the
-- rank.
pub percentile-sort :
    (xs : List ℕ) (ceil_of : ℕ → ℕ)
    → 1 ≤ length xs
    → IsSorted (sort xs)
      × (length (sort xs) ≡ length xs)
      × ((y : ℕ) × (percentile (sort xs) ceil_of ≡ some y))
percentile-sort xs ceil_of h = (
  sort-IsSorted xs,
  length-sort xs,
  percentile-some (sort xs) ceil_of (omega (arith, length-sort xs)),
)

-- The samples are in the order of their times.
abbrev pub InOrder : List AttemptSample → Type 0
InOrder [] = Unit
InOrder (s ∷ rest) = All (λ r. s.t ≤ r.t) rest × InOrder rest

All-le_trans :
    (a b : ℕ) (xs : List AttemptSample) → a ≤ b → All (λ r. b ≤ r.t) xs → All (λ r. a ≤ r.t) xs
All-le_trans a b [] h k = tt
All-le_trans a b (x ∷ xs) h k = (omega (arith, k.0), All-le_trans a b xs h k.1)

InOrder-append :
    (xs : List AttemptSample) (x : AttemptSample)
    → InOrder xs
    → All (λ s. s.t ≤ x.t) xs
    → InOrder (xs ++ x ∷ [])
InOrder-append [] x h k = (tt, tt)
InOrder-append (s ∷ rest) x h k =
    (All-append (λ r. s.t ≤ r.t) rest (x ∷ []) h.0 (k.0, tt), InOrder-append rest x h.1 k.1)

InOrder-drop : (n : ℕ) (xs : List AttemptSample) → InOrder xs → InOrder (drop n xs)
InOrder-drop zero xs h = h
InOrder-drop (suc n) [] h = tt
InOrder-drop (suc n) (x ∷ xs) h = InOrder-drop n xs h.1

InOrder-drop_old :
    (cutoff : ℕ) (xs : List AttemptSample)
    → InOrder xs
    → All (λ s. cutoff ≤ s.t) (drop_old cutoff xs) × InOrder (drop_old cutoff xs)
unfolding drop_old
InOrder-drop_old cutoff [] h = (tt, tt)
InOrder-drop_old cutoff (s ∷ rest) h = elim (Bool-cases (ltb s.t cutoff)) [
  | inl e ↦ rw e (InOrder-drop_old cutoff rest h.1)
  | inr e ↦ rw e ((ground arith, All-le_trans cutoff s.t rest (ground arith) h.0), h)
]

All-drop_old :
    (P : AttemptSample → Type 0) (cutoff : ℕ) (xs : List AttemptSample)
    → All P xs
    → All P (drop_old cutoff xs)
unfolding drop_old
All-drop_old P cutoff [] h = tt
All-drop_old P cutoff (s ∷ rest) h = elim (Bool-cases (ltb s.t cutoff)) [
  | inl e ↦ rw e (All-drop_old P cutoff rest h.1)
  | inr e ↦ rw e h
]

module _ {N : Number} (config : MetricsConfig N) where
  -- If the samples are in order and none is newer than the attempt, then after it is recorded they
  -- are in order, none is newer than the attempt or older than the window, and there are at most 10
  -- 000 of them.
  pub record_attempt-bounds :
      (c : MetricsCollector N) (gateway_id : String) (ok : Bool) (duration_ms pushed_at now : ℕ)
      → InOrder c.samples
      → All (λ s. s.t ≤ pushed_at) c.samples
      → let c' = record_attempt config gateway_id ok duration_ms pushed_at now c in
        (length c'.samples ≤ max_samples)
        × InOrder c'.samples
        × All (λ s. s.t ≤ pushed_at) c'.samples
        × All (λ s. now - config.window_seconds * 1000 ≤ s.t) c'.samples
  unfolding record_attempt cap_samples
  record_attempt-bounds c gateway_id ok duration_ms pushed_at now ordered old =
      let sample : AttemptSample = record {
        t = pushed_at;
        gateway_id = gateway_id;
        ok = ok;
        duration_ms = duration_ms;
      } in
      let cutoff = now - config.window_seconds * 1000 in
      let pushed = c.samples ++ sample ∷ [] in
      let fresh = drop_old cutoff pushed in
      let d = InOrder-drop_old cutoff pushed (InOrder-append c.samples sample ordered old) in
      let u =
        All-drop_old (λ s. s.t ≤ pushed_at) cutoff pushed
          (All-append (λ s. s.t ≤ pushed_at) c.samples (sample ∷ []) old (omega arith, tt)) in
      (
        omega (arith, length-drop (length fresh - max_samples) fresh),
        InOrder-drop _ fresh d.1,
        All-drop _ _ fresh u,
        All-drop _ _ fresh d.0,
      )
