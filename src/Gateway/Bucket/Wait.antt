-- ===== src/Gateway/Bucket/Wait.antt =====
-- The polling loop of adaptive-token-bucket.ts: it ends, and what its answer means.
use queue_system.Prelude.{
  ℕ, zero, suc, ◌+◌, ◌*◌, ◌≤◌, ◌≡◌, ◌≢◌, inl, inr, Bool, true, false, none, some, arith, leb,
  Bool-cases,
}
use queue_system.Prelude.Number.{Number}
use queue_system.Gateway.Bucket.{
  AdaptiveTokenBucket, sleep_ms, try_acquire, wait_loop, wait_for_token,
}

pub sleep_ms_bounds :
    (deadline now : ℕ) → (5 ≤ sleep_ms deadline now) × (sleep_ms deadline now ≤ 15)
unfolding sleep_ms
sleep_ms_bounds deadline now = ground arith

module _ {N : Number} (clock : ℕ → ℕ)
    (others : ℕ → AdaptiveTokenBucket N → AdaptiveTokenBucket N) where
  -- `setTimeout` does not fire before its time, and the clock does not go back. The loop that begins
  -- with the k-th reading sleeps after the readings k + 1, k + 3, and so on.
  pub record IsTimely (deadline k : ℕ) : Type 0 where
    pub sleeps :
        (i : ℕ)
        → clock (k + 2 * i + 1) + sleep_ms deadline (clock (k + 2 * i + 1)) ≤ clock (k + 2 * i + 2)
    pub onward : (i : ℕ) → clock (k + 2 * i + 2) ≤ clock (k + 2 * i + 3)

  IsTimely-later : (deadline k : ℕ) → IsTimely deadline k → IsTimely deadline (k + 2)
  IsTimely-later deadline k t = record {
    sleeps = λ i. grind (arith, t.sleeps (i + 1));
    onward = λ i. grind (arith, t.onward (i + 1));
  }

  closer :
      (fuel deadline k : ℕ)
      → IsTimely deadline k
      → deadline ≤ clock (k + 1) + 5 * suc fuel
      → deadline ≤ clock (k + 2 + 1) + 5 * fuel
  closer fuel deadline k t h =
      grind (arith, t.sleeps 0, t.onward 0, sleep_ms_bounds deadline (clock (k + 1)))

  wait_loop_ends :
      (fuel deadline k : ℕ) (b : AdaptiveTokenBucket N)
      → IsTimely deadline k
      → deadline ≤ clock (k + 1) + 5 * fuel
      → wait_loop clock others (suc fuel) deadline k b ≢ none
  unfolding wait_loop
  wait_loop_ends zero deadline k b t h = ground arith
  wait_loop_ends (suc fuel) deadline k b t h = ground (
    arith,
    wait_loop_ends fuel deadline (k + 2) (others k (try_acquire (clock k) b).0)
        (IsTimely-later deadline k t) (closer fuel deadline k t h),
  )

  -- With timely sleeps a wait of `timeout_ms` ends within `timeout_ms / 5 + 1` rounds, whatever the
  -- other callers do to the bucket meanwhile.
  pub wait_for_token_ends :
      (fuel timeout_ms k : ℕ) (b : AdaptiveTokenBucket N)
      → IsTimely (clock k + timeout_ms) (k + 1)
      → clock k ≤ clock (k + 2)
      → timeout_ms ≤ 5 * fuel
      → wait_for_token clock others (suc fuel) timeout_ms k b ≢ none
  unfolding wait_for_token
  wait_for_token_ends fuel timeout_ms k b t on h =
      wait_loop_ends fuel (clock k + timeout_ms) (k + 1) b t (grind arith)

  -- What the answer of the loop stands for: a token taken at the last reading, or a last reading at
  -- or past the deadline.
  abbrev pub Explained : ℕ → AdaptiveTokenBucket N × Bool × ℕ → Type 0
  Explained deadline (b', true, j) =
      (m : ℕ) × (c : AdaptiveTokenBucket N) × (j ≡ m + 1) × (try_acquire (clock m) c ≡ (b', true))
  Explained deadline (b', false, j) = (m : ℕ) × (j ≡ m + 1) × (deadline ≤ clock m)

  wait_loop-Explained :
      (fuel deadline k : ℕ) (b : AdaptiveTokenBucket N)
      → (r : AdaptiveTokenBucket N × Bool × ℕ) → wait_loop clock others fuel deadline k b ≡ some r
      → Explained deadline r
  unfolding wait_loop
  wait_loop-Explained zero deadline k b r h = cc
  wait_loop-Explained (suc fuel) deadline k b (b', true, j) h =
      elim (Bool-cases (try_acquire (clock k) b).1) [
        | inl got ↦ (k, b, ground arith, ground arith)
        | inr missed ↦
            wait_loop-Explained fuel deadline (k + 2) (others k (try_acquire (clock k) b).0)
              (b', true, j) (ground arith)
      ]
  wait_loop-Explained (suc fuel) deadline k b (b', false, j) h =
      elim (Bool-cases (leb deadline (clock (k + 1)))) [
        | inl late ↦ (k + 1, ground arith, ground arith)
        | inr early ↦
            wait_loop-Explained fuel deadline (k + 2) (others k (try_acquire (clock k) b).0)
              (b', false, j) (ground arith)
      ]

  -- A wait that is granted ends in a token taken at its last reading of the clock; one that is
  -- refused ends in a reading at least `timeout_ms` after the first.
  pub wait_for_token-Explained :
      (fuel timeout_ms k : ℕ) (b : AdaptiveTokenBucket N) (r : AdaptiveTokenBucket N × Bool × ℕ)
      → wait_for_token clock others fuel timeout_ms k b ≡ some r
      → Explained (clock k + timeout_ms) r
  unfolding wait_for_token
  wait_for_token-Explained fuel timeout_ms k b r h =
      wait_loop-Explained fuel (clock k + timeout_ms) (k + 1) b r h
