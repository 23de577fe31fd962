-- ===== src/Gateway/Bucket/Bounds.antt =====
-- The bounds that adaptive-token-bucket.ts keeps: rate, burst and tokens.
use queue_system.Prelude.{ℕ, ◌+◌, ◌≡◌, refl, arith, leb, Bool-cases, inl, inr, if◌then◌else◌}
use queue_system.Prelude.Number
use queue_system.Prelude.Number.{Number, IsLawful, Le}
use queue_system.Gateway.Bucket.{
  AdaptiveTokenBucket, TokenBucketParams, new_bucket, reconfigure, refill, try_acquire,
  on_throttled, on_success, get_state,
}

module _ {N : Number} (L : IsLawful N) where
  open N use {Carrier, of_ℕ, half, add, sub, mul, div, le}
  open L use {
    le_refl, le_trans, le_total, of_ℕ-nonneg, mul-nonneg, div-nonneg, mul-le, half-le, le-add,
    sub_one-nonneg, sub_one-le,
  }

  -- Parameters that make sense: no negative number, and a floor below the nominal rate.
  pub record IsValid (p : TokenBucketParams N) : Type 0 where
    pub nominal : Le N (of_ℕ 0) p.nominal_rps
    pub factor : Le N (of_ℕ 0) p.burst_factor
    pub min_factor : Le N (of_ℕ 0) p.min_rate_factor
    pub step : Le N (of_ℕ 0) p.ai_step_rps
    pub floor_below : Le N (mul p.nominal_rps p.min_rate_factor) p.nominal_rps

  -- The rate stays between the floor and the nominal rate, the burst ceiling between the same two
  -- times the burst factor, and the tokens between 0 and the burst ceiling.
  pub record Inv (b : AdaptiveTokenBucket N) : Type 0 where
    pub floor-le-rate : Le N (mul b.params.nominal_rps b.params.min_rate_factor) b.rate
    pub rate-le-nominal : Le N b.rate b.params.nominal_rps
    pub floor-le-burst :
        Le N (mul (mul b.params.nominal_rps b.params.min_rate_factor) b.params.burst_factor) b.burst
    pub burst-le-max : Le N b.burst (mul b.params.nominal_rps b.params.burst_factor)
    pub tokens-nonneg : Le N (of_ℕ 0) b.tokens
    pub tokens-le-burst : Le N b.tokens b.burst

  new_bucket-Inv : (p : TokenBucketParams N) (now : ℕ) → IsValid p → Inv (new_bucket p now)
  unfolding new_bucket
  new_bucket-Inv p now v = record {
    floor-le-rate = v.floor_below;
    rate-le-nominal = le_refl _;
    floor-le-burst = mul-le _ _ _ v.floor_below v.factor;
    burst-le-max = le_refl _;
    tokens-nonneg = mul-nonneg _ _ v.nominal v.factor;
    tokens-le-burst = le_refl _;
  }

  reconfigure-Inv :
      (p : TokenBucketParams N) (b : AdaptiveTokenBucket N) → IsValid p → Inv (reconfigure p b)
  unfolding reconfigure
  reconfigure-Inv p b v = record {
    floor-le-rate = v.floor_below;
    rate-le-nominal = le_refl _;
    floor-le-burst = mul-le _ _ _ v.floor_below v.factor;
    burst-le-max = le_refl _;
    tokens-nonneg = mul-nonneg _ _ v.nominal v.factor;
    tokens-le-burst = le_refl _;
  }

  rate-nonneg : (b : AdaptiveTokenBucket N) → IsValid b.params → Inv b → Le N (of_ℕ 0) b.rate
  rate-nonneg b v i = le_trans _ _ _ (mul-nonneg _ _ v.nominal v.min_factor) i.floor-le-rate

  burst-nonneg : (b : AdaptiveTokenBucket N) → Inv b → Le N (of_ℕ 0) b.burst
  burst-nonneg b i = le_trans _ _ _ i.tokens-nonneg i.tokens-le-burst

  gain-nonneg :
      (e : ℕ) (b : AdaptiveTokenBucket N)
      → IsValid b.params
      → Inv b
      → Le N (of_ℕ 0) (mul (div (of_ℕ e) (of_ℕ 1000)) b.rate)
  gain-nonneg e b v i =
      mul-nonneg _ _ (div-nonneg _ _ (of_ℕ-nonneg e) (of_ℕ-nonneg 1000)) (rate-nonneg b v i)

  refill-Inv : (now : ℕ) (b : AdaptiveTokenBucket N) → IsValid b.params → Inv b → Inv (refill now b)
  unfolding refill
  refill-Inv now b v i = elim (Bool-cases (leb now b.last_refill)) [
    | inl early ↦ rw (early, refill) i
    | inr later ↦
        rw (later, refill)
          (record {
            floor-le-rate = i.floor-le-rate;
            rate-le-nominal = i.rate-le-nominal;
            floor-le-burst = i.floor-le-burst;
            burst-le-max = i.burst-le-max;
            tokens-nonneg =
                Number.le-min L _ _ _ (burst-nonneg b i)
                  (le_trans _ _ _ i.tokens-nonneg (le-add _ _ (gain-nonneg _ b v i)));
            tokens-le-burst = Number.min-le_left L _ _;
          })
  ]

  take_one-Inv :
      (b : AdaptiveTokenBucket N)
      → Le N (of_ℕ 1) b.tokens
      → Inv b
      → Inv (record b { tokens = sub b.tokens (of_ℕ 1) })
  take_one-Inv b h i = record {
    floor-le-rate = i.floor-le-rate;
    rate-le-nominal = i.rate-le-nominal;
    floor-le-burst = i.floor-le-burst;
    burst-le-max = i.burst-le-max;
    tokens-nonneg = sub_one-nonneg _ h;
    tokens-le-burst = le_trans _ _ _ (sub_one-le _) i.tokens-le-burst;
  }

  try_acquire-Inv :
      (now : ℕ) (b : AdaptiveTokenBucket N) → IsValid b.params → Inv b → Inv (try_acquire now b).0
  unfolding try_acquire
  try_acquire-Inv now b v i =
      let r : AdaptiveTokenBucket N = refill now b in
      let ri : Inv r = refill-Inv now b v i in
      elim (Bool-cases (le (of_ℕ 1) r.tokens)) [
        | inl there ↦ rw (there, try_acquire) (take_one-Inv r there ri)
        | inr empty ↦ rw (empty, try_acquire) ri
      ]

  on_throttled-Inv : (b : AdaptiveTokenBucket N) → IsValid b.params → Inv b → Inv (on_throttled b).0
  unfolding on_throttled
  on_throttled-Inv b v i = record {
    floor-le-rate = Number.le_left-max L _ _;
    rate-le-nominal =
        Number.max-le L _ _ _ v.floor_below
          (le_trans _ _ _ (half-le _ (rate-nonneg b v i)) i.rate-le-nominal);
    floor-le-burst = Number.le_left-max L _ _;
    burst-le-max =
        Number.max-le L _ _ _ (mul-le _ _ _ v.floor_below v.factor)
          (le_trans _ _ _ (half-le _ (burst-nonneg b i)) i.burst-le-max);
    tokens-nonneg = Number.le-min L _ _ _ i.tokens-nonneg (
        le_trans _ _ _ (mul-nonneg _ _ (mul-nonneg _ _ v.nominal v.min_factor) v.factor)
          (Number.le_left-max L _ _));
    tokens-le-burst = Number.min-le_right L _ _;
  }

  -- A value below its ceiling that is raised by a step and capped stays between them.
  raise_bounds :
      (low x top step : Carrier)
      → Le N low x
      → Le N x top
      → Le N (of_ℕ 0) step
      → Le N low (if Number.lt N x top then Number.min N top (add x step) else x)
        × Le N x (if Number.lt N x top then Number.min N top (add x step) else x)
        × Le N (if Number.lt N x top then Number.min N top (add x step) else x) top
  raise_bounds low x top step h k s = elim (Bool-cases (le top x)) [
    | inl full ↦ rw full (h, le_refl x, k)
    | inr room ↦
        let up : Le N x (Number.min N top (add x step)) =
          Number.le-min L _ _ _ k (le-add x step s) in
        rw room (le_trans _ _ _ h up, up, Number.min-le_left L _ _)
  ]

  on_success-Inv : (b : AdaptiveTokenBucket N) → IsValid b.params → Inv b → Inv (on_success b)
  unfolding on_success
  on_success-Inv b v i =
      let r = raise_bounds _ _ _ b.params.ai_step_rps i.floor-le-rate i.rate-le-nominal v.step in
      let u =
        raise_bounds _ _ _ (mul b.params.ai_step_rps b.params.burst_factor) i.floor-le-burst
          i.burst-le-max (mul-nonneg _ _ v.step v.factor) in
      record {
        floor-le-rate = r.0;
        rate-le-nominal = r.2;
        floor-le-burst = u.0;
        burst-le-max = u.2;
        tokens-nonneg =
            Number.le-min L _ _ _ i.tokens-nonneg (le_trans _ _ _ (burst-nonneg b i) u.1);
        tokens-le-burst = Number.min-le_right L _ _;
      }

  -- What can happen to a bucket.
  pub data Step (b : AdaptiveTokenBucket N) : AdaptiveTokenBucket N → Type 0 where
    acquires : (now : ℕ) → Step b (try_acquire now b).0
    throttles : Step b (on_throttled b).0
    succeeds : Step b (on_success b)
    reads : (now : ℕ) → Step b (get_state now b)
    reconfigures : (p : TokenBucketParams N) → IsValid p → Step b (reconfigure p b)

  pub data Reach (p : TokenBucketParams N) (now : ℕ) : AdaptiveTokenBucket N → Type 0 where
    start : Reach p now (new_bucket p now)
    step : {b c : AdaptiveTokenBucket N} → Reach p now b → Step b c → Reach p now c

  Sound : AdaptiveTokenBucket N → Type 0
  Sound b = IsValid b.params × Inv b

  refill-params : (now : ℕ) (b : AdaptiveTokenBucket N) → (refill now b).params ≡ b.params
  unfolding refill
  refill-params now b = ground arith

  try_acquire-params :
      (now : ℕ) (b : AdaptiveTokenBucket N) → (try_acquire now b).0.params ≡ b.params
  unfolding try_acquire
  try_acquire-params now b = ground (arith, refill-params now b)

  Step-Sound : {b c : AdaptiveTokenBucket N} → Step b c → Sound b → Sound c
  unfolding Sound
  Step-Sound {b} (acquires now) (v, i) =
      (rw (try_acquire-params now b) v, try_acquire-Inv now b v i)
  Step-Sound {b} throttles (v, i) = (unfold on_throttled in v, on_throttled-Inv b v i)
  Step-Sound {b} succeeds (v, i) = (unfold on_success in v, on_success-Inv b v i)
  Step-Sound {b} (reads now) (v, i) =
      (unfold get_state in rw (refill-params now b) v, unfold get_state in refill-Inv now b v i)
  Step-Sound {b} (reconfigures p w) (v, i) = (unfold reconfigure in w, reconfigure-Inv p b w)

  -- Whatever the calls and their times, a bucket with valid parameters stays within its bounds.
  pub Reach-bounds :
      {p : TokenBucketParams N} {now : ℕ} {b : AdaptiveTokenBucket N}
      → IsValid p
      → Reach p now b
      → IsValid b.params × Inv b
  unfolding Sound new_bucket
  Reach-bounds {p} {now} v start = (v, new_bucket-Inv p now v)
  Reach-bounds v (step r s) = Step-Sound s (Reach-bounds v r)

  -- Throttling never raises the rate, the ceiling or the tokens, and counts; a success never lowers
  -- the rate or the ceiling, and never adds tokens.
  pub aimd_direction :
      (b : AdaptiveTokenBucket N)
      → IsValid b.params
      → Inv b
      → (Le N (on_throttled b).0.rate b.rate
          × Le N (on_throttled b).0.burst b.burst
          × Le N (on_throttled b).0.tokens b.tokens
          × ((on_throttled b).0.throttle_count ≡ b.throttle_count + 1))
        × (Le N b.rate (on_success b).rate
            × Le N b.burst (on_success b).burst
            × Le N (on_success b).tokens b.tokens
            × ((on_success b).throttle_count ≡ b.throttle_count))
  unfolding on_throttled on_success
  aimd_direction b v i =
      let r = raise_bounds _ _ _ b.params.ai_step_rps i.floor-le-rate i.rate-le-nominal v.step in
      let u =
        raise_bounds _ _ _ (mul b.params.ai_step_rps b.params.burst_factor) i.floor-le-burst
          i.burst-le-max (mul-nonneg _ _ v.step v.factor) in
      (
        (
          Number.max-le L _ _ _ i.floor-le-rate (half-le _ (rate-nonneg b v i)),
          Number.max-le L _ _ _ i.floor-le-burst (half-le _ (burst-nonneg b i)),
          Number.min-le_left L _ _,
          refl,
        ),
        (r.1, u.1, Number.min-le_left L _ _, refl),
      )
