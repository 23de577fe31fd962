-- ===== src/Gateway/Bucket.antt =====
-- src/gateway/adaptive-token-bucket.ts: the token bucket with additive increase and multiplicative
-- decrease. Times are whole milliseconds, rates and tokens are the numbers of `N`. `clock k` is what
-- the k-th reading of `Date.now()` gives.
pub mod Bounds
pub mod Wait
use queue_system.Prelude.{
  ℕ, zero, suc, ◌+◌, ◌-◌, Bool, true, false, Option, none, some, List, [], ◌∷◌, leb, if◌then◌else◌,
}
use queue_system.Prelude.Number
use queue_system.Prelude.Number.{Number}

pub data Callback : Type 0 where
  on_throttle on_token_grant : Callback

module _ (N : Number) where
  pub record TokenBucketParams : Type 0 where
    pub nominal_rps : N.Carrier
    pub burst_factor : N.Carrier
    pub min_rate_factor : N.Carrier
    pub ai_step_rps : N.Carrier
    pub token_wait_ms : ℕ

  pub record AdaptiveTokenBucket : Type 0 where
    pub params : TokenBucketParams
    pub rate : N.Carrier
    pub burst : N.Carrier
    pub tokens : N.Carrier
    pub last_refill : ℕ
    pub throttle_count : ℕ

-- `Math.min(15, Math.max(5, deadline - now))`, of a time before the deadline.
unfoldable pub sleep_ms : ℕ → ℕ → ℕ
sleep_ms deadline now =
    let rest = if leb 5 (deadline - now) then deadline - now else 5 in
    if leb rest 15 then rest else 15

module _ {N : Number} where
  open N use {of_ℕ, half, add, sub, mul, div, le}

  unfoldable pub new_bucket : TokenBucketParams N → ℕ → AdaptiveTokenBucket N
  new_bucket params now = record {
    params = params;
    rate = params.nominal_rps;
    burst = mul params.nominal_rps params.burst_factor;
    tokens = mul params.nominal_rps params.burst_factor;
    last_refill = now;
    throttle_count = 0;
  }

  unfoldable pub reconfigure : TokenBucketParams N → AdaptiveTokenBucket N → AdaptiveTokenBucket N
  reconfigure params b = record b {
    params = params;
    rate = params.nominal_rps;
    burst = mul params.nominal_rps params.burst_factor;
    tokens = mul params.nominal_rps params.burst_factor;
  }

  unfoldable pub refill : ℕ → AdaptiveTokenBucket N → AdaptiveTokenBucket N
  refill now b = if leb now b.last_refill then b else record b {
    tokens =
        Number.min N b.burst
          (add b.tokens (mul (div (of_ℕ (now - b.last_refill)) (of_ℕ 1000)) b.rate));
    last_refill = now;
  }

  -- One token, if there is one.
  unfoldable pub try_acquire : ℕ → AdaptiveTokenBucket N → AdaptiveTokenBucket N × Bool
  try_acquire now b =
      let r = refill now b in
      if le (of_ℕ 1) r.tokens
      then (record r { tokens = sub r.tokens (of_ℕ 1) }, true)
      else (r, false)

  unfoldable pub on_throttled : AdaptiveTokenBucket N → AdaptiveTokenBucket N × List Callback
  on_throttled b =
      let floor = mul b.params.nominal_rps b.params.min_rate_factor in
      let burst = Number.max N (mul floor b.params.burst_factor) (mul b.burst half) in
      (
        record b {
          rate = Number.max N floor (mul b.rate half);
          burst = burst;
          tokens = Number.min N b.tokens burst;
          throttle_count = b.throttle_count + 1;
        },
        on_throttle ∷ [],
      )

  unfoldable pub on_success : AdaptiveTokenBucket N → AdaptiveTokenBucket N
  on_success b =
      let max_burst = mul b.params.nominal_rps b.params.burst_factor in
      let rate =
        if Number.lt N b.rate b.params.nominal_rps
        then Number.min N b.params.nominal_rps (add b.rate b.params.ai_step_rps)
        else b.rate in
      let burst =
        if Number.lt N b.burst max_burst
        then Number.min N max_burst (add b.burst (mul b.params.ai_step_rps b.params.burst_factor))
        else b.burst in
      record b { rate = rate; burst = burst; tokens = Number.min N b.tokens burst }

  -- The state that is returned is the bucket's own, after the refill.
  unfoldable pub get_state : ℕ → AdaptiveTokenBucket N → AdaptiveTokenBucket N
  unfolding refill
  get_state now b = refill now b

  module _ (clock : ℕ → ℕ) (others : ℕ → AdaptiveTokenBucket N → AdaptiveTokenBucket N) where
    -- The loop, from the k-th reading on. `others k` is what other calls do to the bucket in the
    -- sleep that follows. The result is the bucket, the answer and the number of the next reading;
    -- `none` means that the fuel ran out.
    unfoldable pub wait_loop :
        ℕ → ℕ → ℕ → AdaptiveTokenBucket N → Option (AdaptiveTokenBucket N × Bool × ℕ)
    wait_loop zero deadline k b = none
    wait_loop (suc fuel) deadline k b =
        let (b', acquired) = try_acquire (clock k) b in
        let again = wait_loop fuel deadline (k + 2) (others k b') in
        if acquired
        then some (b', true, k + 1)
        else if leb deadline (clock (k + 1))
        then some (b', false, k + 2)
        else again

    unfoldable pub wait_for_token :
        ℕ → ℕ → ℕ → AdaptiveTokenBucket N → Option (AdaptiveTokenBucket N × Bool × ℕ)
    unfolding wait_loop
    wait_for_token fuel timeout_ms k b = wait_loop fuel (clock k + timeout_ms) (k + 1) b
