-- ===== src/Prelude/Number.antt =====
-- The JavaScript numbers that are not whole: rates, factors, ratios. They are IEEE doubles, so the
-- model takes them as a parameter; `IsLawful` lists what the proofs need of them.
use Prim.Native.Nat.{ℕ, ◌+◌, ◌-◌, ◌*◌, ◌/◌, ◌≤◌}
use mathlib.Core.Path.{◌≡◌}
use mathlib.Core.Bool.{Bool, true, false, not}
use native.Mathlib.Omega.{arith}
use queue_system.Prelude.Tests.{leb, leb→le, le→leb, if◌then◌else◌}

pub record Number : Type 1 where
  pub Carrier : Type 0
  pub of_ℕ : ℕ → Carrier
  pub half : Carrier
  pub add : Carrier → Carrier → Carrier
  pub sub : Carrier → Carrier → Carrier
  pub mul : Carrier → Carrier → Carrier
  pub div : Carrier → Carrier → Carrier
  pub le : Carrier → Carrier → Bool

module _ (N : Number) where
  open N use {Carrier, le}

  -- `Math.min`, `Math.max` and `<`, on numbers that are not NaN.
  abbrev pub min : Carrier → Carrier → Carrier
  min a b = if le a b then a else b

  abbrev pub max : Carrier → Carrier → Carrier
  max a b = if le a b then b else a

  abbrev pub lt : Carrier → Carrier → Bool
  lt a b = not (le b a)

  abbrev pub Le : Carrier → Carrier → Type 0
  Le a b = le a b ≡ true

  -- What holds of the doubles that are no NaN, rounding included: the order is total, rounding is
  -- monotone, and halving, adding a positive number and taking one away do not cross their operand.
  pub record IsLawful : Type 0 where
    pub le_refl : (a : Carrier) → Le a a
    pub le_trans : (a b c : Carrier) → Le a b → Le b c → Le a c
    pub le_total : (a b : Carrier) → le a b ≡ false → Le b a
    pub of_ℕ-nonneg : (n : ℕ) → Le (N.of_ℕ 0) (N.of_ℕ n)
    pub mul-nonneg : (a b : Carrier) → Le (N.of_ℕ 0) a → Le (N.of_ℕ 0) b → Le (N.of_ℕ 0) (N.mul a b)
    pub div-nonneg : (a b : Carrier) → Le (N.of_ℕ 0) a → Le (N.of_ℕ 0) b → Le (N.of_ℕ 0) (N.div a b)
    pub mul-le : (a b c : Carrier) → Le a b → Le (N.of_ℕ 0) c → Le (N.mul a c) (N.mul b c)
    pub half-le : (a : Carrier) → Le (N.of_ℕ 0) a → Le (N.mul a N.half) a
    pub le-add : (a b : Carrier) → Le (N.of_ℕ 0) b → Le a (N.add a b)
    pub sub_one-nonneg : (a : Carrier) → Le (N.of_ℕ 1) a → Le (N.of_ℕ 0) (N.sub a (N.of_ℕ 1))
    pub sub_one-le : (a : Carrier) → Le (N.sub a (N.of_ℕ 1)) a

module _ {N : Number} (L : IsLawful N) where
  open N use {Carrier, le}
  open L use {le_refl, le_total}

  pub min-le_left : (a b : Carrier) → Le N (min N a b) a
  min-le_left a b = ground (arith, le_refl a, le_total a b)

  pub min-le_right : (a b : Carrier) → Le N (min N a b) b
  min-le_right a b = ground (arith, le_refl b)

  pub le-min : (a b c : Carrier) → Le N c a → Le N c b → Le N c (min N a b)
  le-min a b c h k = ground arith

  pub le_left-max : (a b : Carrier) → Le N a (max N a b)
  le_left-max a b = ground (arith, le_refl a)

  pub le_right-max : (a b : Carrier) → Le N b (max N a b)
  le_right-max a b = ground (arith, le_refl b, le_total a b)

  pub max-le : (a b c : Carrier) → Le N a c → Le N b c → Le N (max N a b) c
  max-le a b c h k = ground arith

-- Whole numbers meet the laws, with division rounding down.
abbrev pub whole_number : Number
whole_number = record {
  Carrier = ℕ;
  of_ℕ = λ n. n;
  half = 0;
  add = λ a b. a + b;
  sub = λ a b. a - b;
  mul = λ a b. a * b;
  div = λ a b. a / b;
  le = leb;
}

pub whole_number-IsLawful : IsLawful whole_number
whole_number-IsLawful = record {
  le_refl = λ a. ground arith;
  le_trans = λ a b c h k. ground arith;
  le_total = λ a b h. ground arith;
  of_ℕ-nonneg = λ n. ground arith;
  mul-nonneg = λ a b h k. ground arith;
  div-nonneg = λ a b h k. ground arith;
  mul-le = λ a b c h k. le→leb _ _ (mul_mono a b c (leb→le _ _ h));
  half-le = λ a h. ground arith;
  le-add = λ a b h. ground arith;
  sub_one-nonneg = λ a h. ground arith;
  sub_one-le = λ a. ground arith;
}
  where
    mul_mono : (a b c : ℕ) → a ≤ b → a * c ≤ b * c
    mul_mono a b c h = grind arith
