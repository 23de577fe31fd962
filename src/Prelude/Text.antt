-- ===== src/Prelude/Text.antt =====
-- `n.toString(base)` for whole numbers, as template strings and `toString(36)` use it.
use Prim.Native.Nat.{ℕ, zero, suc, ◌+◌, ◌/◌, ◌%◌}
use Prim.Native.String.{String, ◌++◌, slice}
use mathlib.Core.Path.{◌≡◌, refl}
use queue_system.Prelude.Tests.{ltb, if◌then◌else◌}

infixr 65 ◌<>◌
abbrev pub ◌<>◌ : String → String → String
s <> t = s ++ t

digit : ℕ → String
digit d = slice "0123456789abcdefghijklmnopqrstuvwxyz" d (d + 1)

-- The fuel `suc n` is more than the number of digits of `n` in a base of at least 2.
digits_of : ℕ → ℕ → ℕ → String
unfolding digit
digits_of zero base n = ""
digits_of (suc fuel) base n =
    let front = digits_of fuel base (n / base) in
    if ltb n base then digit n else (front ++ digit (n % base))

unfoldable pub to_string_base : ℕ → ℕ → String
unfolding digits_of
to_string_base base n = digits_of (suc n) base n

unfoldable pub to_string : ℕ → String
unfolding to_string_base
to_string n = to_string_base 10 n

decimal : to_string 2050 ≡ "2050"
unfolding to_string
decimal = refl

base_36 : to_string_base 36 1_700_000_000_000 ≡ "loyw3v28"
unfolding to_string_base
base_36 = refl
