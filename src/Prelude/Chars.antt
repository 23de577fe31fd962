-- ===== src/Prelude/Chars.antt =====
-- Texts as JavaScript measures them, in units of UTF-16.
use Prim.Native.Nat.{ℕ, ◌+◌}
use Prim.Native.Char.{Char, code}
use Prim.Native.String.{String, [], ◌∷◌}
use mathlib.Core.Path.{◌≡◌, refl}
use mathlib.Core.Bool.{Bool, true, false}
use mathlib.Core.List.{List}
use queue_system.Prelude.Lists.{cons, map_head}
use queue_system.Prelude.Tests.{◌==◌, ltb, leb, if◌then◌else◌}

unfoldable pub units : Char → ℕ
units c = if ltb (code c) 65_536 then 1 else 2

-- `s.length`
unfoldable pub js_length : String → ℕ
unfolding units
js_length [] = 0
js_length (c ∷ s) = units c + js_length s

is_upper : Char → Bool
is_upper c = if leb 65 (code c) then leb (code c) 90 else false

-- `/^[A-Z]*$/.test(s)`
unfoldable pub all_upper : String → Bool
unfolding is_upper
all_upper [] = true
all_upper (c ∷ s) = if is_upper c then all_upper s else false

js_length_emoji : js_length "aé😀" ≡ 4
unfolding js_length
js_length_emoji = refl

all_upper_euro : all_upper "EUR" ≡ true
unfolding all_upper
all_upper_euro = refl

-- `s.split(',')`
unfoldable pub split_commas : String → List String
split_commas [] = cons "" List.[]
split_commas (c ∷ s) =
    let rest = split_commas s in
    if code c == 44 then cons "" rest else map_head (λ word. c ∷ word) rest

split_commas_trailing : split_commas "a,é," ≡ cons "a" (cons "é" (cons "" List.[]))
unfolding split_commas
split_commas_trailing = refl
