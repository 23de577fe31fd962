-- ===== src/Queue/Name.antt =====
-- src/queue/queue-manager.service.ts: `queueNameFor`, on UTF-16 units. What `toLowerCase` answers is an
-- argument, since it follows the Unicode tables.
use Prim.Native.Char.{Char, code}
use Prim.Native.String.{String, [], ◌∷◌}
use queue_system.Prelude.{
  ℕ, zero, suc, ◌≤◌, ◌≡◌, refl, arith, ap, ◌∙◌, Bool, true, false, leb, ltb, ◌==◌, if◌then◌else◌,
}
use queue_system.Prelude.Chars.{js_length, units}

between : ℕ → ℕ → ℕ → Bool
between a b n = if leb a n then leb n b else false

-- `[a-z0-9-]`
unfoldable pub plain : Char → Bool
unfolding between
plain c =
    if between 97 122 (code c) then true else if between 48 57 (code c) then true else code c == 45

-- `s.replace(/[^a-z0-9-]/g, "-")`: a character outside the basic plane is two units.
unfoldable pub replace_others : String → String
unfolding plain
replace_others [] = ""
replace_others (c ∷ s) =
    let rest = replace_others s in
    if plain c then c ∷ rest else if ltb (code c) 65_536 then "-" ∷ rest else "-" ∷ "-" ∷ rest

-- `s.slice(0, n)` of a text whose characters are one unit each.
unfoldable pub first_units : ℕ → String → String
first_units zero s = ""
first_units (suc n) [] = ""
first_units (suc n) (c ∷ s) = c ∷ first_units n s

unfoldable pub queue_name_for : (String → String) → String → String
unfolding replace_others first_units
queue_name_for to_lower_case gateway_id = first_units 60 (replace_others (to_lower_case gateway_id))

-- `/^[a-z0-9-]*$/.test(s)`
abbrev pub all_plain : String → Bool
all_plain [] = true
all_plain (c ∷ s) = if plain c then all_plain s else false

replace_others-plain : (s : String) → all_plain (replace_others s) ≡ true
unfolding replace_others
replace_others-plain [] = refl
replace_others-plain (c ∷ s) = ground (arith, replace_others-plain s)

first_units-plain : (n : ℕ) (s : String) → all_plain s ≡ true → all_plain (first_units n s) ≡ true
unfolding first_units
first_units-plain zero s h = refl
first_units-plain (suc n) [] h = refl
first_units-plain (suc n) (c ∷ s) h = ground (arith, first_units-plain n s)

plain-units : (c : Char) → plain c ≡ true → units c ≡ 1
unfolding plain units
plain-units c h = ground arith

js_length-first_units : (n : ℕ) (s : String) → all_plain s ≡ true → js_length (first_units n s) ≤ n
unfolding first_units js_length
js_length-first_units zero s h = omega arith
js_length-first_units (suc n) [] h = omega arith
js_length-first_units (suc n) (c ∷ s) h = ground (arith, js_length-first_units n s, plain-units c)

-- The name of a queue has at most 60 units, all of them small letters, digits or dashes.
pub queue_name_for-plain :
    (to_lower_case : String → String) (gateway_id : String)
    → let name = queue_name_for to_lower_case gateway_id in
      (js_length name ≤ 60) × (all_plain name ≡ true)
unfolding queue_name_for
queue_name_for-plain to_lower_case gateway_id =
    let h = replace_others-plain (to_lower_case gateway_id) in
    (
      js_length-first_units 60 (replace_others (to_lower_case gateway_id)) h,
      first_units-plain 60 (replace_others (to_lower_case gateway_id)) h,
    )

replace_others_same : (s : String) → all_plain s ≡ true → replace_others s ≡ s
unfolding replace_others
replace_others_same [] h = refl
replace_others_same (c ∷ s) h = ground (arith, replace_others_same s)

first_units_twice : (n : ℕ) (s : String) → first_units n (first_units n s) ≡ first_units n s
unfolding first_units
first_units_twice zero s = refl
first_units_twice (suc n) [] = refl
first_units_twice (suc n) (c ∷ s) = ap (◌∷◌ c) (first_units_twice n s)

-- A gateway whose id is the queue name of another, and is left as it is by `toLowerCase`, has the same
-- queue as the other.
pub queue_name_for_shared :
    (to_lower_case : String → String) (gateway_id : String)
    → let name = queue_name_for to_lower_case gateway_id in
      to_lower_case name ≡ name → queue_name_for to_lower_case name ≡ name
unfolding queue_name_for
queue_name_for_shared to_lower_case gateway_id lower =
    let h = replace_others-plain (to_lower_case gateway_id) in
    rw (lower) (
      ap (first_units 60)
        (replace_others_same _ (first_units-plain 60 (replace_others (to_lower_case gateway_id)) h))
      ∙ first_units_twice 60 (replace_others (to_lower_case gateway_id)))
