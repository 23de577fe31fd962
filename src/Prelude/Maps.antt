-- ===== src/Prelude/Maps.antt =====
-- `Map<string, V>` and Redis keys as functions of the key.
use Prim.Native.String.{String}
use mathlib.Core.Path.{◌≡◌}
use mathlib.Core.Bool.{false}
use mathlib.Core.Option.{Option, none, some}
use text.Mathlib.TextPositions.{eq_refl}
use queue_system.Prelude.Tests.{str_eq, if◌then◌else◌}

abbrev pub Map {ℓ} : Type ℓ → Type ℓ
Map V = String → Option V

module _ {ℓ} {V : Type ℓ} where
  abbrev pub empty : Map V
  empty k = none

  abbrev pub set : String → V → Map V → Map V
  set key v m k = if str_eq key k then some v else m k

  abbrev pub delete : String → Map V → Map V
  delete key m k = if str_eq key k then none else m k

  -- The values of a map, each changed by `f`.
  abbrev pub map_values : (V → V) → Map V → Map V
  map_values f m k = elim (m k) [ none ↦ none | some v ↦ some (f v) ]

  pub set_self : (key : String) (v : V) (m : Map V) → set key v m key ≡ some v
  set_self key v m = rw (eq_refl key)

  pub set_other : (key k : String) (v : V) (m : Map V) → str_eq key k ≡ false → set key v m k ≡ m k
  set_other key k v m h = rw h

  pub delete_self : (key : String) (m : Map V) → delete key m key ≡ none
  delete_self key m = rw (eq_refl key)
