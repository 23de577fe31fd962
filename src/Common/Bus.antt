-- ===== src/Common/Bus.antt =====
-- src/common/event-bus.ts: subscriptions and delivery. Listeners are known by their identity; what one
-- does, a throw included, is a parameter.
pub mod Delivered
use queue_system.Prelude.{
  ℕ, ◌==◌, Bool, true, false, String, Option, none, some, List, [], ◌∷◌, ◌++◌, or_else,
  if◌then◌else◌, filter_by, not,
}
use queue_system.Prelude.Maps.{Map, set}

-- A JavaScript `Set` of listeners, in the order in which they were added.
abbrev pub Listeners : Type 0
Listeners = List ℕ

abbrev pub has : ℕ → Listeners → Bool
has l [] = false
has l (k ∷ ks) = let rest = has l ks in if k == l then true else rest

-- The bus: the listeners of each type of event.
abbrev pub EventBus : Type 0
EventBus = Map Listeners

-- `set.add(listener)`: a listener that is there already stays where it is.
unfoldable pub add : ℕ → Listeners → Listeners
add l ls = if has l ls then ls else ls ++ l ∷ []

unfoldable pub on : String → ℕ → EventBus → EventBus
unfolding add
on type l bus = set type (add l (or_else (bus type) [])) bus

-- What `on` answers: `set.delete(listener)`.
unfoldable pub off : String → ℕ → EventBus → EventBus
off type l bus = elim (bus type) [
  | none ↦ bus
  | some ls ↦ set type (filter_by (λ k. not (k == l)) ls) bus
]

module _ {ℓ} {S E : Type ℓ} (type_of : E → String) (listen : ℕ → E → S → Bool × S) where
  -- The listeners one after another, a failure of one (`false`) being swallowed.
  unfoldable pub deliver_all : E → Listeners → S → S
  deliver_all e [] s = s
  deliver_all e (l ∷ ls) s = deliver_all e ls (listen l e s).1

  -- The listeners are those of the moment of the call, whatever they do to the bus.
  unfoldable pub emit : (S → EventBus) → E → S → S
  unfolding deliver_all
  emit bus_of e s = elim (bus_of s (type_of e)) [ none ↦ s | some ls ↦ deliver_all e ls s ]
