-- ===== src/Common/Bus/Delivered.antt =====
-- event-bus.ts: who is called by an emission.
use mathlib.Core.List.{append-nil, append_assoc}
use queue_system.Prelude.{
  ℕ, ◌≡◌, ◌∙◌, sym, Bool, String, List, [], ◌∷◌, ◌++◌, or_else, Option-cases, inl, inr,
}
use queue_system.Common.Bus.{EventBus, Listeners, emit, deliver_all}

-- A listener that notes that it was called, does what it likes to the bus, and may throw.
abbrev pub noting :
    (ℕ → Bool)
    → (ℕ → EventBus → EventBus)
    → ℕ
    → String
    → EventBus × List ℕ
    → Bool × (EventBus × List ℕ)
noting fine change l e (bus, log) = (fine l, (change l bus, log ++ l ∷ []))

module _ (fine : ℕ → Bool) (change : ℕ → EventBus → EventBus) where
  deliver_all-log :
      (ls : Listeners) (e : String) (bus : EventBus) (log : List ℕ)
      → (deliver_all (λ e. e) (noting fine change) e ls (bus, log)).1 ≡ log ++ ls
  unfolding deliver_all
  deliver_all-log [] e bus log = sym (append-nil log)
  deliver_all-log (l ∷ ls) e bus log =
      deliver_all-log ls e (change l bus) (log ++ l ∷ []) ∙ append_assoc log (l ∷ []) ls

  -- An event is delivered to the listeners that are subscribed when it is emitted, to each once and in
  -- the order of their subscription, whichever of them throw and whatever they do to the bus.
  pub emit-log :
      (bus : EventBus) (e : String) (log : List ℕ)
      → (emit (λ e. e) (noting fine change) (λ s. s.0) e (bus, log)).1 ≡ log ++ or_else (bus e) []
  unfolding emit
  emit-log bus e log = elim (Option-cases (bus e)) [
    | inl none_there ↦ rw (none_there, emit) (sym (append-nil log))
    | inr (ls, there) ↦ rw (there, emit) (deliver_all-log ls e bus log)
  ]
