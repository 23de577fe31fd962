-- ===== src/Tests/Bus.antt =====
-- The event bus with three listeners, one of which fails and one of which unsubscribes another.
use queue_system.Prelude.{ℕ, ◌≡◌, ◌==◌, not, [], ◌∷◌, if◌then◌else◌}
use queue_system.Prelude.Maps.{empty}
use queue_system.Common.Bus.{EventBus, on, off, emit}
use queue_system.Common.Bus.Delivered.{noting, emit-log}

abbrev bus0 : EventBus
bus0 =
    on "circuit.opened" 5
      (on "circuit.opened" 8 (on "circuit.opened" 5 (on "circuit.opened" 3 empty)))

abbrev unsubscribing : ℕ → EventBus → EventBus
unsubscribing l bus = if l == 3 then off "circuit.opened" 8 bus else bus

delivered :
    (emit
      (λ e. e)
      (noting (λ l. not (l == 5)) unsubscribing)
      (λ s. s.0)
      "circuit.opened"
      (bus0, 1 ∷ [])).1
    ≡ 1 ∷ 3 ∷ 5 ∷ 8 ∷ []
unfolding on
delivered = emit-log (λ l. not (l == 5)) unsubscribing bus0 "circuit.opened" (1 ∷ [])
