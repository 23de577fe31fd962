-- ===== src/Tests/Broadcast.antt =====
-- The socket gateway on a bus with one other listener.
use queue_system.Prelude.{
  ◌≡◌, refl, arith, true, false, none, some, List, [], ◌∷◌, str_eq, Bool-cases, inl, inr,
}
use queue_system.Prelude.Number.{whole_number}
use queue_system.Prelude.Maps.{set, empty}
use queue_system.Common.Events.{AppEvent, payment_event, circuit_opened, PaymentEventType}
use queue_system.Common.Bus.{EventBus}
use queue_system.Metrics.Broadcast.{Wired, on_module_init, on_module_destroy, emit_all}
use queue_system.Metrics.Broadcast.Forwards.{OlderBus, all_forwarded}
use queue_system.Metrics.Broadcast.Silent.{on_module_destroy-silent}

abbrev queued : AppEvent whole_number
queued = payment_event (record {
  type = PaymentEventType.queued;
  payment_id = "p";
  gateway_id = some "stripe";
  correlation_id = none;
  status = none;
  at = 5;
  detail = [];
})

abbrev bus0 : EventBus
bus0 = set "payment.queued" (3 ∷ []) empty

abbrev wired0 : Wired whole_number
wired0 = record {
  gateway = record { unsubscribe = []; timer = false; server = true; sent = [] };
  bus = bus0;
}

bus0-OlderBus : OlderBus 10 bus0
bus0-OlderBus type = elim (Bool-cases (str_eq "payment.queued" type)) [
  | inl its ↦ rw its (omega arith, tt)
  | inr other ↦ rw other tt
]

abbrev before0 : List (AppEvent whole_number)
before0 = queued ∷ circuit_opened "stripe" 6 ∷ []

on_module_destroy-silent_example :
    let w' =
      emit_all 10
        (λ _. false)
        (queued ∷ [])
        (on_module_destroy (emit_all 10 (λ _. false) before0 (on_module_init 10 wired0))) in
    (w'.gateway.timer ≡ false) × (w'.gateway.sent ≡ all_forwarded before0)
on_module_destroy-silent_example =
    on_module_destroy-silent 10 (λ _. false) before0 (queued ∷ []) wired0 bus0-OlderBus refl refl
