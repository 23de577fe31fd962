-- ===== src/Metrics/Broadcast.antt =====
-- src/metrics/metrics.gateway.ts: the socket gateway. What it emits is appended to `sent`; `server` says
-- whether the socket server is there. Its seven listeners have the identities `first`, `first + 1`, …,
-- those of new functions.
pub mod Forwards
pub mod Silent
use queue_system.Prelude.{
  ℕ, ◌+◌, ◌-◌, Bool, true, false, String, Option, List, [], ◌∷◌, ◌++◌, ltb, ◌==◌, if◌then◌else◌,
}
use queue_system.Prelude.Number.{Number}
use queue_system.Domain.Payment.{PaymentStatus, SagaPhase}
use queue_system.Common.Events.{
  AppEvent, PaymentEvent, PaymentEventType, PhaseOutcome, MetricsAlertPayload, payment_event,
  job_completed, job_failed, circuit_opened, circuit_closed, rate_limit_throttled, saga_phase,
  metrics_alert,
}
use queue_system.Common.Bus.{EventBus, on, off, emit}
use queue_system.Payments.Exec.{Result, ok, raised, Exec}
use queue_system.Metrics.Refresh.{MetricsSnapshot}

-- The `type` of an event.
abbrev pub payment_type : PaymentEventType → String
payment_type PaymentEventType.queued = "payment.queued"
payment_type PaymentEventType.processing = "payment.processing"
payment_type PaymentEventType.completed = "payment.completed"
payment_type PaymentEventType.failed = "payment.failed"
payment_type PaymentEventType.dead_lettered = "payment.dead_lettered"

abbrev pub type_of : {N : Number} → AppEvent N → String
type_of (payment_event e) = payment_type e.type
type_of (job_completed id gateway_id fine duration_ms at) = "job.completed"
type_of (job_failed id gateway_id reason at) = "job.failed"
type_of (circuit_opened gateway_id at) = "circuit.opened"
type_of (circuit_closed gateway_id at) = "circuit.closed"
type_of (rate_limit_throttled gateway_id at) = "rate_limit.throttled"
type_of (saga_phase id gateway_id phase outcome at) = "saga.phase"
type_of (metrics_alert alert at) = "metrics.alert"

pub record PaymentMessage : Type 0 where
  pub type : PaymentEventType
  pub payment_id : String
  pub gateway_id : Option String
  pub status : Option PaymentStatus
  pub at : ℕ
  pub detail : List (String × String)

module _ (N : Number) where
  -- `server.emit`, by the name of the message.
  pub data Message : Type 0 where
    metrics_snapshot : MetricsSnapshot N → Message
    payment_message : PaymentMessage → Message
    payment_flow : String → String → SagaPhase → PhaseOutcome → ℕ → Message
    alert_raised : MetricsAlertPayload N → Message

  pub record MetricsGateway : Type 0 where
    pub unsubscribe : List (String × ℕ)
    pub timer : Bool
    pub server : Bool
    pub sent : List Message

  -- The gateway, and the bus that it shares with the rest of the system.
  pub record Wired : Type 0 where
    pub gateway : MetricsGateway
    pub bus : EventBus

unfoldable pub unsubscribe_all : List (String × ℕ) → EventBus → EventBus
unsubscribe_all [] bus = bus
unsubscribe_all ((type, l) ∷ rest) bus = unsubscribe_all rest (off type l bus)

module _ {N : Number} where
  send : Message N → MetricsGateway N → MetricsGateway N
  send m g = if g.server then record g { sent = g.sent ++ m ∷ [] } else g

  unfoldable pub broadcast_payment_event : AppEvent N → MetricsGateway N → MetricsGateway N
  unfolding send
  broadcast_payment_event (payment_event e) g =
      send
        (payment_message (record {
          type = e.type;
          payment_id = e.payment_id;
          gateway_id = e.gateway_id;
          status = e.status;
          at = e.at;
          detail = e.detail;
        }))
        g
  broadcast_payment_event _ g = g

  unfoldable pub forward_phase : AppEvent N → MetricsGateway N → MetricsGateway N
  unfolding send
  forward_phase (saga_phase id gateway_id phase outcome at) g =
      send (payment_flow id gateway_id phase outcome at) g
  forward_phase _ g = g

  unfoldable pub forward_alert : AppEvent N → MetricsGateway N → MetricsGateway N
  unfolding send
  forward_alert (metrics_alert alert at) g = send (alert_raised alert) g
  forward_alert _ g = g

  unfoldable pub on_module_destroy : Wired N → Wired N
  unfolding unsubscribe_all
  on_module_destroy w = record {
    gateway = record w.gateway { timer = false };
    bus = unsubscribe_all w.gateway.unsubscribe w.bus;
  }

  module _ (first : ℕ) where
    -- `this.unsubscribe.push(this.events.on(type, listener))`
    subscribe : String → ℕ → Wired N → Wired N
    subscribe type l w = record w {
      gateway = record w.gateway { unsubscribe = w.gateway.unsubscribe ++ (type, l) ∷ [] };
      bus = on type l w.bus;
    }

    unfoldable pub on_module_init : Wired N → Wired N
    unfolding subscribe
    on_module_init w =
        let w1 = subscribe "payment.queued" first w in
        let w2 = subscribe "payment.processing" (first + 1) w1 in
        let w3 = subscribe "payment.completed" (first + 2) w2 in
        let w4 = subscribe "payment.failed" (first + 3) w3 in
        let w5 = subscribe "payment.dead_lettered" (first + 4) w4 in
        let w6 = subscribe "saga.phase" (first + 5) w5 in
        let w7 = subscribe "metrics.alert" (first + 6) w6 in
        record w7 { gateway = record w7.gateway { timer = true } }

    -- The listeners of the gateway; any other is said by `throws` to throw or not, and leaves the
    -- gateway and the subscriptions alone.
    unfoldable pub listen : (ℕ → Bool) → ℕ → AppEvent N → Wired N → Bool × Wired N
    unfolding broadcast_payment_event forward_phase forward_alert
    listen throws l e w =
        if ltb l first
        then (throws l, w)
        else if ltb l (first + 5)
        then (true, record w { gateway = broadcast_payment_event e w.gateway })
        else if l == first + 5
        then (true, record w { gateway = forward_phase e w.gateway })
        else if l == first + 6
        then (true, record w { gateway = forward_alert e w.gateway })
        else (throws l, w)

    -- The events of the system, one after another.
    unfoldable pub emit_all : (ℕ → Bool) → List (AppEvent N) → Wired N → Wired N
    unfolding listen
    emit_all throws [] w = w
    emit_all throws (e ∷ rest) w =
        emit_all throws rest (emit type_of (listen throws) (λ v. v.bus) e w)

  -- The periodic tick: without a server nothing is refreshed.
  unfoldable pub push_snapshot :
      {C X : Type 0} → Exec C X (MetricsSnapshot N) → MetricsGateway N × C → MetricsGateway N × C
  unfolding send
  push_snapshot refresh (g, c) =
      let (result, c') = refresh c in
      if g.server
      then (elim result [ ok snapshot ↦ send (metrics_snapshot snapshot) g | raised x ↦ g ], c')
      else (g, c)
