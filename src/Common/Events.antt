-- ===== src/Common/Events.antt =====
-- src/common/event-bus.ts: the events that the parts of the system exchange.
use queue_system.Prelude.{ℕ, Bool, String, Option, List}
use queue_system.Prelude.Number.{Number}
use queue_system.Domain.Payment.{PaymentStatus, SagaPhase}

pub data PaymentEventType : Type 0 where
  queued processing completed failed dead_lettered : PaymentEventType

pub data Severity : Type 0 where
  critical warning : Severity

pub data PhaseOutcome : Type 0 where
  ok failed : PhaseOutcome

pub record PaymentEvent : Type 0 where
  pub type : PaymentEventType
  pub payment_id : String
  pub gateway_id : Option String
  pub correlation_id : Option String
  pub status : Option PaymentStatus
  pub at : ℕ
  pub detail : List (String × String)

module _ (N : Number) where
  pub record MetricsAlertPayload : Type 0 where
    pub id : String
    pub severity : Severity
    pub message : String
    pub value : Option N.Carrier
    pub threshold : Option N.Carrier
    pub raised_at : ℕ

  -- `at` is the last argument of each.
  pub data AppEvent : Type 0 where
    payment_event : PaymentEvent → AppEvent
    job_completed : String → String → Bool → ℕ → ℕ → AppEvent
    job_failed : String → String → String → ℕ → AppEvent
    circuit_opened : String → ℕ → AppEvent
    circuit_closed : String → ℕ → AppEvent
    rate_limit_throttled : String → ℕ → AppEvent
    saga_phase : String → String → SagaPhase → PhaseOutcome → ℕ → AppEvent
    metrics_alert : MetricsAlertPayload → ℕ → AppEvent
