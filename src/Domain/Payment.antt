-- ===== src/Domain/Payment.antt =====
-- src/domain/payment.ts: payments, their records, and the transitions of a record. An ISO timestamp
-- is the number of milliseconds that it stands for.
use queue_system.Prelude.{
  ℕ, ◌+◌, Bool, true, false, String, Option, none, some, List, [], ◌∷◌, ◌++◌, or_else, str_eq,
  if◌then◌else◌,
}
use queue_system.Prelude.Text.{◌<>◌, to_string}
use queue_system.Domain.Json.{Fields, end}

pub data PaymentPriority : Type 0 where
  high normal low : PaymentPriority

unfoldable pub priority_to_numeric : PaymentPriority → ℕ
priority_to_numeric high = 1
priority_to_numeric normal = 2
priority_to_numeric low = 3

pub data PaymentStatus : Type 0 where
  queued processing completed failed dead_letter : PaymentStatus

abbrev pub default_max_retries : ℕ
default_max_retries = 3

pub record Payment : Type 0 where
  pub id : String
  pub amount : ℕ
  pub currency : String
  pub customer_id : String
  pub gateway_id : String
  pub priority : PaymentPriority
  pub max_retries : ℕ
  pub metadata : Fields
  pub created_at : ℕ
  pub scheduled_at : Option ℕ

pub data SagaPhase : Type 0 where
  reserve charge settle compensation : SagaPhase

pub data SagaState : Type 0 where
  idle reserved charged settled compensated failed : SagaState

pub record SagaHistoryEntry : Type 0 where
  pub phase : SagaPhase
  pub event : String
  pub at : ℕ
  pub detail : Option String

pub record PaymentRecord : Type 0 where
  pub payment : Payment
  pub open payment use *
  pub status : PaymentStatus
  pub retry_count : ℕ
  pub saga_state : SagaState
  pub history : List SagaHistoryEntry
  pub job_id : Option String
  pub reservation_id : Option String
  pub transaction_id : Option String
  pub refund_id : Option String
  pub failure_reason : Option String
  pub correlation_id : Option String
  pub processed_at : Option ℕ
  pub completed_at : Option ℕ

pub record NewPayment : Type 0 where
  pub id : String
  pub amount : ℕ
  pub currency : String
  pub customer_id : String
  pub gateway_id : String
  pub priority : PaymentPriority
  pub max_retries : Option ℕ
  pub metadata : Option Fields
  pub scheduled_at : Option ℕ
  pub correlation_id : Option String
  pub created_at : Option ℕ

-- `clock` is what `new Date()` reads, if `createdAt` is not given.
unfoldable pub create_payment_record : NewPayment → ℕ → PaymentRecord
create_payment_record input clock = record {
  payment = record {
    id = input.id;
    amount = input.amount;
    currency = input.currency;
    customer_id = input.customer_id;
    gateway_id = input.gateway_id;
    priority = input.priority;
    max_retries = or_else input.max_retries default_max_retries;
    metadata = or_else input.metadata end;
    created_at = or_else input.created_at clock;
    scheduled_at = input.scheduled_at;
  };
  status = queued;
  retry_count = 0;
  saga_state = idle;
  history = [];
  job_id = none;
  reservation_id = none;
  transaction_id = none;
  refund_id = none;
  failure_reason = none;
  correlation_id = input.correlation_id;
  processed_at = none;
  completed_at = none;
}

-- `record.history.push(…)`
abbrev pub push_history : PaymentRecord → SagaPhase → String → Option String → ℕ → PaymentRecord
push_history r phase event detail at = record r {
  history = r.history ++ record { phase = phase; event = event; at = at; detail = detail } ∷ [];
}

unfoldable pub transition_to_processing : PaymentRecord → ℕ → ℕ → PaymentRecord
transition_to_processing r attempt at =
    push_history (record r { status = processing; retry_count = attempt; processed_at = some at })
      reserve ("attempt " <> to_string (attempt + 1) <> " started") none at

-- `if (transactionId)` is false for `undefined` and for the empty text.
abbrev pub truthy : Option String → Bool
truthy none = false
truthy (some s) = if str_eq s "" then false else true

unfoldable pub transition_to_completed : PaymentRecord → Option String → ℕ → PaymentRecord
transition_to_completed r transaction_id at = record r {
  status = completed;
  completed_at = some at;
  transaction_id = if truthy transaction_id then transaction_id else r.transaction_id;
}

unfoldable pub transition_to_failed : PaymentRecord → String → ℕ → PaymentRecord
transition_to_failed r failure_reason at =
    push_history (record r { status = failed; failure_reason = some failure_reason }) settle
      "failed" (some failure_reason) at

unfoldable pub transition_to_dead_letter : PaymentRecord → String → ℕ → PaymentRecord
transition_to_dead_letter r reason at =
    push_history (record r { status = dead_letter; failure_reason = some reason }) compensation
      "dead_lettered" (some reason) at

pub data IdempotencyState : Type 0 where
  processing completed failed : IdempotencyState

pub record IdempotencyRecord : Type 0 where
  pub payment_id : String
  pub state : IdempotencyState
  pub payment_status : Option PaymentStatus
  pub transaction_id : Option String
  pub failure_reason : Option String
  pub claimed_at : Option ℕ
  pub updated_at : Option ℕ

pub data AuditType : Type 0 where
  payment_submitted payment_queued payment_processing payment_completed : AuditType
  payment_failed payment_dead_lettered saga_reserve saga_charge saga_settle : AuditType
  saga_compensate_release_funds saga_compensate_refund_charge : AuditType
  idempotency_claimed idempotency_finalized : AuditType

-- The keys and values of `detail` are text, numbers rendered in decimal.
pub record AuditEvent : Type 0 where
  pub payment_id : String
  pub type : AuditType
  pub at : ℕ
  pub detail : List (String × String)

pub record PaymentJobData : Type 0 where
  pub payment_id : String
  pub correlation_id : Option String

abbrev pub queue_job_name : String
queue_job_name = "payment"

abbrev pub dlq_queue_name : String
dlq_queue_name = "dlq"

abbrev pub dlq_job_name : String
dlq_job_name = "dead-letter"
