-- ===== src/Tests/Bank.antt =====
-- A provider that counts its charges and refunds, and states of the payments module around it.
use queue_system.Prelude.{ℕ, ◌+◌, ◌≢◌, arith, none, some, [], ◌==◌, if◌then◌else◌}
use queue_system.Prelude.Maps.{empty, set, Map}
use queue_system.Prelude.Number.{whole_number}
use queue_system.Domain.Errors.{
  PaymentProcessingError, Raised, processing, new_error, card_declined, server_error,
}
use queue_system.Domain.Json.{Json, object, field, text, number, whole, end}
use queue_system.Domain.Payment.{
  PaymentRecord, PaymentStatus, SagaState, IdempotencyRecord, IdempotencyState, normal,
}
use queue_system.Gateway.Guard.{CallOutcome, RefundOutcome}
use queue_system.Payments.Redis.{Doc, json}
use queue_system.Payments.Redis.Memory.{memory_redis}
use queue_system.Payments.World.{Within, GuardPort, Env, World}
use queue_system.Payments.Idempotency as Idempotency
use queue_system.Payments.Saga.{SagaOutcome}
use queue_system.Payments.Processor.{Job}
use queue_system.Payments.Service.{CreatePaymentInput}

abbrev pub bank_answer : ℕ → CallOutcome whole_number
bank_answer amount =
    if amount == 13
    then CallOutcome.fail (new_error "declined" card_declined (some 400) (some "g1"))
    else if amount == 14
    then CallOutcome.fail (new_error "busy" server_error (some 500) (some "g1"))
    else CallOutcome.ok "tx9" 200 5

-- The state counts charges and refunds.
abbrev pub bank : GuardPort whole_number
bank = record {
  State = ℕ × ℕ;
  call = λ p c s. (bank_answer p.amount, (s.0 + 1, s.1));
  refund = λ g t s. (RefundOutcome.ok "rf4" 200 5, (s.0, s.1 + 1));
}

abbrev pub env0 : Env
env0 = record {
  lease_ttl_seconds = 60;
  retention_seconds = 3600;
  backoff_base_ms = 500;
  clock = λ n. n;
  fault = λ _. none;
  ledger_fault = λ _. none;
  queue_fault = λ _. none;
}

pub lease_lasts : Within env0.clock env0.lease_ttl_seconds 5
lease_lasts n = omega arith

pub retention_lasts : Within env0.clock env0.retention_seconds 5
retention_lasts n = omega arith

abbrev pub refusing_ledger : Env
refusing_ledger = record env0 { ledger_fault = λ _. some "ledger down" }

abbrev pub refusing_queue : Env
refusing_queue = record env0 { queue_fault = λ _. some "queue down" }

-- Redis refuses the eighth call.
abbrev pub failing_redis : Env
failing_redis = record env0 { fault = λ n. if n == 7 then some "redis down" else none }

abbrev pub record_of : ℕ → PaymentRecord
record_of amount = record {
  payment = record {
    id = "p1";
    amount = amount;
    currency = "EUR";
    customer_id = "c1";
    gateway_id = "g1";
    priority = normal;
    max_retries = 3;
    metadata = end;
    created_at = 0;
    scheduled_at = none;
  };
  status = PaymentStatus.processing;
  retry_count = 0;
  saga_state = SagaState.idle;
  history = [];
  job_id = none;
  reservation_id = none;
  transaction_id = none;
  refund_id = none;
  failure_reason = none;
  correlation_id = none;
  processed_at = none;
  completed_at = none;
}

abbrev pub world_of : ℕ → World whole_number bank memory_redis
world_of amount = record {
  idempotency = empty;
  locks = empty;
  payments = set "p1" (json (record_of amount)) empty;
  audit = λ _. [];
  settlements = λ _. [];
  events = [];
  jobs = [];
  dlq = [];
  guard = (0, 0);
  current = record_of amount;
  calls = 0;
}

abbrev pub finished : PaymentRecord
finished = record (record_of 700) { status = PaymentStatus.completed }

abbrev pub idem_of : IdempotencyState → IdempotencyRecord
idem_of state = record (Idempotency.lease "p1" none 0) { state = state }

abbrev pub claimed_world :
    IdempotencyState → Map (Doc PaymentRecord) → World whole_number bank memory_redis
claimed_world state payments = record (world_of 700) {
  idempotency = set "p1" (record { value = json (idem_of state); expires_at = 900 }) empty;
  payments = payments;
}

abbrev pub locked_world : World whole_number bank memory_redis
locked_world = record (world_of 700) {
  locks = set "p1" (record { value = tt; expires_at = 900 }) empty;
}

pub finished_apart : IdempotencyState.completed ≢ IdempotencyState.processing
finished_apart = ground arith

abbrev pub job0 : Job
job0 = record { id = "p1"; payment_id = "p1"; correlation_id = none; attempts_made = 0 }

abbrev pub input0 : CreatePaymentInput
input0 = record {
  id = "p1";
  amount = 700;
  currency = "EUR";
  customer_id = "c1";
  gateway_id = "g1";
  priority = none;
  max_retries = some 2;
  metadata = none;
  scheduled_at = none;
  delay_ms = none;
  correlation_id = none;
}

abbrev pub fresh_world : World whole_number bank memory_redis
fresh_world = record (world_of 700) { payments = empty }

abbrev pub saga_outcome0 : SagaOutcome
saga_outcome0 = record { transaction_id = "tx9"; reservation_id = "res_p1_0" }

abbrev pub busy_error : PaymentProcessingError
busy_error = new_error "busy" server_error (some 500) (some "g1")

abbrev pub busy : Raised
busy = processing busy_error

abbrev pub declined_error : PaymentProcessingError
declined_error = new_error "declined" card_declined (some 400) (some "g1")

abbrev pub declined : Raised
declined = processing declined_error

abbrev pub body0 : Json
body0 = object (
    field "id" (text "p1") (
      field "amount" (number (whole 700)) (
        field "currency" (text "EUR") (
          field "customerId" (text "c1")
            (field "gatewayId" (text "g1") (field "delayMs" (number (whole 250)) end))))))

abbrev pub accepted0 : CreatePaymentInput
accepted0 = record input0 {
  priority = some normal;
  max_retries = some 3;
  metadata = some end;
  delay_ms = some 250;
}
