-- ===== src/Payments/Controller.antt =====
-- src/payments/payments.controller.ts and listDeadLetters of payment.service.ts: the requests. What the
-- dead letter queue lists is an argument. The clock is read before a body is validated.
pub mod Requests
use queue_system.Prelude.{
  ℕ, ◌+◌, Bool, true, false, String, Option, none, some, List, [], ◌∷◌, or_else, length, str_eq,
  filter_by, if◌then◌else◌,
}
use queue_system.Prelude.Number.{Number}
use queue_system.Domain.Json.{Json}
use queue_system.Domain.Payment.{PaymentRecord, PaymentStatus}
use queue_system.Payments.Exec.{Exec, Result, ok, raised, ◌>>=◌, pure, raise}
use queue_system.Payments.Redis.{Redis}
use queue_system.Payments.World.{GuardPort, Env, World, DlqEntry, now}
use queue_system.Payments.Stores.{get_payment}
use queue_system.Payments.Service.{
  CreatePaymentInput, SubmitPaymentResult, created, replayed, Failure, bad_request, Service,
  awaiting, submit,
}
use queue_system.Payments.Service.Validate.{validate_create_payment_input}

pub record PaymentResponse : Type 0 where
  pub http_status : ℕ
  pub id : String
  pub status : PaymentStatus
  pub replayed : Bool
  pub payment : Option PaymentRecord
  pub scheduled_for : Option ℕ

abbrev pub replayed_response : PaymentRecord → PaymentResponse
replayed_response r = record {
  http_status = 200;
  id = r.payment.id;
  status = r.status;
  replayed = true;
  payment = some r;
  scheduled_for = none;
}

abbrev pub created_response : PaymentRecord → PaymentStatus → Option ℕ → PaymentResponse
created_response r status scheduled_for = record {
  http_status = 201;
  id = r.payment.id;
  status = status;
  replayed = false;
  payment = none;
  scheduled_for = scheduled_for;
}

pub record DeadLetter : Type 0 where
  pub payment_id : String
  pub reason : String
  pub dead_lettered_at : ℕ
  pub payment : Option PaymentRecord

-- `e.payment?.gatewayId === gatewayId`
abbrev pub of_gateway : String → DeadLetter → Bool
of_gateway g e = elim e.payment [ none ↦ false | some r ↦ str_eq r.payment.gateway_id g ]

-- `gatewayId ? entries.filter(…) : entries`
abbrev pub dlq_filter : Option String → List DeadLetter → List DeadLetter
dlq_filter none entries = entries
dlq_filter (some g) entries = if str_eq g "" then entries else filter_by (of_gateway g) entries

module _ {N : Number} {P : GuardPort N} {R : Redis} (env : Env)
    (parse_date : String → Option ℕ) where
  -- What the validator refuses is answered with a 400.
  unfoldable pub accepted : Result String CreatePaymentInput → Service N P R CreatePaymentInput
  accepted (ok input) = pure input
  accepted (raised message) = raise (bad_request message)

  -- `POST /payments`
  unfoldable pub submit_request : Option String → Json → Service N P R PaymentResponse
  unfolding now accepted submit
  submit_request current_correlation body = do
    at ← awaiting (now env)
    input ← accepted (validate_create_payment_input parse_date at body)
    result ← submit env input current_correlation
    elim result [
      | replayed r ↦ pure (replayed_response r)
      | created r ↦ pure (created_response r PaymentStatus.queued none)
    ]

  -- `POST /payments/scheduled`
  unfoldable pub schedule_request : Option String → Json → Service N P R PaymentResponse
  unfolding now accepted submit
  schedule_request current_correlation body = do
    at ← awaiting (now env)
    input ← accepted (validate_create_payment_input parse_date at body)
    result ← submit env input current_correlation
    elim result [
      | replayed r ↦ pure (replayed_response r)
      | created r ↦ elim r.payment.scheduled_at [
        | some due ↦ pure (created_response r r.status (some due))
        | none ↦ do
          t ← awaiting (now env)
          pure (created_response r r.status (some (t + or_else input.delay_ms 0)))
      ]
    ]

  -- `listDeadLetters`, with the entries that the queue lists.
  unfoldable pub list_dead_letters : List DlqEntry → Service N P R (List DeadLetter)
  unfolding get_payment
  list_dead_letters [] = pure []
  list_dead_letters (entry ∷ rest) = do
    payment ← awaiting (get_payment env entry.payment_id)
    later ← list_dead_letters rest
    pure (
        record {
          payment_id = entry.payment_id;
          reason = entry.reason;
          dead_lettered_at = entry.dead_lettered_at;
          payment = payment;
        }
        ∷ later)

  -- `GET /queues/dlq`: the count and the entries.
  unfoldable pub dlq_request : Option String → List DlqEntry → Service N P R (ℕ × List DeadLetter)
  unfolding list_dead_letters
  dlq_request gateway_id listed = do
    entries ← list_dead_letters listed
    let filtered = dlq_filter gateway_id entries
    pure (length filtered, filtered)
