-- ===== src/Payments/Service.antt =====
-- src/payments/payment.service.ts: submission under the idempotency lease, and status lookups.
pub mod Body
pub mod RoundTrip
pub mod Validate
pub mod Submit
pub mod Race
pub mod Accepted
use queue_system.Prelude.{ℕ, ◌-◌, Bool, true, false, String, Option, none, some, List, [], or_else}
use queue_system.Prelude.Text.{◌<>◌}
use queue_system.Prelude.Number.{Number}
use queue_system.Domain.Json.{Fields, end}
use queue_system.Domain.Errors.{Raised, message_of}
use queue_system.Domain.Payment.{
  PaymentPriority, normal, PaymentRecord, PaymentStatus, create_payment_record, payment_submitted,
}
use queue_system.Common.Events.{AppEvent, PaymentEvent, PaymentEventType, payment_event}
use queue_system.Payments.Exec.{Exec, Result, ok, raised, ◌>>=◌, ◌>>◌, pure, raise, try_catch}
use queue_system.Payments.Redis.{Redis}
use queue_system.Payments.World.{GuardPort, Env, World, M, EnqueuePaymentJobInput, now}
use queue_system.Payments.Stores.{save, get_payment, audit, emit}
use queue_system.Payments.Queue.{enqueue}
use queue_system.Payments.Idempotency.{ClaimResult, new, conflict, claim, release}
use queue_system.Payments.Idempotency as Idempotency

-- A time is the number of its milliseconds.
pub record CreatePaymentInput : Type 0 where
  pub id : String
  pub amount : ℕ
  pub currency : String
  pub customer_id : String
  pub gateway_id : String
  pub priority : Option PaymentPriority
  pub max_retries : Option ℕ
  pub metadata : Option Fields
  pub scheduled_at : Option ℕ
  pub delay_ms : Option ℕ
  pub correlation_id : Option String

pub data SubmitPaymentResult : Type 0 where
  created replayed : PaymentRecord → SubmitPaymentResult

-- What the service throws: an HTTP exception, or what it does not catch.
pub data Failure : Type 0 where
  bad_request : String → Failure
  not_found : String → String → Failure
  processed_elsewhere : String → PaymentStatus → Failure
  thrown : Raised → Failure

abbrev pub either {ℓ} : {A : Type ℓ} → Option A → Option A → Option A
either none b = b
either (some a) b = some a

-- `existing?.status ?? 'processing'`
abbrev status_or_processing : Option PaymentRecord → PaymentStatus
status_or_processing none = PaymentStatus.processing
status_or_processing (some r) = r.status

module _ (N : Number) (P : GuardPort N) (R : Redis) where
  abbrev pub Service : Type 0 → Type 0
  Service A = Exec (World N P R) Failure A

module _ {N : Number} {P : GuardPort N} {R : Redis} {A : Type 0} where
  abbrev passing : Result Raised A × World N P R → Result Failure A × World N P R
  passing (ok a, w) = (ok a, w)
  passing (raised x, w) = (raised (thrown x), w)

  -- A call that the service awaits, its exceptions not caught.
  abbrev pub awaiting : M N P R A → Service N P R A
  awaiting m w = passing (m w)

module _ {N : Number} {P : GuardPort N} {R : Redis} (env : Env) where
  -- Stale-lease recovery: a lease without a stored payment is released and claimed once more.
  recover : String → ClaimResult → M N P R ClaimResult
  unfolding get_payment release claim
  recover id new = pure new
  recover id (Idempotency.replayed r) = pure (Idempotency.replayed r)
  recover id (conflict r) = do
    existing ← get_payment env id
    elim existing [ some p ↦ pure (conflict r) | none ↦ do release env id; claim env id ]

  unfoldable pub claim_or_recover : String → M N P R ClaimResult
  unfolding claim recover
  claim_or_recover id = do c ← claim env id; recover id c

  replay : String → Service N P R SubmitPaymentResult
  unfolding get_payment
  replay id = do
    existing ← awaiting (get_payment env id)
    elim existing [
      | some p ↦ pure (replayed p)
      | none ↦
          raise (
            not_found "payment already finalized but its record is missing (data inconsistency)" id)
    ]

  -- 'payment is already being processed'
  refuse : String → Service N P R SubmitPaymentResult
  unfolding get_payment
  refuse id = do
    existing ← awaiting (get_payment env id)
    raise (processed_elsewhere id (status_or_processing existing))

  -- The delay from now on, or the one that was asked for.
  delay_of : CreatePaymentInput → M N P R ℕ
  unfolding now
  delay_of input = elim input.scheduled_at [
    | some at ↦ do t ← now env; pure (at - t)
    | none ↦ pure (or_else input.delay_ms 0)
  ]

  -- The record of a new payment.
  make_record : CreatePaymentInput → Option String → M N P R PaymentRecord
  unfolding now
  make_record input current_correlation = do
    t ← now env
    pure (
        create_payment_record
          (record {
            id = input.id;
            amount = input.amount;
            currency = input.currency;
            customer_id = input.customer_id;
            gateway_id = input.gateway_id;
            priority = or_else input.priority normal;
            max_retries = input.max_retries;
            metadata = some (or_else input.metadata end);
            scheduled_at = input.scheduled_at;
            correlation_id = either input.correlation_id current_correlation;
            created_at = none;
          })
          t)

  -- A new payment is audited, stored and announced.
  unfoldable pub register : CreatePaymentInput → Option String → M N P R PaymentRecord
  unfolding make_record audit save now emit
  register input current_correlation = do
    r ← make_record input current_correlation
    audit env input.id payment_submitted []
    save env r
    at ← now env
    emit env (
        payment_event (record {
          type = PaymentEventType.queued;
          payment_id = input.id;
          gateway_id = some r.payment.gateway_id;
          correlation_id = r.correlation_id;
          status = some PaymentStatus.queued;
          at = at;
          detail = [];
        }))
    pure r

  -- A payment that could not be enqueued gives its claim back.
  enqueue_failed : String → Raised → Service N P R SubmitPaymentResult
  unfolding release
  enqueue_failed id err = do
    awaiting (release env id)
    raise (bad_request ("payment could not be queued: " <> message_of err))

  unfoldable pub enqueue_record : PaymentRecord → ℕ → Service N P R SubmitPaymentResult
  unfolding enqueue enqueue_failed
  enqueue_record r delay_ms = do
    failure ← awaiting (
        try_catch
          (do
            enqueue env (record {
              gateway_id = r.payment.gateway_id;
              payment_id = r.payment.id;
              correlation_id = r.correlation_id;
              priority = r.payment.priority;
              max_retries = r.payment.max_retries;
              delay_ms = some delay_ms;
              job_id = r.payment.id;
            })
            pure none)
          (λ err. pure (some err)))
    elim failure [ none ↦ pure (created r) | some err ↦ enqueue_failed r.payment.id err ]

  unfoldable pub submit_claimed :
      ClaimResult → CreatePaymentInput → Option String → Service N P R SubmitPaymentResult
  unfolding replay refuse register delay_of enqueue_record
  submit_claimed (Idempotency.replayed r) input current_correlation = replay input.id
  submit_claimed (conflict r) input current_correlation = refuse input.id
  submit_claimed new input current_correlation = do
    r ← awaiting (register input current_correlation)
    delay_ms ← awaiting (delay_of input)
    enqueue_record r delay_ms

  -- `current_correlation` is what `this.correlation.current()` answers.
  unfoldable pub submit : CreatePaymentInput → Option String → Service N P R SubmitPaymentResult
  unfolding claim_or_recover submit_claimed
  submit input current_correlation = do
    c ← awaiting (claim_or_recover input.id)
    submit_claimed c input current_correlation

  unfoldable pub get_status : String → Service N P R PaymentRecord
  unfolding get_payment
  get_status id = do
    stored ← awaiting (get_payment env id)
    elim stored [ some r ↦ pure r | none ↦ raise (not_found "payment not found" id) ]
