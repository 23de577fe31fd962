-- ===== src/Payments/World.antt =====
-- The state that the payment services share, and their calls to the outside. Redis is an interface;
-- the lists are append-only logs, oldest entry first. The n-th call to the
-- outside happens at the time `clock n`, and rejects with the message `fault n`, if that is one.
use queue_system.Prelude.{ℕ, ◌+◌, ◌*◌, ◌<◌, Bool, String, Option, none, some, List}
use queue_system.Prelude.Number.{Number}
use queue_system.Domain.Errors.{Raised, other}
use queue_system.Domain.Payment.{Payment, PaymentPriority, PaymentRecord, PaymentJobData}
use queue_system.Common.Events.{AppEvent}
use queue_system.Gateway.Guard.{CallOutcome, RefundOutcome}
use queue_system.Payments.Exec.{Exec, ok, raised}
use queue_system.Payments.Redis.{Redis}

-- The gateway guard as the saga sees it.
pub record GuardPort (N : Number) : Type 1 where
  pub State : Type 0
  pub call : Payment → Option String → State → CallOutcome N × State
  pub refund : String → String → State → RefundOutcome N × State

pub record DlqEntry : Type 0 where
  pub payment_id : String
  pub correlation_id : Option String
  pub reason : String
  pub dead_lettered_at : ℕ

pub record EnqueuePaymentJobInput : Type 0 where
  pub gateway_id : String
  pub payment_id : String
  pub correlation_id : Option String
  pub priority : PaymentPriority
  pub max_retries : ℕ
  pub delay_ms : Option ℕ
  pub job_id : String

-- What `queue.add` is given: the job's data and its options.
pub record QueuedJob : Type 0 where
  pub name : String
  pub data_of : PaymentJobData
  pub job_id : String
  pub priority : ℕ
  pub delay : ℕ
  pub attempts : ℕ
  pub backoff_base_ms : ℕ
  pub remove_on_complete : Bool

-- The parts of `AppConfig` that the services read, and the environment.
pub record Env : Type 0 where
  pub lease_ttl_seconds : ℕ
  pub retention_seconds : ℕ
  pub backoff_base_ms : ℕ
  pub clock : ℕ → ℕ
  pub fault : ℕ → Option String
  -- What the ledger and the queue answer, where they are replaced or refuse: the message thrown.
  pub ledger_fault : Payment → Option String
  pub queue_fault : EnqueuePaymentJobInput → Option String

-- A time to live of so many seconds that starts at any reading of the clock is not over at `t`.
abbrev pub Within : (ℕ → ℕ) → ℕ → ℕ → Type 0
Within clock seconds t = (n : ℕ) → t < clock n + 1000 * seconds

module _ (N : Number) (P : GuardPort N) (R : Redis) where
  pub record World : Type 0 where
    pub idempotency : R.leases.State
    pub locks : R.locks.State
    pub payments : R.payments.State
    pub audit : R.audit.State
    pub settlements : R.settlements.State
    pub events : List (AppEvent N)
    -- What was handed to the queues of the gateways, and to the dead letter queue.
    pub jobs : List QueuedJob
    pub dlq : List DlqEntry
    pub guard : P.State
    -- The record object that the worker and the saga share.
    pub current : PaymentRecord
    pub calls : ℕ

  abbrev pub M : Type 0 → Type 0
  M A = Exec World Raised A

module _ {N : Number} {P : GuardPort N} {R : Redis} (env : Env) where
  -- `new Date()`: a call that cannot fail.
  unfoldable pub now : M N P R ℕ
  now w = (ok (env.clock w.calls), record w { calls = w.calls + 1 })

  -- A call to Redis or BullMQ: it rejects and changes nothing, or does `f` at its time.
  unfoldable pub external : {A : Type 0} → (ℕ → World N P R → A × World N P R) → M N P R A
  external f w =
      let w1 : World N P R = record w { calls = w.calls + 1 } in
      elim (env.fault w.calls) [
        | some message ↦ (raised (other message), w1)
        | none ↦ let (a, w2) = f (env.clock w.calls) w1 in (ok a, w2)
      ]

  -- Work on the shared record object.
  unfoldable pub modify : (PaymentRecord → PaymentRecord) → M N P R (Unit {0})
  modify f w = (ok tt, record w { current = f w.current })
