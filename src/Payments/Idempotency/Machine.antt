-- ===== src/Payments/Idempotency/Machine.antt =====
-- idempotency.service.ts: what the service promises about one payment, as a machine of two fields that
-- knows no time, no record and no Redis.
use queue_system.Prelude.{
  Bool, true, false, Option, none, some, List, [], ◌∷◌, if◌then◌else◌, String,
}
use queue_system.Domain.Payment.{IdempotencyState, PaymentStatus}

pub data Operation : Type 0 where
  claiming releasing locking unlocking : Operation
  -- Completed or failed, then the further arguments of `finalize`.
  finishing : Bool → PaymentStatus → Option String → Option String → Operation

pub data Answer : Type 0 where
  claimed in_progress already_final lock_taken lock_refused done : Answer

-- The state of the idempotency record, if there is one, and whether the execution lock is held.
pub record Entry : Type 0 where
  pub state : Option IdempotencyState
  pub locked : Bool

-- A record can be claimed only if there is none. Taking the lock puts the record to PROCESSING.
abbrev pub respond : Operation → Entry → Answer × Entry
respond claiming e = elim e.state [
  | none ↦ (claimed, record e { state = some IdempotencyState.processing })
  | some s ↦ elim s [ IdempotencyState.processing ↦ (in_progress, e) | _ ↦ (already_final, e) ]
]
respond releasing e = (done, record e { state = none })
respond locking e =
    if e.locked
    then (lock_refused, e)
    else (lock_taken, record { state = some IdempotencyState.processing; locked = true })
respond unlocking e = (done, record e { locked = false })
respond (finishing ok status transaction_id reason) e = (
  done,
  record e { state = some (if ok then IdempotencyState.completed else IdempotencyState.failed) },
)

abbrev pub answers : List Operation → Entry → List Answer
answers [] e = []
answers (op ∷ rest) e = let (a, e') = respond op e in a ∷ answers rest e'
