-- ===== src/Payments/Saga/Keeps.antt =====
-- payment-saga.service.ts: what no execution of the saga changes, however it ends, with Redis
-- answering.
use queue_system.Prelude.{ℕ, ◌≡◌, refl, String, some, Option-cases, inl, inr}
use queue_system.Prelude.Number.{Number}
use queue_system.Domain.Payment.{PaymentRecord}
use queue_system.Gateway.Guard.{CallOutcome, RefundOutcome}
use queue_system.Payments.Redis.{Redis, IsRedis, json, hget-hset_self}
use queue_system.Payments.World.{GuardPort, Env, World}
use queue_system.Payments.Stores as Stores
use queue_system.Payments.Saga.{
  execute, charge_step, settle_step, settle_failed_step, refund_charge, guard_refund,
}
use queue_system.Payments.Saga.Outcome.{calm}

-- The record at hand is of the same payment with the same status, and so is the stored one; the
-- idempotency records stay.
abbrev pub Keeps : {N : Number} {P : GuardPort N} {R : Redis} → World N P R → World N P R → Type 0
Keeps {R} w w' =
    (w'.current.payment ≡ w.current.payment)
    × (w'.current.status ≡ w.current.status)
    × (w'.idempotency ≡ w.idempotency)
    × ((latest : PaymentRecord) × (R.payments.hget w.current.payment.id w'.payments
          ≡ some (json latest))
        × (latest.payment ≡ w.current.payment)
        × (latest.status ≡ w.current.status))

module _ {N : Number} {P : GuardPort N} {R : Redis} (L : IsRedis R) (env : Env)
    (w : World N P R) where
  Keeps-refused :
      (transaction_id : String) (status : ℕ) (latency : N.Carrier) (g g' : P.State)
      (message : String) (o : RefundOutcome N)
      → P.call w.current.payment w.current.correlation_id w.guard
        ≡ (CallOutcome.ok transaction_id status latency, g)
      → env.ledger_fault w.current.payment ≡ some message
      → P.refund w.current.payment.gateway_id transaction_id g ≡ (o, g')
      → Keeps w (execute (calm env) w).1
  unfolding execute
  Keeps-refused transaction_id status latency g g' message (RefundOutcome.ok rid st lt) called
        refused refunded =
      rw (called, execute)
        (rw (refused, charge_step, settle_step, Stores.settle)
          (rw (refunded, settle_failed_step, refund_charge, guard_refund)
            (refl, refl, refl, (_, hget-hset_self L.payments _ _ _, refl, refl))))
  Keeps-refused transaction_id status latency g g' message (RefundOutcome.fail error) called refused
        refunded =
      rw (called, execute)
        (rw (refused, charge_step, settle_step, Stores.settle)
          (rw (refunded, settle_failed_step, refund_charge, guard_refund)
            (refl, refl, refl, (_, hget-hset_self L.payments _ _ _, refl, refl))))

  Keeps-after :
      (g : P.State) (o : CallOutcome N)
      → P.call w.current.payment w.current.correlation_id w.guard ≡ (o, g)
      → Keeps w (execute (calm env) w).1
  unfolding execute
  Keeps-after g (CallOutcome.fail error) called =
      rw (called, execute) (refl, refl, refl, (_, hget-hset_self L.payments _ _ _, refl, refl))
  Keeps-after g (CallOutcome.ok transaction_id status latency) called =
      elim (Option-cases (env.ledger_fault w.current.payment)) [
        | inl accepted ↦
            rw (called, execute)
              (rw (accepted, charge_step, settle_step, Stores.settle)
                (refl, refl, refl, (_, hget-hset_self L.payments _ _ _, refl, refl)))
        | inr (message, refused) ↦
            Keeps-refused transaction_id status latency g _ message _ called refused refl
      ]

  pub execute-Keeps : Keeps w (execute (calm env) w).1
  execute-Keeps = Keeps-after _ _ refl
