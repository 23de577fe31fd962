-- ===== src/Payments/Processor/Reopen.antt =====
-- payment.processor.ts and idempotency.service.ts: a payment that is finalized between the check of its
-- idempotency record and the taking of its lock, with Redis answering.
use queue_system.Prelude.{◌≡◌, ap, refl, ◌+◌, ℕ, true, String, Option, none, some}
use queue_system.Prelude.Number.{Number}
use queue_system.Domain.Payment.{IdempotencyState, PaymentStatus}
use queue_system.Payments.Exec.{ok}
use queue_system.Payments.Redis.{Redis, IsRedis, get-set_ex_self}
use queue_system.Payments.World.{GuardPort, Env, World, Within}
use queue_system.Payments.Idempotency.{acquire_execution_lock, try_lock, finalize}
use queue_system.Payments.Saga.Outcome.{calm}
use queue_system.Payments.Processor.Terminal.{final_state}

module _ {N : Number} {P : GuardPort N} {R : Redis} (L : IsRedis R) (env : Env) (w : World N P R)
    (id : String) where
  -- With Redis answering, a worker that takes the execution lock after another has finalized the payment
  -- and released the lock puts the idempotency record back to PROCESSING: the payment no longer
  -- counts as finalized.
  pub acquire_execution_lock_reopens :
      (t : ℕ) (status : PaymentStatus) (transaction_id : Option String)
      → R.locks.get (env.clock (w.calls + 1 + 1 + 1)) id w.locks ≡ none
      → Within env.clock env.retention_seconds t
      → Within env.clock env.lease_ttl_seconds t
      → let (r, w1) =
          finalize (calm env) id IdempotencyState.completed status transaction_id none w in
        let (acquired, w2) = acquire_execution_lock (calm env) id w1 in
        (final_state (R.leases.get t id w1.idempotency)
          ≡ some (IdempotencyState.completed, some status))
        × (acquired ≡ ok true)
        × (final_state (R.leases.get t id w2.idempotency)
            ≡ some (IdempotencyState.processing, none))
  unfolding finalize acquire_execution_lock
  acquire_execution_lock_reopens t status transaction_id free kept fresh =
      rw (L.locks.set_ex_nx-free _ _ _ _ _ free, acquire_execution_lock, try_lock)
        (
          ap final_state (get-set_ex_self L.leases t _ _ _ _ _ (kept _)),
          refl,
          ap final_state (get-set_ex_self L.leases t _ _ _ _ _ (fresh _)),
        )
