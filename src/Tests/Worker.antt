-- ===== src/Tests/Worker.antt =====
-- The worker at concrete values.
use queue_system.Prelude.{arith, true, ◌≡◌, refl, none, some, [], ◌∷◌, ◌++◌}
use queue_system.Prelude.Maps.{empty, set}
use queue_system.Prelude.Text.{◌<>◌}
use queue_system.Prelude.Number.{whole_number}
use queue_system.Domain.Payment.{PaymentStatus, IdempotencyState}
use queue_system.Payments.Exec.{ok}
use queue_system.Payments.Redis.{json}
use queue_system.Payments.World.{World}
use queue_system.Payments.Idempotency.{finalize, acquire_execution_lock}
use queue_system.Payments.Saga.Outcome.{calm}
use queue_system.Payments.Processor.{
  dead_letter, skipped, finalize_dead_letter, process_job, status_text, attempt,
}
use queue_system.Payments.Processor.Terminal.{
  stored_status, final_state, dlq_outline, finalize_dead_letter_moves,
}
use queue_system.Payments.Processor.Reopen.{acquire_execution_lock_reopens}
use queue_system.Payments.Processor.Attempt.{Untouched, process_job-finalized, process_job-attempts}
use queue_system.Tests.Bank.{
  bank, env0, record_of, world_of, finished, idem_of, claimed_world, finished_apart, job0,
}
use queue_system.Payments.Redis.Memory.{memory_redis, memory_redis-IsRedis}
use queue_system.Payments.Delivery.{deliver}
use queue_system.Payments.Delivery.Attempts.{Ended}
use queue_system.Payments.Delivery.Ends.{deliver_ends}
use queue_system.Tests.Bank.{lease_lasts, retention_lasts}

finalize_dead_letter_moves_example :
    let (result, w') =
      finalize_dead_letter (calm env0) (record_of 700) "card refused" none (world_of 700) in
    (result ≡ ok (dead_letter (record_of 700).payment.id "card refused"))
    × (stored_status (memory_redis.payments.hget (record_of 700).payment.id w'.payments)
        ≡ some PaymentStatus.dead_letter)
    × (final_state (memory_redis.leases.get 5 (record_of 700).payment.id w'.idempotency)
        ≡ some (IdempotencyState.failed, some PaymentStatus.dead_letter))
    × (dlq_outline w'.dlq
        ≡ dlq_outline (world_of 700).dlq ++ ((record_of 700).payment.id, "card refused") ∷ [])
    × (w'.guard ≡ (world_of 700).guard)
    × (w'.settlements ≡ (world_of 700).settlements)
finalize_dead_letter_moves_example =
    finalize_dead_letter_moves memory_redis-IsRedis env0 (world_of 700) 5 (record_of 700)
      (record_of 700) "card refused" none retention_lasts refl refl refl

process_job-finalized_example :
    let (result, w') =
      process_job
        (calm env0)
        job0
        (claimed_world IdempotencyState.completed (set "p1" (json finished) empty)) in
    (result ≡ ok (skipped job0.payment_id ("already finalized as " <> status_text finished.status)))
    × Untouched (claimed_world IdempotencyState.completed (set "p1" (json finished) empty)) w'
process_job-finalized_example =
    process_job-finalized memory_redis-IsRedis env0
      (claimed_world IdempotencyState.completed (set "p1" (json finished) empty)) job0 finished
      (idem_of IdempotencyState.completed) refl refl finished_apart

process_job-attempts_example :
    let (result, w') = process_job (calm env0) job0 (world_of 700) in
    (w1 : World whole_number bank memory_redis) × (memory_redis.locks.get 5 job0.payment_id w1.locks
      ≡ some tt)
    × (w1.guard ≡ (world_of 700).guard)
    × (w1.settlements ≡ (world_of 700).settlements)
    × (w1.dlq ≡ (world_of 700).dlq)
    × (result ≡ (attempt (calm env0) (record_of 700) job0 (env0.clock (world_of 700).calls) w1).0)
    × (w'.guard
        ≡ (attempt (calm env0) (record_of 700) job0 (env0.clock (world_of 700).calls) w1).1.guard)
    × (memory_redis.locks.get 9 job0.payment_id w'.locks ≡ none)
process_job-attempts_example =
    process_job-attempts memory_redis-IsRedis env0 (world_of 700) job0 5 9 (record_of 700) none refl
      refl refl refl (omega arith)

acquire_execution_lock_reopens_example :
    let (r, w1) =
      finalize
        (calm env0)
        "p1"
        IdempotencyState.completed
        PaymentStatus.completed
        (some "tx9")
        none
        (world_of 700) in
    let (acquired, w2) = acquire_execution_lock (calm env0) "p1" w1 in
    (final_state (memory_redis.leases.get 5 "p1" w1.idempotency)
      ≡ some (IdempotencyState.completed, some PaymentStatus.completed))
    × (acquired ≡ ok true)
    × (final_state (memory_redis.leases.get 5 "p1" w2.idempotency)
        ≡ some (IdempotencyState.processing, none))
acquire_execution_lock_reopens_example =
    acquire_execution_lock_reopens memory_redis-IsRedis env0 (world_of 700) "p1" 5
      PaymentStatus.completed (some "tx9") refl retention_lasts lease_lasts

deliver_ends_example :
    Ended {N = whole_number} {P = bank} {R = memory_redis} 5 "p1"
      (deliver (calm env0) 3 (some 3) job0 (world_of 14)).1
deliver_ends_example =
    deliver_ends memory_redis-IsRedis env0 2 3 5 job0 (world_of 14) refl retention_lasts
      (record_of 14, refl, refl, refl) (λ u. refl) (λ u. refl)
