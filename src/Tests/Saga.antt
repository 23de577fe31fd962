-- ===== src/Tests/Saga.antt =====
-- The saga at concrete values.
use queue_system.Prelude.{◌≡◌, refl, some, [], ◌∷◌, ◌++◌}
use queue_system.Domain.Errors.{other, processing, new_error, card_declined}
use queue_system.Domain.Payment.{SagaState, reserve, charge, settle, compensation}
use queue_system.Gateway.Guard.{RefundOutcome}
use queue_system.Payments.Exec.{ok, raised}
use queue_system.Payments.Redis.{json, SettlementEntry}
use queue_system.Payments.Stores.{settlements_key}
use queue_system.Payments.Saga.{SagaOutcome, execute}
use queue_system.Payments.Saga.Outcome.{
  calm, outline, SettledAs, Reversed, execute_succeeds, execute_charge_failed,
  execute_settle_failed,
}
use queue_system.Payments.Saga.Faults.{execute_uncompensated}
use queue_system.Tests.Bank.{env0, refusing_ledger, failing_redis, world_of}
use queue_system.Payments.Redis.Memory.{memory_redis, memory_redis-IsRedis}

execute_succeeds_example :
    let (r, w') = execute (calm env0) (world_of 700) in
    (o : SagaOutcome) × (s : SettlementEntry) × (r ≡ ok o)
    × (o.transaction_id ≡ "tx9")
    × (w'.guard ≡ (1, 0))
    × (memory_redis.settlements.lrange settlements_key w'.settlements
        ≡ memory_redis.settlements.lrange settlements_key (world_of 700).settlements ++ s ∷ [])
    × SettledAs (world_of 700).current.payment "tx9" s
    × (w'.current.saga_state ≡ SagaState.settled)
    × (w'.current.transaction_id ≡ some "tx9")
    × (w'.current.reservation_id ≡ some o.reservation_id)
    × (outline w'.current.history
        ≡ outline (world_of 700).current.history
          ++ (reserve, "ok") ∷ (charge, "ok") ∷ (settle, "ok") ∷ [])
execute_succeeds_example =
    execute_succeeds memory_redis-IsRedis env0 (world_of 700) "tx9" 200 5 (1, 0) refl refl

execute_charge_failed_example :
    let (r, w') = execute (calm env0) (world_of 13) in
    (r ≡ raised (processing (new_error "declined" card_declined (some 400) (some "g1"))))
    × (w'.guard ≡ (1, 0))
    × (w'.settlements ≡ (world_of 13).settlements)
    × (w'.current.transaction_id ≡ (world_of 13).current.transaction_id)
    × (memory_redis.payments.hget (world_of 13).current.payment.id w'.payments
        ≡ some (json w'.current))
    × (outline w'.current.history
        ≡ outline (world_of 13).current.history
          ++ (reserve, "ok") ∷ (charge, "failure") ∷ (compensation, "release_funds") ∷ [])
execute_charge_failed_example =
    execute_charge_failed memory_redis-IsRedis env0 (world_of 13)
      (new_error "declined" card_declined (some 400) (some "g1")) (1, 0) refl

execute_settle_failed_example :
    Reversed memory_redis-IsRedis refusing_ledger
      (world_of 700)
      (RefundOutcome.ok "rf4" 200 5)
      (1, 1)
execute_settle_failed_example =
    execute_settle_failed memory_redis-IsRedis refusing_ledger (world_of 700) "tx9" 200 5 (1, 0)
      "ledger down" refl refl

execute_uncompensated_example :
    let (r, w') = execute failing_redis (record (world_of 700) { calls = 0 }) in
    (r ≡ raised (other "redis down"))
    × (w'.guard ≡ (1, 0))
    × (w'.settlements ≡ (world_of 700).settlements)
    × (w'.dlq ≡ (world_of 700).dlq)
execute_uncompensated_example =
    execute_uncompensated memory_redis-IsRedis failing_redis (world_of 700) "tx9" 200 5 (1, 0)
      "redis down" refl refl refl refl
