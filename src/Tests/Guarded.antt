-- ===== src/Tests/Guarded.antt =====
-- The saga over the guard of a gateway, at concrete values.
use queue_system.Prelude.{some, none, ℕ, ◌+◌, ◌*◌, ◌≡◌, refl, List, [], ◌∷◌, ◌++◌}
use queue_system.Prelude.Maps.{empty}
use queue_system.Prelude.Number.{whole_number}
use queue_system.Gateway.Types.{GatewayChargeResult, GatewayRefundResult, PaymentGateways}
use queue_system.Gateway.Breaker.{CircuitBreakerParams, allow_call, new_breaker, reconfigure}
use queue_system.Gateway.Bucket.{
  AdaptiveTokenBucket, TokenBucketParams, wait_for_token, try_acquire, refill, new_bucket,
}
use queue_system.Gateway.Guard.{GuardConfig, call, refund, gate_call}
use queue_system.Gateway.Guard.Policy.{GuardPolicy, PartialCircuitBreakerParams, configure}
use queue_system.Payments.Redis.{SettlementEntry}
use queue_system.Payments.Redis.Memory.{memory_redis, memory_redis-IsRedis}
use queue_system.Payments.World.{World}
use queue_system.Payments.Stores.{settlements_key}
use queue_system.Payments.Saga.{execute}
use queue_system.Payments.Saga.Outcome.{calm}
use queue_system.Payments.Guarded.{ProviderCall, charged, refunded, recorded, answered, guard_port}
use queue_system.Payments.Guarded.Balance.{Balanced, execute-Balanced}
use queue_system.Tests.Bank.{env0, refusing_ledger, record_of}

abbrev limits : TokenBucketParams whole_number
limits = record {
  nominal_rps = 20;
  burst_factor = 2;
  min_rate_factor = 1;
  ai_step_rps = 1;
  token_wait_ms = 12;
}

abbrev thresholds : CircuitBreakerParams whole_number
thresholds = record { window_ms = 30; failure_threshold = 1; min_samples = 2; cooldown_ms = 50 }

abbrev controls : GuardConfig whole_number
controls = record { rate_limiter = limits; circuit_breaker = thresholds }

abbrev ticks : ℕ → ℕ
ticks n = 20 * n

abbrev undisturbed : ℕ → AdaptiveTokenBucket whole_number → AdaptiveTokenBucket whole_number
undisturbed _ b = b

-- A provider that accepts every charge and every refund.
abbrev accepter : PaymentGateways whole_number
accepter = record {
  State = ℕ;
  charge = λ g p c n. (GatewayChargeResult.ok "tx1" 200 3, n + 1);
  refund = λ g t n. (GatewayRefundResult.ok "rf1" 200 3, n + 1);
}

abbrev before :
    World whole_number (guard_port controls ticks undisturbed 4 (recorded accepter)) memory_redis
before = record {
  idempotency = empty;
  locks = empty;
  payments = empty;
  audit = λ _. [];
  settlements = λ _. [];
  events = [];
  jobs = [];
  dlq = [];
  guard = (record { buckets = empty; breakers = empty; events = []; reads = 0 }, (0, []));
  current = record_of 700;
  calls = 0;
}

execute-Balanced_example :
    let (r, w') = execute (calm refusing_ledger) before in
    (entries : List SettlementEntry) × (calls : List (ProviderCall whole_number))
    × (memory_redis.settlements.lrange settlements_key w'.settlements
        ≡ memory_redis.settlements.lrange settlements_key before.settlements ++ entries)
    × (w'.guard.1.1 ≡ before.guard.1.1 ++ calls)
    × Balanced before.current.payment r entries calls
execute-Balanced_example =
    execute-Balanced controls ticks undisturbed 4 accepter memory_redis-IsRedis refusing_ledger
      before

-- The ledger refuses after an accepted charge: the provider is asked to refund it.
charged_and_refunded :
    (execute (calm refusing_ledger) before).1.guard.1.1
    ≡ charged "p1" (GatewayChargeResult.ok "tx1" 200 3)
      ∷ refunded "tx1" (GatewayRefundResult.ok "rf1" 200 3)
      ∷ []
unfolding execute answered call refund wait_for_token try_acquire refill new_bucket gate_call
    allow_call new_breaker
charged_and_refunded = refl

-- The ledger accepts.
charged_only :
    (execute (calm env0) before).1.guard.1.1
    ≡ charged "p1" (GatewayChargeResult.ok "tx1" 200 3) ∷ []
unfolding execute answered call wait_for_token try_acquire refill new_bucket gate_call allow_call
    new_breaker
charged_only = refl

-- A policy for the breaker of one gateway, twice: the window of the first is forgotten.
abbrev policies : GuardPolicy whole_number × GuardPolicy whole_number
policies =
    let nothing : PartialCircuitBreakerParams whole_number = record {
      window_ms = none;
      failure_threshold = none;
      min_samples = none;
      cooldown_ms = none;
    } in
    (
      record {
        rate_limiter = none;
        circuit_breaker = some (record nothing { window_ms = some 5 });
      },
      record {
        rate_limiter = none;
        circuit_breaker = some (record nothing { cooldown_ms = some 9 });
      },
    )

configured_twice :
    (configure controls ticks "g1" policies.1
        (configure controls ticks "g1" policies.0 before.guard.0)).breakers
      "g1"
    ≡ some (new_breaker (record thresholds { cooldown_ms = 9 }))
unfolding configure reconfigure new_breaker
configured_twice = refl
