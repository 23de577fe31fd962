-- ===== src/Tests/Lifecycle.antt =====
-- A payment from its submission to its end, and workers at the same payment.
use queue_system.Prelude.{
  arith, ℕ, ◌+◌, ◌≡◌, refl, none, some, true, [], ◌∷◌, ◌++◌, ltb, if◌then◌else◌,
}
use queue_system.Prelude.Number.{whole_number}
use queue_system.Payments.Exec.{ok}
use queue_system.Payments.Redis.Memory.{memory_redis, memory_redis-IsRedis}
use queue_system.Payments.World.{Env, World, QueuedJob}
use queue_system.Payments.Idempotency.{acquire_execution_lock, release_execution_lock, try_lock}
use queue_system.Payments.Idempotency.Stolen.{release_execution_lock-steals}
use queue_system.Payments.Saga.Outcome.{calm}
use queue_system.Payments.Delivery.{deliver}
use queue_system.Payments.Delivery.Attempts.{Ended}
use queue_system.Payments.Lifecycle.{taken, submit-deliver_ends}
use queue_system.Payments.Service.{created, submit}
use queue_system.Payments.Service.Submit.{fresh_record}
use queue_system.Payments.Workers.{
  idle, attempting, States, update, acquire, skip, finish, Reach, here, next,
}
use queue_system.Payments.Workers.Exclusion.{Reach-exclusive}
use queue_system.Tests.Bank.{bank, env0, input0, fresh_world, retention_lasts}

-- The state in which the job is taken: the submission's, with another job in the queue since.
abbrev taken_up : World whole_number bank memory_redis
taken_up =
    let w' = (submit (calm env0) input0 none fresh_world).1 in
    record w' { jobs = w'.jobs ++ w'.jobs; calls = w'.calls + 7 }

submit-deliver_ends_example :
    let (result, w') = submit (calm env0) input0 none fresh_world in
    (result ≡ ok (created (fresh_record input0 none (env0.clock (fresh_world.calls + 1 + 1)))))
    × ((j : QueuedJob) × (w'.jobs ≡ fresh_world.jobs ++ j ∷ [])
        × (j.data_of.payment_id ≡ input0.id)
        × Ended 5 input0.id (deliver (calm env0) j.attempts (some j.attempts) (taken j) taken_up).1)
submit-deliver_ends_example =
    submit-deliver_ends memory_redis-IsRedis env0 input0 none (λ job. refl) 5 fresh_world
      retention_lasts refl (λ u. refl) taken_up refl refl refl

-- The second worker comes an hour after the first.
abbrev hours : Env
hours = record env0 { clock = λ n. if ltb n 4 then n else 3_600_000 + n }

release_execution_lock-steals_example :
    let (first, w1) = acquire_execution_lock (calm hours) "p1" fresh_world in
    let (second, w2) = acquire_execution_lock (calm hours) "p1" w1 in
    let (released, w3) = release_execution_lock (calm hours) "p1" w2 in
    let (third, w4) = acquire_execution_lock (calm hours) "p1" w3 in
    (first ≡ ok true)
    × (second ≡ ok true)
    × (memory_redis.locks.get 3_610_000 "p1" w2.locks ≡ some tt)
    × (released ≡ ok tt)
    × (memory_redis.locks.get 3_610_000 "p1" w3.locks ≡ none)
    × (third ≡ ok true)
release_execution_lock-steals_example =
    release_execution_lock-steals memory_redis-IsRedis hours "p1" fresh_world refl (omega arith)
      3_610_000 (omega arith)

abbrev locked_world : World whole_number bank memory_redis
locked_world = (try_lock (calm env0) "p1" fresh_world).1

abbrev refused_world : World whole_number bank memory_redis
refused_world = (try_lock (calm env0) "p1" locked_world).1

abbrev released_world : World whole_number bank memory_redis
released_world = (release_execution_lock (calm env0) "p1" refused_world).1

abbrev relocked_world : World whole_number bank memory_redis
relocked_world = (try_lock (calm env0) "p1" released_world).1

abbrev no_one : States
no_one _ = idle

abbrev first_at_work : States
first_at_work = update no_one 0 (attempting 0)

abbrev second_at_work : States
second_at_work = update (update first_at_work 0 idle) 1 (attempting 3)

-- The first worker gets the lock, the second is refused, the first finishes, the second gets it.
contended : Reach env0 "p1" fresh_world no_one relocked_world second_at_work
unfolding try_lock release_execution_lock
contended =
    next
      (next
        (next (next here (λ i since busy. ground arith) (acquire 0 refl refl))
          (λ i since busy. ground arith) (skip 1 refl refl))
        (λ i since busy. ground arith) (finish 0 0 refl refl))
      (λ i since busy. ground arith) (acquire 1 refl refl)

abbrev second_worker : ℕ
second_worker = 1

Reach-exclusive_example :
    (second_worker ≡ second_worker)
    × (memory_redis.locks.get 60_002 "p1" relocked_world.locks ≡ some tt)
Reach-exclusive_example =
    Reach-exclusive memory_redis-IsRedis env0 "p1" {w = fresh_world} {states = no_one} (λ i. refl)
      contended 1 1 3 3 60_002 refl refl (omega arith)
