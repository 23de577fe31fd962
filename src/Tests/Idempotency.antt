-- ===== src/Tests/Idempotency.antt =====
-- The idempotency service and its machine at a concrete sequence of operations.
use queue_system.Prelude.{◌≡◌, refl, arith, true, false, none, some, List, [], ◌∷◌}
use queue_system.Prelude.Number.{whole_number}
use queue_system.Domain.Payment.{PaymentStatus}
use queue_system.Payments.Exec.{ok}
use queue_system.Payments.Redis.Memory.{memory_redis, memory_redis-IsRedis}
use queue_system.Payments.World.{Env}
use queue_system.Payments.Saga.Outcome.{calm}
use queue_system.Payments.Idempotency.Machine.{
  Operation, claiming, releasing, locking, unlocking, finishing, claimed, in_progress,
  already_final, lock_taken, lock_refused, done, answers,
}
use queue_system.Payments.Idempotency.Refines.{perform_all, perform_all-answers}
use queue_system.Tests.Bank.{bank, env0, fresh_world}

-- The clock shows 900 throughout.
abbrev slow : Env
slow = record env0 { clock = λ n. 900 }

-- The last lock puts a completed payment back to PROCESSING.
abbrev session : List Operation
session =
    claiming
    ∷ claiming
    ∷ releasing
    ∷ claiming
    ∷ locking
    ∷ locking
    ∷ finishing true PaymentStatus.completed (some "tx9") none
    ∷ unlocking
    ∷ claiming
    ∷ locking
    ∷ claiming
    ∷ []

session-answers :
    answers session (record { state = none; locked = false })
    ≡ claimed ∷ in_progress ∷ done ∷ claimed ∷ lock_taken ∷ lock_refused ∷ done ∷ done
      ∷ already_final ∷ lock_taken ∷ in_progress ∷ []
session-answers = refl

perform_all-answers_example :
    (perform_all {N = whole_number} {P = bank} {R = memory_redis}
      (calm slow)
      "p1"
      session
      fresh_world).0
    ≡ ok (answers session (record { state = none; locked = false }))
perform_all-answers_example =
    perform_all-answers memory_redis-IsRedis slow 1000 "p1" (λ n. omega arith) (λ n. omega arith)
      (λ n. omega arith) session (record { state = none; locked = false }) fresh_world
      ((λ u h. refl), (λ u h. refl))
