-- ===== src/Tests/Controller.antt =====
-- A request for a finalized payment.
use queue_system.Prelude.{◌≡◌, refl, none}
use queue_system.Prelude.Chars.{all_upper, js_length}
use queue_system.Prelude.Maps.{empty, set}
use queue_system.Domain.Payment.{IdempotencyState}
use queue_system.Payments.Exec.{ok}
use queue_system.Payments.Redis.{json}
use queue_system.Payments.Redis.Memory.{memory_redis-IsRedis}
use queue_system.Payments.Saga.Outcome.{calm}
use queue_system.Payments.Service.Submit.{Unsubmitted}
use queue_system.Payments.Service.Validate.{validate_create_payment_input}
use queue_system.Payments.Controller.{submit_request, replayed_response}
use queue_system.Payments.Controller.Requests.{submit_request-replays}
use queue_system.Tests.Bank.{
  env0, body0, accepted0, finished, finished_apart, idem_of, claimed_world,
}

submit_request-replays_example :
    let w = claimed_world IdempotencyState.completed (set "p1" (json finished) empty) in
    let (response, w') = submit_request (calm env0) (λ _. none) none body0 w in
    (response ≡ ok (replayed_response finished)) × Unsubmitted w w'
unfolding validate_create_payment_input all_upper js_length
submit_request-replays_example =
    submit_request-replays memory_redis-IsRedis env0 (λ _. none)
      (claimed_world IdempotencyState.completed (set "p1" (json finished) empty)) none body0
      accepted0 (idem_of IdempotencyState.completed) finished refl refl refl finished_apart refl
