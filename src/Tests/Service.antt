-- ===== src/Tests/Service.antt =====
-- Submission and the validator at concrete values.
use queue_system.Prelude.{arith, ◌+◌, ◌≡◌, refl, inr, none, some, [], ◌∷◌, ◌++◌}
use queue_system.Prelude.Maps.{empty, set}
use queue_system.Prelude.Text.{◌<>◌}
use queue_system.Domain.Json.{object, field, text, number, whole, end}
use queue_system.Prelude.Chars.{all_upper, js_length}
use queue_system.Payments.Service.Validate.{validate_create_payment_input}
use queue_system.Payments.Service.Accepted.{IsValid, validate_create_payment_input-IsValid}
use queue_system.Payments.Service.Body.{body_of, completed}
use queue_system.Payments.Service.RoundTrip.{validate_create_payment_input-body_of}
use queue_system.Domain.Payment.{PaymentRecord, IdempotencyState}
use queue_system.Payments.Exec.{ok, raised}
use queue_system.Payments.Redis.{json}
use queue_system.Payments.Idempotency as Idempotency
use queue_system.Payments.Saga.Outcome.{calm}
use queue_system.Payments.Processor.Terminal.{final_state}
use queue_system.Payments.Service.{
  CreatePaymentInput, created, replayed, bad_request, submit, submit_claimed, claim_or_recover,
}
use queue_system.Payments.Service.Submit.{
  Unsubmitted, jobs_outline, its_job, fresh_record, submit-replays, submit-creates,
}
use queue_system.Payments.Service.Race.{submit-recovers, submit_claimed-unqueued, submit-overtaken}
use queue_system.Tests.Bank.{
  env0, refusing_queue, finished, idem_of, claimed_world, finished_apart, input0, fresh_world,
  body0, accepted0,
}
use queue_system.Payments.Redis.Memory.{memory_redis, memory_redis-IsRedis}
use queue_system.Tests.Bank.{lease_lasts}

submit-replays_example :
    let (result, w') =
      submit
        (calm env0)
        input0
        none
        (claimed_world IdempotencyState.completed (set "p1" (json finished) empty)) in
    (result ≡ ok (replayed finished))
    × Unsubmitted (claimed_world IdempotencyState.completed (set "p1" (json finished) empty)) w'
submit-replays_example =
    submit-replays memory_redis-IsRedis env0
      (claimed_world IdempotencyState.completed (set "p1" (json finished) empty)) input0 none
      (idem_of IdempotencyState.completed) finished refl refl finished_apart refl

submit-creates_example :
    let (result, w') = submit (calm env0) input0 none fresh_world in
    let r = fresh_record input0 none (env0.clock (fresh_world.calls + 1 + 1)) in
    (result ≡ ok (created r))
    × (memory_redis.payments.hget input0.id w'.payments ≡ some (json r))
    × (jobs_outline w'.jobs ≡ jobs_outline fresh_world.jobs ++ its_job input0 ∷ [])
    × (final_state (memory_redis.leases.get 5 input0.id w'.idempotency)
        ≡ some (IdempotencyState.processing, none))
    × (w'.guard ≡ fresh_world.guard)
submit-creates_example =
    submit-creates memory_redis-IsRedis env0 fresh_world input0 none 5 lease_lasts refl
      (λ job. refl)

submit-recovers_example :
    let (result, w') =
      submit (calm env0) input0 none (claimed_world IdempotencyState.processing empty) in
    (r : PaymentRecord) × (result ≡ ok (created r))
    × (memory_redis.payments.hget input0.id w'.payments ≡ some (json r))
    × (jobs_outline w'.jobs
        ≡ jobs_outline (claimed_world IdempotencyState.processing empty).jobs
          ++ its_job input0 ∷ [])
    × (final_state (memory_redis.leases.get 5 input0.id w'.idempotency)
        ≡ some (IdempotencyState.processing, none))
    × (w'.guard ≡ (claimed_world IdempotencyState.processing empty).guard)
submit-recovers_example =
    submit-recovers memory_redis-IsRedis env0 (claimed_world IdempotencyState.processing empty)
      input0 none 5 (idem_of IdempotencyState.processing) refl refl refl refl (λ job. refl)
      lease_lasts

submit_claimed-unqueued_example :
    let (result, w') =
      submit_claimed
        (calm refusing_queue)
        Idempotency.new
        input0
        none
        (claimed_world IdempotencyState.processing empty) in
    (result ≡ raised (bad_request ("payment could not be queued: " <> "queue down")))
    × (memory_redis.leases.get 5 input0.id w'.idempotency ≡ none)
    × (w'.jobs ≡ (claimed_world IdempotencyState.processing empty).jobs)
    × (w'.guard ≡ (claimed_world IdempotencyState.processing empty).guard)
submit_claimed-unqueued_example =
    submit_claimed-unqueued memory_redis-IsRedis refusing_queue
      (claimed_world IdempotencyState.processing empty) input0 none 5 "queue down" (λ job. refl)

submit-overtaken_example :
    let second : CreatePaymentInput = record input0 { amount = 900 } in
    let (claimed, w1) = claim_or_recover (calm env0) input0.id fresh_world in
    let (b, w2) = submit (calm env0) second none w1 in
    let (a, w3) = submit_claimed (calm env0) Idempotency.new input0 none w2 in
    (p : PaymentRecord) × (q : PaymentRecord) × (claimed ≡ ok Idempotency.new)
    × (b ≡ ok (created p))
    × (a ≡ ok (created q))
    × (jobs_outline w3.jobs
        ≡ (jobs_outline fresh_world.jobs ++ its_job second ∷ []) ++ its_job input0 ∷ [])
submit-overtaken_example =
    submit-overtaken memory_redis-IsRedis env0 fresh_world input0 none 900 none refl refl
      (omega arith) (omega arith) (λ job. refl)

validate_create_payment_input-IsValid_example :
    IsValid 5 accepted0 × (completed accepted0 ≡ accepted0)
unfolding validate_create_payment_input all_upper js_length
validate_create_payment_input-IsValid_example =
    validate_create_payment_input-IsValid (λ _. none) 5 body0 accepted0 refl

abbrev dated : CreatePaymentInput
dated = record accepted0 { scheduled_at = some 9; delay_ms = none }

dated-IsValid : IsValid 5 dated
unfolding all_upper js_length
dated-IsValid = record {
  id_length = (omega arith, omega arith);
  amount_positive = omega arith;
  currency_form = (refl, refl);
  customer_present = omega arith;
  gateway_length = (omega arith, omega arith);
  retries_bounded = (3, refl, omega arith);
  one_time = inr refl;
  scheduled_bounded = omega arith;
  delay_bounded = omega arith;
}

-- A body with a correlation id, and without a priority, retries and metadata.
abbrev short : CreatePaymentInput
short = record dated {
  priority = none;
  max_retries = none;
  metadata = none;
  correlation_id = some "corr_1";
}

validate_create_payment_input-body_of_example :
    validate_create_payment_input (λ _. some 9) 5 (body_of (λ _. "1970") short) ≡ ok dated
validate_create_payment_input-body_of_example =
    validate_create_payment_input-body_of (λ _. some 9) (λ _. "1970") 5 short dated-IsValid
      (λ at h. h)

refused_twice :
    validate_create_payment_input
      (λ _. some 9)
      5
      (object (
        field "id" (text "p1") (
          field "amount" (number (whole 1)) (
            field "currency" (text "EUR") (
              field "customerId" (text "c1") (
                field "gatewayId" (text "g1") (
                  field "scheduledAt"
                    (text "1970")
                    (field "delayMs" (number (whole 250)) end))))))))
    ≡ raised "provide either scheduledAt or delayMs, not both"
unfolding validate_create_payment_input all_upper js_length
refused_twice = refl
