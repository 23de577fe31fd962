-- ===== src/Payments/Controller/Requests.antt =====
-- payments.controller.ts: a request for a payment that is finalized, from its body to its response, with
-- Redis answering.
use mathlib.Core.Path.{subst}
use queue_system.Prelude.{ℕ, ◌+◌, ◌≡◌, ◌≢◌, refl, sym, String, Option, some}
use queue_system.Prelude.Number.{Number}
use queue_system.Domain.Json.{Json}
use queue_system.Domain.Payment.{PaymentRecord, IdempotencyRecord, IdempotencyState}
use queue_system.Payments.Exec.{ok, raised, continue-ok}
use queue_system.Payments.Redis.{Redis, IsRedis, json}
use queue_system.Payments.World.{GuardPort, Env, World}
use queue_system.Payments.Saga.Outcome.{calm}
use queue_system.Payments.Service.{CreatePaymentInput, bad_request, submit}
use queue_system.Payments.Service.Validate.{validate_create_payment_input}
use queue_system.Payments.Service.Submit.{Unsubmitted, submit-replays}
use queue_system.Payments.Controller.{submit_request, replayed_response}

module _ {N : Number} {P : GuardPort N} {R : Redis} (L : IsRedis R) (env : Env)
    (parse_date : String → Option ℕ) (w : World N P R) (current : Option String) (body : Json) where
  -- With Redis answering, a request with a valid body for a payment that is finalized, by what both
  -- reads of its idempotency record say, with its record stored, is answered with that record and the
  -- status 200, and changes nothing.
  pub submit_request-replays :
      (input : CreatePaymentInput) (idem : IdempotencyRecord) (stored : PaymentRecord)
      → validate_create_payment_input parse_date (env.clock w.calls) body ≡ ok input
      → R.leases.get (env.clock (w.calls + 1 + 1)) input.id w.idempotency ≡ some (json idem)
      → R.leases.get (env.clock (w.calls + 1 + 1 + 1)) input.id w.idempotency ≡ some (json idem)
      → idem.state ≢ IdempotencyState.processing
      → R.payments.hget input.id w.payments ≡ some (json stored)
      → let (response, w') = submit_request (calm env) parse_date current body w in
        (response ≡ ok (replayed_response stored)) × Unsubmitted w w'
  unfolding submit_request
  submit_request-replays input idem stored valid claimed claimed' final found =
      let w1 : World N P R = record w { calls = w.calls + 1 } in
      let s = submit-replays L env w1 input current idem stored claimed claimed' final found in
      rw (valid, submit_request)
        (subst (λ m. (m.0 ≡ ok (replayed_response stored)) × Unsubmitted w m.1)
          (sym (continue-ok _ (submit (calm env) input current w1) s.0)) (refl, s.1))

  -- A request whose body is not valid is refused with the validator's message, and changes nothing.
  pub submit_request-refuses :
      (message : String)
      → validate_create_payment_input parse_date (env.clock w.calls) body ≡ raised message
      → let (response, w') = submit_request (calm env) parse_date current body w in
        (response ≡ raised (bad_request message)) × Unsubmitted w w'
  unfolding submit_request
  submit_request-refuses message invalid =
      rw (invalid, submit_request) (refl, (refl, refl, refl, refl, refl))
