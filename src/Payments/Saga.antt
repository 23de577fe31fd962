-- ===== src/Payments/Saga.antt =====
-- src/payments/payment-saga.service.ts: reserve, charge, settle, with compensation. The record that
-- the saga mutates is the state's `current`. Tracing spans only observe, and log lines are left out.
pub mod Outcome
pub mod Faults
pub mod Keeps
use queue_system.Prelude.{
  ℕ, Bool, true, false, String, Option, none, some, List, [], ◌∷◌, ◌++◌, if◌then◌else◌,
}
use queue_system.Prelude.Text.{◌<>◌, to_string_base, to_string}
use queue_system.Prelude.Number.{Number}
use queue_system.Domain.Errors.{
  PaymentProcessingError, Raised, processing, message_of, new_error, settle_failed, code_text,
}
use queue_system.Domain.Payment.{
  Payment, PaymentRecord, SagaPhase, SagaState, reserve, charge, compensation, push_history,
  saga_reserve, saga_charge, saga_settle, saga_compensate_release_funds,
  saga_compensate_refund_charge,
}
use queue_system.Common.Events.{AppEvent, saga_phase, metrics_alert, PhaseOutcome, critical}
use queue_system.Gateway.Guard.{CallOutcome, RefundOutcome}
use queue_system.Payments.Exec.{◌>>=◌, ◌>>◌, pure, raise, gets, try_catch, ok}
use queue_system.Payments.Redis.{Redis}
use queue_system.Payments.World.{GuardPort, Env, World, M, now, modify}
use queue_system.Payments.Stores.{save, audit, settle, emit}

pub record SagaOutcome : Type 0 where
  pub transaction_id : String
  pub reservation_id : String

module _ {N : Number} {P : GuardPort N} {R : Redis} (env : Env) where
  -- The shared record, as it is now.
  abbrev the_record : M N P R PaymentRecord
  the_record = gets (λ w. w.current)

  abbrev save_record : M N P R (Unit {0})
  save_record = do r ← the_record; save env r

  unfoldable pub history : SagaPhase → String → Option String → M N P R (Unit {0})
  unfolding now modify
  history phase event detail = do
    at ← now env
    modify env (λ r. push_history r phase event detail at)

  emit_phase : SagaPhase → PhaseOutcome → M N P R (Unit {0})
  unfolding now emit
  emit_phase phase outcome = do
    at ← now env
    r ← the_record
    emit env (saga_phase r.payment.id r.payment.gateway_id phase outcome at)

  -- `this.guard.call(payment, { correlationId })`
  guard_call : M N P R (CallOutcome N)
  guard_call w =
      let (outcome, g) = P.call w.current.payment w.current.correlation_id w.guard in
      (ok outcome, record w { guard = g })

  guard_refund : String → M N P R (RefundOutcome N)
  guard_refund transaction_id w =
      let (outcome, g) = P.refund w.current.payment.gateway_id transaction_id w.guard in
      (ok outcome, record w { guard = g })

  unfoldable pub release_funds : String → M N P R (Unit {0})
  unfolding history audit
  release_funds reservation_id = do
    r ← the_record
    history compensation "release_funds" (some reservation_id)
    audit env r.payment.id saga_compensate_release_funds (("reservationId", reservation_id) ∷ [])

  refund_failed : String → PaymentProcessingError → M N P R (Unit {0})
  unfolding history audit now emit
  refund_failed transaction_id error = do
    r ← the_record
    history compensation "refund_failed" (some (code_text error.code <> ": " <> error.message))
    audit env r.payment.id saga_compensate_refund_charge
        (("transactionId", transaction_id) ∷ ("ok", "false") ∷ ("failure", error.message) ∷ [])
    raised_at ← now env
    at ← now env
    emit env (
        metrics_alert
          (record {
            id = "saga.compensation_failed." <> r.payment.id;
            severity = critical;
            message =
                "CRITICAL: Payment " <> r.payment.id <> " compensation refund failed for charge "
                <> transaction_id <> ": " <> error.message;
            value = none;
            threshold = none;
            raised_at = raised_at;
          })
          at)

  refund_done : String → String → M N P R (Unit {0})
  unfolding history audit modify
  refund_done transaction_id refund_id = do
    modify env (λ r. record r { refund_id = some refund_id })
    r ← the_record
    history compensation "refund_charge" (some refund_id)
    audit env r.payment.id saga_compensate_refund_charge
        (("transactionId", transaction_id) ∷ ("ok", "true") ∷ ("refundId", refund_id) ∷ [])

  -- Compensation crosses the guard too, and is not gated.
  unfoldable pub refund_charge : String → M N P R (Unit {0})
  unfolding guard_refund refund_failed refund_done
  refund_charge transaction_id = do
    refund ← guard_refund transaction_id
    elim refund [
      | RefundOutcome.fail error ↦ refund_failed transaction_id error
      | RefundOutcome.ok refund_id http_status latency ↦ refund_done transaction_id refund_id
    ]

  -- Step 1. The result is the reservation's id.
  unfoldable pub reserve_step : M N P R String
  unfolding now history modify save audit emit_phase
  reserve_step = do
    r ← the_record
    t ← now env
    let reservation_id = "res_" <> r.payment.id <> "_" <> to_string_base 36 t
    history reserve "ok" (some reservation_id)
    modify env (λ r. record r { saga_state = SagaState.reserved })
    save_record
    audit env r.payment.id saga_reserve (("reservationId", reservation_id) ∷ [])
    emit_phase reserve PhaseOutcome.ok
    pure reservation_id

  -- Step 2 failed: the reservation is released and the classified error goes on.
  unfoldable pub charge_failed : PaymentProcessingError → String → M N P R SagaOutcome
  unfolding history release_funds save emit_phase
  charge_failed error reservation_id = do
    history charge "failure" (some (code_text error.code))
    release_funds reservation_id
    save_record
    emit_phase charge PhaseOutcome.failed
    raise (processing error)

  unfoldable pub charge_done : String → ℕ → String → M N P R (Unit {0})
  unfolding modify history save audit emit_phase
  charge_done transaction_id http_status reservation_id = do
    modify env (λ r. record r {
      transaction_id = some transaction_id;
      reservation_id = some reservation_id;
      saga_state = SagaState.charged;
    })
    history charge "ok" (some transaction_id)
    save_record
    r ← the_record
    audit env r.payment.id saga_charge
        (("transactionId", transaction_id) ∷ ("httpStatus", to_string http_status) ∷ [])
    emit_phase charge PhaseOutcome.ok

  -- Step 3 failed: refund, release, and a permanent error.
  unfoldable pub settle_failed_step : String → String → Raised → M N P R SagaOutcome
  unfolding history refund_charge release_funds modify save emit_phase
  settle_failed_step transaction_id reservation_id err = do
    history SagaPhase.settle "failure" (some (message_of err))
    refund_charge transaction_id
    release_funds reservation_id
    modify env (λ r. record r { saga_state = SagaState.compensated })
    save_record
    emit_phase SagaPhase.settle PhaseOutcome.failed
    r ← the_record
    raise (
        processing (
          new_error
            ("settle failed after successful charge ("
              <> message_of err
              <> "); charge "
              <> transaction_id
              <> " was refunded")
            settle_failed none (some r.payment.gateway_id)))

  unfoldable pub settle_done : String → String → M N P R SagaOutcome
  unfolding modify history audit emit_phase
  settle_done transaction_id reservation_id = do
    modify env (λ r. record r { saga_state = SagaState.settled })
    history SagaPhase.settle "ok" (some transaction_id)
    r ← the_record
    audit env r.payment.id saga_settle (("transactionId", transaction_id) ∷ [])
    emit_phase SagaPhase.settle PhaseOutcome.ok
    pure (record { transaction_id = transaction_id; reservation_id = reservation_id })

  -- `settle` alone stands in the `try`: what its outcome leads to is outside it.
  unfoldable pub settle_step : String → String → M N P R SagaOutcome
  unfolding settle settle_done settle_failed_step
  settle_step transaction_id reservation_id = do
    r ← the_record
    settled ← try_catch (do settle env r.payment transaction_id; pure none) (λ err. pure (some err))
    elim settled [
      | none ↦ settle_done transaction_id reservation_id
      | some err ↦ settle_failed_step transaction_id reservation_id err
    ]

  unfoldable pub charge_step : String → CallOutcome N → M N P R SagaOutcome
  unfolding charge_failed charge_done settle_step
  charge_step reservation_id (CallOutcome.fail error) = charge_failed error reservation_id
  charge_step reservation_id (CallOutcome.ok transaction_id http_status latency) = do
    charge_done transaction_id http_status reservation_id
    settle_step transaction_id reservation_id

  unfoldable pub execute : M N P R SagaOutcome
  unfolding reserve_step guard_call charge_step
  execute = do
    reservation_id ← reserve_step
    outcome ← guard_call
    charge_step reservation_id outcome
