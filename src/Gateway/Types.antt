-- ===== src/Gateway/Types.antt =====
-- src/gateway/gateway.types.ts: the contract of a payment gateway.
use queue_system.Prelude.{ℕ, String, Option, List}
use queue_system.Prelude.Number.{Number}
use queue_system.Domain.Errors.{PaymentErrorCode}
use queue_system.Domain.Payment.{Payment}

pub record GatewayFailure : Type 0 where
  pub code : PaymentErrorCode
  pub message : String
  pub http_status : ℕ

module _ (N : Number) where
  -- The arguments of a success are the transaction or refund id, the HTTP status and the latency.
  pub data GatewayChargeResult : Type 0 where
    ok : String → ℕ → N.Carrier → GatewayChargeResult
    fail : GatewayFailure → N.Carrier → GatewayChargeResult

  pub data GatewayRefundResult : Type 0 where
    ok : String → ℕ → N.Carrier → GatewayRefundResult
    fail : GatewayFailure → N.Carrier → GatewayRefundResult

  -- The providers behind the registry, over a state of their own: a call takes the gateway's id.
  pub record PaymentGateways : Type 1 where
    pub State : Type 0
    pub charge : String → Payment → Option String → State → GatewayChargeResult × State
    pub refund : String → String → State → GatewayRefundResult × State

  -- A script of the mock gateway. A failure may name its code.
  pub data MockStep : Type 0 where
    ok : Option N.Carrier → MockStep
    fail : ℕ → Option PaymentErrorCode → MockStep

  pub record MockGatewayBehavior : Type 0 where
    pub latency_min_ms : N.Carrier
    pub latency_max_ms : N.Carrier
    pub steps : List MockStep
    pub after : MockStep
    pub refund_steps : List MockStep
