-- ===== src/Gateway/Mock.antt =====
-- src/gateway/mock-gateway.service.ts: the scripted stand-in for a provider, and the registry of its
-- instances. `Math.random()` and `Date.now()` are arguments. A charge is two steps, before and after
-- its sleep, since other charges of the same gateway run in between.
pub mod Script
pub mod Overlap
use queue_system.Prelude.{
  ℕ, ◌+◌, ◌==◌, Bool, true, false, String, Option, none, some, List, [], ◌∷◌, ◌++◌, or_else,
  if◌then◌else◌, get_elem?, str_eq,
}
use queue_system.Prelude.Maps.{Map, empty, set, map_values}
use queue_system.Prelude.Text.{◌<>◌, to_string, to_string_base}
use queue_system.Prelude.Number.{Number}
use queue_system.Domain.Errors.{PaymentErrorCode, classify_http_status}
use queue_system.Gateway.Types.{
  PaymentGateways, GatewayFailure, GatewayChargeResult, GatewayRefundResult, MockStep,
  MockGatewayBehavior,
}

pub data TransactionStatus : Type 0 where
  succeeded failed : TransactionStatus

pub record MockGatewayStats : Type 0 where
  pub charges : ℕ
  pub refunds : ℕ
  pub failed_charges : ℕ
  pub http_status_histogram : ℕ → ℕ
  pub correlation_ids : List String

-- `if (context?.correlationId)`: an empty text counts as none.
seen_ids : Option String → List String → List String
seen_ids none ids = ids
seen_ids (some c) ids = if str_eq c "" then ids else ids ++ c ∷ []

failure_of : String → ℕ → Option PaymentErrorCode → GatewayFailure
failure_of message status code = record {
  code = or_else code (classify_http_status status);
  message = message;
  http_status = status;
}

module _ (N : Number) where
  -- `Partial<MockGatewayBehavior>`
  pub record PartialBehavior : Type 0 where
    pub latency_min_ms : Option N.Carrier
    pub latency_max_ms : Option N.Carrier
    pub steps : Option (List (MockStep N))
    pub after : Option (MockStep N)
    pub refund_steps : Option (List (MockStep N))

  pub record MockGateway : Type 0 where
    pub id : String
    pub behavior : MockGatewayBehavior N
    pub step_index : ℕ
    pub refund_step_index : ℕ
    pub transactions : Map TransactionStatus
    pub stats : MockGatewayStats
    pub refund_steps : List (MockStep N)

module _ {N : Number} where
  abbrev pub ok_behavior : MockGatewayBehavior N
  ok_behavior = record {
    latency_min_ms = N.of_ℕ 10;
    latency_max_ms = N.of_ℕ 30;
    steps = [];
    after = MockStep.ok none;
    refund_steps = [];
  }

  unfoldable pub new_gateway : String → MockGateway N
  new_gateway id = record {
    id = id;
    behavior = ok_behavior;
    step_index = 0;
    refund_step_index = 0;
    transactions = empty;
    stats = record {
      charges = 0;
      refunds = 0;
      failed_charges = 0;
      http_status_histogram = λ _. 0;
      correlation_ids = [];
    };
    refund_steps = [];
  }

  unfoldable pub configure : PartialBehavior N → MockGateway N → MockGateway N
  configure b m = record m {
    behavior = record {
      latency_min_ms = or_else b.latency_min_ms (N.of_ℕ 5);
      latency_max_ms = or_else b.latency_max_ms (N.of_ℕ 20);
      steps = or_else b.steps [];
      after = or_else b.after ok_behavior.after;
      refund_steps = or_else b.refund_steps [];
    };
    step_index = 0;
    refund_step_index = 0;
    refund_steps = or_else b.refund_steps [];
  }

  unfoldable pub reset : MockGateway N → MockGateway N
  unfolding configure
  reset m =
      configure
        (record {
          latency_min_ms = some (N.of_ℕ 5);
          latency_max_ms = some (N.of_ℕ 20);
          steps = some ok_behavior.steps;
          after = some ok_behavior.after;
          refund_steps = none;
        })
        m

  unfoldable pub next_step : MockGateway N → MockStep N × MockGateway N
  next_step m = elim (get_elem? m.behavior.steps m.step_index) [
    | some step ↦ (step, record m { step_index = m.step_index + 1 })
    | none ↦ (m.behavior.after, m)
  ]

  unfoldable pub next_refund_step : MockGateway N → Option (MockStep N) × MockGateway N
  next_refund_step m = elim (get_elem? m.refund_steps m.refund_step_index) [
    | some step ↦ (some step, record m { refund_step_index = m.refund_step_index + 1 })
    | none ↦ (none, m)
  ]

  random_latency : MockGatewayBehavior N → N.Carrier → N.Carrier
  random_latency b random =
      let min = b.latency_min_ms in
      let max = b.latency_max_ms in
      if N.le max min then min else N.add min (N.mul random (N.sub max min))

  unfoldable pub latency : MockGatewayBehavior N → Option (MockStep N) → N.Carrier → N.Carrier
  unfolding random_latency
  latency b (some (MockStep.ok (some ms))) random = ms
  latency b _ random = random_latency b random

  unfoldable pub tally : ℕ → MockGateway N → MockGateway N
  tally status m =
      let seen = m.stats.http_status_histogram in
      record m {
        stats = record m.stats {
          http_status_histogram = λ s. if s == status then seen s + 1 else seen s;
        };
      }

  -- What runs before the sleep: the step and the latency.
  unfoldable pub begin_charge :
      Option String → N.Carrier → MockGateway N → (MockStep N × N.Carrier) × MockGateway N
  unfolding next_step latency seen_ids
  begin_charge correlation_id random m =
      let (step, m1) = next_step m in
      let stats = record m1.stats {
        charges = m1.stats.charges + 1;
        correlation_ids = seen_ids correlation_id m1.stats.correlation_ids;
      } in
      ((step, latency m.behavior (some step) random), record m1 { stats = stats })

  -- What runs after it.
  unfoldable pub end_charge :
      ℕ → MockStep N → N.Carrier → MockGateway N → GatewayChargeResult N × MockGateway N
  unfolding tally failure_of to_string_base to_string
  end_charge now (MockStep.fail status code) ms m =
      let m1 = record m {
        stats = record m.stats { failed_charges = m.stats.failed_charges + 1 };
      } in
      (
        GatewayChargeResult.fail
            (failure_of ("gateway " <> m.id <> " rejected with HTTP " <> to_string status) status
              code)
            ms,
        tally status m1,
      )
  end_charge now (MockStep.ok _) ms m =
      let m1 = tally 200 m in
      let transaction_id =
        m.id <> "_txn_" <> to_string_base 36 now <> "_" <> to_string m1.stats.charges in
      (
        GatewayChargeResult.ok transaction_id 200 ms,
        record m1 { transactions = set transaction_id succeeded m1.transactions },
      )

  -- A charge that nothing overlaps.
  unfoldable pub charge :
      Option String → N.Carrier → ℕ → MockGateway N → GatewayChargeResult N × MockGateway N
  unfolding begin_charge end_charge
  charge correlation_id random now m =
      let ((step, ms), m1) = begin_charge correlation_id random m in end_charge now step ms m1

  unfoldable pub begin_refund :
      N.Carrier → MockGateway N → (Option (MockStep N) × N.Carrier) × MockGateway N
  unfolding next_refund_step latency
  begin_refund random m =
      let (step, m1) =
        next_refund_step (record m { stats = record m.stats { refunds = m.stats.refunds + 1 } }) in
      ((step, latency m1.behavior step random), m1)

  refund_done : String → N.Carrier → MockGateway N → GatewayRefundResult N × MockGateway N
  unfolding to_string
  refund_done transaction_id ms m = (
    GatewayRefundResult.ok ("refund_" <> transaction_id <> "_" <> to_string m.stats.refunds) 200 ms,
    m,
  )

  unfoldable pub end_refund :
      String
      → Option (MockStep N)
      → N.Carrier
      → MockGateway N
      → GatewayRefundResult N × MockGateway N
  unfolding tally failure_of refund_done to_string
  end_refund transaction_id (some (MockStep.fail status code)) ms m =
      let m1 = tally status m in
      (
        GatewayRefundResult.fail
            (failure_of ("gateway " <> m.id <> " refund rejected with HTTP " <> to_string status)
              status code)
            ms,
        record m1 { transactions = set transaction_id failed m1.transactions },
      )
  end_refund transaction_id (some (MockStep.ok _)) ms m = refund_done transaction_id ms m
  end_refund transaction_id none ms m = refund_done transaction_id ms m

  unfoldable pub refund : String → N.Carrier → MockGateway N → GatewayRefundResult N × MockGateway N
  unfolding begin_refund end_refund
  refund transaction_id random m =
      let ((step, ms), m1) = begin_refund random m in end_refund transaction_id step ms m1

  unfoldable pub get_status : String → MockGateway N → TransactionStatus
  get_status transaction_id m = or_else (m.transactions transaction_id) failed

-- `instances`
abbrev pub MockGateways : Number → Type 0
MockGateways N = Map (MockGateway N)

module _ {N : Number} where
  -- `get`, which provisions an unknown id.
  unfoldable pub get_gateway : String → MockGateways N → MockGateway N × MockGateways N
  unfolding new_gateway configure
  get_gateway id gateways = elim (gateways id) [
    | some m ↦ (m, gateways)
    | none ↦
        let m =
          configure
            (record {
              latency_min_ms = some (N.of_ℕ 5);
              latency_max_ms = some (N.of_ℕ 20);
              steps = none;
              after = none;
              refund_steps = none;
            })
            (new_gateway id) in
        (m, set id m gateways)
  ]

  unfoldable pub configure_gateway : String → PartialBehavior N → MockGateways N → MockGateways N
  unfolding get_gateway configure
  configure_gateway id b gateways =
      let (m, gateways1) = get_gateway id gateways in set id (configure b m) gateways1

  unfoldable pub reset_gateway : String → MockGateways N → MockGateways N
  unfolding get_gateway reset
  reset_gateway id gateways =
      let (m, gateways1) = get_gateway id gateways in set id (reset m) gateways1

  unfoldable pub reset_all : MockGateways N → MockGateways N
  unfolding reset
  reset_all gateways = map_values reset gateways

module _ (N : Number) (clock : ℕ → ℕ) (random : ℕ → N.Carrier) where
  -- The instances, and how often the clock and the random numbers were read.
  pub record MockState : Type 0 where
    pub instances : MockGateways N
    pub reads : ℕ

  -- The registry as the providers that a guard calls.
  unfoldable pub mock_gateways : PaymentGateways N
  unfolding get_gateway charge refund
  mock_gateways = record {
    State = MockState;
    charge = λ id payment correlation_id s.
        let (m, instances) = get_gateway id s.instances in
        let (r, m1) = charge correlation_id (random s.reads) (clock s.reads) m in
        (r, record { instances = set id m1 instances; reads = s.reads + 1 });
    refund = λ id transaction_id s.
        let (m, instances) = get_gateway id s.instances in
        let (r, m1) = refund transaction_id (random s.reads) m in
        (r, record { instances = set id m1 instances; reads = s.reads + 1 });
  }
