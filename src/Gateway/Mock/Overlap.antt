-- ===== src/Gateway/Mock/Overlap.antt =====
-- mock-gateway.service.ts: two charges of one gateway whose sleeps overlap.
use queue_system.Prelude.{ℕ, ◌≡◌, refl, String, Option, none, some}
use queue_system.Prelude.Number.{Number}
use queue_system.Gateway.Types.{GatewayChargeResult, MockStep}
use queue_system.Gateway.Mock.{MockGateway, begin_charge, end_charge}

abbrev pub transaction_of : {N : Number} → GatewayChargeResult N → Option String
transaction_of (GatewayChargeResult.ok id status ms) = some id
transaction_of (GatewayChargeResult.fail f ms) = none

module _ {N : Number} (m : MockGateway N) (first second : Option String) (r s : N.Carrier)
    (now : ℕ) where
  -- Two charges that succeed, whose sleeps overlap and end in the same millisecond, are answered with
  -- one and the same transaction id.
  pub charge-overlaps :
      (x y : Option N.Carrier)
      → let ((step, ms), m1) = begin_charge first r m in
        let ((step', ms'), m2) = begin_charge second s m1 in
        step ≡ MockStep.ok x
        → step' ≡ MockStep.ok y
        → let (answer, m3) = end_charge now step ms m2 in
          let (answer', m4) = end_charge now step' ms' m3 in
          (id : String) × (transaction_of answer ≡ some id) × (transaction_of answer' ≡ some id)
  unfolding end_charge
  charge-overlaps x y started started_too = rw (started) (rw (started_too) (_, refl, refl))
