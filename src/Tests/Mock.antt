-- ===== src/Tests/Mock.antt =====
-- The mock gateway at a concrete script.
use queue_system.Prelude.{ℕ, ◌≡◌, refl, String, Option, none, some, List, [], ◌∷◌, map}
use queue_system.Prelude.Number.{whole_number}
use queue_system.Domain.Errors.{rate_limited, fraud, classify_http_status}
use queue_system.Gateway.Types.{MockStep}
use queue_system.Gateway.Mock.{
  MockGateway, PartialBehavior, new_gateway, configure, begin_charge, end_charge,
}
use queue_system.Gateway.Mock.Script.{rejection, charge_all, charge_all-configure}
use queue_system.Gateway.Mock.Overlap.{transaction_of, charge-overlaps}

abbrev script : List (MockStep whole_number)
script = MockStep.fail 429 none ∷ MockStep.fail 402 (some fraud) ∷ []

abbrev behavior0 : PartialBehavior whole_number
behavior0 = record {
  latency_min_ms = none;
  latency_max_ms = none;
  steps = some script;
  after = none;
  refund_steps = none;
}

abbrev inputs : List (Option String × ℕ × ℕ)
inputs = (none, 0, 7) ∷ (some "c1", 0, 8) ∷ (none, 1, 9) ∷ []

abbrev gateway0 : MockGateway whole_number
gateway0 = new_gateway "stripe"

same_transaction :
    let ((step, ms), m1) = begin_charge none 0 gateway0 in
    let ((step', ms'), m2) = begin_charge none 1 m1 in
    let (answer, m3) = end_charge 35 step ms m2 in
    let (answer', m4) = end_charge 35 step' ms' m3 in
    (id : String) × (transaction_of answer ≡ some id) × (transaction_of answer' ≡ some id)
unfolding begin_charge new_gateway
same_transaction = charge-overlaps gateway0 none none 0 1 35 none none refl refl

charged :
    map rejection (charge_all inputs (configure behavior0 gateway0)).0
    ≡ some (rate_limited, 429) ∷ some (fraud, 402) ∷ none ∷ []
unfolding classify_http_status
charged = charge_all-configure behavior0 gateway0 inputs
