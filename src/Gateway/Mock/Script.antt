-- ===== src/Gateway/Mock/Script.antt =====
-- mock-gateway.service.ts: the charges of a gateway follow its script.
use queue_system.Prelude.{
  arith, sym, Option-cases, ℕ, zero, suc, ◌+◌, ◌≤◌, ◌≡◌, ◌⊎◌, ◌∙◌, inl, inr, refl, ap, String,
  Option, none, some, List, [], ◌∷◌, or_else, get_elem?, length, map,
}
use queue_system.Prelude.Number.{Number}
use queue_system.Domain.Errors.{PaymentErrorCode, classify_http_status}
use queue_system.Gateway.Types.{GatewayChargeResult, MockStep}
use queue_system.Gateway.Mock.{
  MockGateway, PartialBehavior, configure, charge, begin_charge, next_step, tally,
}

module _ {N : Number} where
  -- The error code and the HTTP status of a rejection.
  abbrev pub rejection : GatewayChargeResult N → Option (PaymentErrorCode × ℕ)
  rejection (GatewayChargeResult.ok id status ms) = none
  rejection (GatewayChargeResult.fail f ms) = some (f.code, f.http_status)

  abbrev pub scripted : MockStep N → Option (PaymentErrorCode × ℕ)
  scripted (MockStep.ok ms) = none
  scripted (MockStep.fail status code) = some (or_else code (classify_http_status status), status)

  -- Charges one after another, each with its correlation id, random number and time.
  abbrev pub charge_all :
      List (Option String × N.Carrier × ℕ)
      → MockGateway N
      → List (GatewayChargeResult N) × MockGateway N
  charge_all [] m = ([], m)
  charge_all ((correlation_id, random, now) ∷ rest) m =
      let (r, m1) = charge correlation_id random now m in
      let (rs, m2) = charge_all rest m1 in (r ∷ rs, m2)

  -- The script from its k-th step on, and what comes after it, for as many charges.
  abbrev pub played :
      {A : Type 0}
      → List (MockStep N)
      → MockStep N
      → ℕ
      → List A
      → List (Option (PaymentErrorCode × ℕ))
  played steps after k [] = []
  played steps after k (_ ∷ rest) =
      scripted (or_else (get_elem? steps k) after) ∷ played steps after (k + 1) rest

  -- The gateway has played `k` charges of its script.
  abbrev Played : ℕ → MockGateway N → Type 0
  Played k m =
      (m.step_index ≡ k)
      ⊎ ((length m.behavior.steps ≤ k) × (length m.behavior.steps ≤ m.step_index))

get_elem?-past : {A : Type 0} (xs : List A) (k : ℕ) → length xs ≤ k → get_elem? xs k ≡ none
get_elem?-past [] k h = refl
get_elem?-past (x ∷ xs) zero h = ground arith
get_elem?-past (x ∷ xs) (suc k) h = get_elem?-past xs k (omega arith)

get_elem?-none : {A : Type 0} (xs : List A) (k : ℕ) → get_elem? xs k ≡ none → length xs ≤ k
get_elem?-none [] k h = omega arith
get_elem?-none (x ∷ xs) zero h = ground arith
get_elem?-none (x ∷ xs) (suc k) h = omega (arith, get_elem?-none xs k h)

module _ {N : Number} where
  -- A charge answers by the step that it takes, and leaves the script as that step leaves it.
  charge-next_step :
      (s : MockStep N) (m m1 : MockGateway N) (correlation_id : Option String) (random : N.Carrier)
      (now : ℕ)
      → next_step m ≡ (s, m1)
      → let (r, m2) = charge correlation_id random now m in
        (rejection r ≡ scripted s) × (m2.behavior ≡ m1.behavior) × (m2.step_index ≡ m1.step_index)
  unfolding charge tally
  charge-next_step (MockStep.ok ms) m m1 correlation_id random now taken =
      rw (taken, begin_charge) (refl, refl, refl)
  charge-next_step (MockStep.fail status code) m m1 correlation_id random now taken =
      rw (taken, begin_charge) (refl, refl, refl)

  next_step-first :
      (m : MockGateway N)
      → let (s, m1) = next_step m in
        (s ≡ or_else (get_elem? m.behavior.steps m.step_index) m.behavior.after)
        × (m1.behavior ≡ m.behavior)
        × Played (m.step_index + 1) m1
  unfolding next_step
  next_step-first m = elim (Option-cases (get_elem? m.behavior.steps m.step_index)) [
    | inl past ↦
        let past_index = get_elem?-none m.behavior.steps m.step_index past in
        rw (past, next_step) (refl, refl, inr (omega arith, past_index))
    | inr (step, found) ↦ rw (found, next_step) (refl, refl, inl refl)
  ]

  next_step-Played :
      (k : ℕ) (m : MockGateway N)
      → Played k m
      → let (s, m1) = next_step m in
        (s ≡ or_else (get_elem? m.behavior.steps k) m.behavior.after)
        × (m1.behavior ≡ m.behavior)
        × Played (k + 1) m1
  unfolding next_step
  next_step-Played k m (inl is_k) = rw (sym is_k) (next_step-first m)
  next_step-Played k m (inr (past, past_index)) = rw (get_elem?-past m.behavior.steps k past) (
      rw (get_elem?-past m.behavior.steps m.step_index past_index, next_step)
        (refl, refl, inr (omega arith, past_index)))

  Played-same :
      (k : ℕ) (m1 m2 : MockGateway N)
      → m2.behavior ≡ m1.behavior
      → m2.step_index ≡ m1.step_index
      → Played k m1
      → Played k m2
  Played-same k m1 m2 behavior index (inl is_k) = inl (index ∙ is_k)
  Played-same k m1 m2 behavior index (inr (past, past_index)) =
      inr (rw (behavior) past, rw (behavior) (rw (index) past_index))

  charge_all-played :
      (inputs : List (Option String × N.Carrier × ℕ)) (k : ℕ) (m : MockGateway N)
      → Played k m
      → map rejection (charge_all inputs m).0 ≡ played m.behavior.steps m.behavior.after k inputs
  charge_all-played [] k m h = refl
  charge_all-played ((correlation_id, random, now) ∷ rest) k m h =
      let m1 : MockGateway N = (next_step m).1 in
      let m2 : MockGateway N = (charge correlation_id random now m).1 in
      let (is_step, behavior, further) = next_step-Played k m h in
      let (rejected, kept, index) = charge-next_step _ m m1 correlation_id random now refl in
      let first = rejected ∙ ap scripted is_step in
      let same = kept ∙ behavior in
      let later =
        charge_all-played rest (k + 1) m2 (Played-same (k + 1) m1 m2 kept index further) in
      rw (first, later)
        (ap
          (λ b.
            scripted (or_else (get_elem? m.behavior.steps k) m.behavior.after)
            ∷ played b.steps b.after (k + 1) rest)
          same)

  -- After a `configure`, charges that do not overlap are answered as the script says: the k-th as its
  -- k-th step, and those after its end as `after`.
  pub charge_all-configure :
      (b : PartialBehavior N) (m : MockGateway N) (inputs : List (Option String × N.Carrier × ℕ))
      → map rejection (charge_all inputs (configure b m)).0
        ≡ played (or_else b.steps []) (or_else b.after (MockStep.ok none)) 0 inputs
  unfolding configure
  charge_all-configure b m inputs = charge_all-played inputs 0 (configure b m) (inl refl)
