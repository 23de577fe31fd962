-- ===== src/Metrics/Collector/Untouched.antt =====
-- metrics-collector.service.ts: the rules of a refresh leave the alerts on circuits alone.
use Prim.Native.String.append
use Prim.Native.String.slice
use Prim.Native.String as Text
use Prim.Native.Char.{Char, code}
use text.Mathlib.TextLemmas.{head-eq_of_cons-eq}
use queue_system.Prelude.{
  ℕ, ◌≡◌, ◌∙◌, refl, ap, Bool, true, false, String, some, List, [], ◌∷◌, ◌++◌, ◌&&◌, Bool-cases,
  Option-cases, inl, inr, arith, str_eq, eq_iff, ◌==◌, ==_refl, if◌then◌else◌, or_else,
}
use queue_system.Prelude.Text.{◌<>◌}
use queue_system.Prelude.Number.{Number}
use queue_system.Common.Events.{MetricsAlertPayload}
use queue_system.Metrics.Collector.{
  MetricsConfig, MetricsCollector, AlertSpec, AttemptStats, QueueDepths, cooled_down, find_alert,
  evaluate, still_active, evaluate_depth, evaluate_depths, evaluate_p95, evaluate_error_rate,
  apply_rules,
}
use queue_system.Metrics.Collector.Alerts.{active, present, active-filter_by}

abbrev pub circuit_alert : String → String
circuit_alert gateway_id = "circuit_open:" <> gateway_id

abbrev prefixed : Char → String → String
prefixed c s = Text.◌∷◌ c s

-- Texts with different first letters differ.
heads_apart :
    (c d : Char) (s t : String)
    → code c == code d ≡ false
    → str_eq (prefixed c s) (prefixed d t) ≡ false
heads_apart c d s t apart = elim (Bool-cases (str_eq (prefixed c s) (prefixed d t))) [
  | inl same ↦
      let e = head-eq_of_cons-eq ((eq_iff (prefixed c s) (prefixed d t)).0 same) in
      cc (==_refl (code c), ap (λ x. code c == code x) e, apart)
  | inr differ ↦ differ
]

and_true : (b : Bool) → b && true ≡ b
and_true true = refl
and_true false = refl

circuit_alert-prefixed : (g : String) → circuit_alert g ≡ prefixed "c" ("ircuit_open:" <> g)
circuit_alert-prefixed g = append.cons "c" "ircuit_open:" g

circuit_alert-slice :
    (g : String)
    → Text.slice (circuit_alert g) 0 17 ≡ prefixed "c" (Text.slice ("ircuit_open:" <> g) 0 16)
circuit_alert-slice g =
    ap (λ s. Text.slice s 0 17) (circuit_alert-prefixed g)
    ∙ slice.cons-zero "c" ("ircuit_open:" <> g) 17

-- No alert of another kind has the id of an alert on a circuit.
circuit_apart :
    (g : String) (d : Char) (t : String)
    → code "c" == code d ≡ false
    → str_eq (circuit_alert g) (prefixed d t) ≡ false
circuit_apart g d t apart =
    ap (λ s. str_eq s (prefixed d t)) (circuit_alert-prefixed g) ∙ heads_apart "c" d _ t apart

circuit_apart-depth_alert :
    (g h : String) → str_eq (circuit_alert g) ("queue_depth_high:" <> h) ≡ false
circuit_apart-depth_alert g h =
    ap (str_eq (circuit_alert g)) (append.cons "q" "ueue_depth_high:" h)
    ∙ circuit_apart g "q" ("ueue_depth_high:" <> h) refl

module _ {N : Number} (config : MetricsConfig N) where
  active-snoc :
      (id : String) (xs : List (MetricsAlertPayload N)) (a : MetricsAlertPayload N)
      → active config id (xs ++ a ∷ []) ≡ (if str_eq id a.id then true else active config id xs)
  unfolding find_alert
  active-snoc id [] a = ground arith
  active-snoc id (x ∷ xs) a = ground (arith, active-snoc id xs a)

  active_already :
      (id other : String) (xs : List (MetricsAlertPayload N)) (a : MetricsAlertPayload N)
      → find_alert config other xs ≡ some a
      → active config id xs ≡ (if str_eq id other then true else active config id xs)
  active_already id other xs a there = elim (Bool-cases (str_eq id other)) [
    | inl e ↦ rw e (ap (λ k. active config k xs) ((eq_iff id other).0 e) ∙ ap present there)
    | inr e ↦ rw e refl
  ]

  pub evaluate-active :
      (id other : String) (now : ℕ) (spec : AlertSpec N) (c : MetricsCollector N)
      → active config id (evaluate config other true now spec c).alerts
        ≡ (if str_eq id other then true else active config id c.alerts)
  unfolding evaluate
  evaluate-active id other now spec c = elim (Option-cases (find_alert config other c.alerts)) [
    | inl new ↦ rw (new, evaluate) (active-snoc id c.alerts _)
    | inr (a, there) ↦
        rw (there, evaluate)
          (elim (Bool-cases (cooled_down config (or_else (c.last_raised_at other) 0) now)) [
            | inl f ↦ rw f (active_already id other c.alerts a there)
            | inr f ↦ rw f (active_already id other c.alerts a there)
          ])
  ]

  evaluate-other :
      (id other : String) (condition : Bool) (now : ℕ) (spec : AlertSpec N) (c : MetricsCollector N)
      → str_eq id other ≡ false
      → active config id (evaluate config other condition now spec c).alerts
        ≡ active config id c.alerts
  unfolding evaluate
  evaluate-other id other false now spec c apart = refl
  evaluate-other id other true now spec c apart =
      evaluate-active id other now spec c
      ∙ ap (λ b. if b then true else active config id c.alerts) apart

  evaluate_depths-circuit :
      (g : String) (depths : List QueueDepths) (clock : String → ℕ) (c : MetricsCollector N)
      → active config (circuit_alert g) (evaluate_depths config depths clock c).alerts
        ≡ active config (circuit_alert g) c.alerts
  unfolding evaluate_depths evaluate_depth
  evaluate_depths-circuit g [] clock c = refl
  evaluate_depths-circuit g (d ∷ rest) clock c =
      evaluate_depths-circuit g rest clock _
      ∙ evaluate-other (circuit_alert g) ("queue_depth_high:" <> d.gateway_id) _ _ _ c
          (circuit_apart-depth_alert g d.gateway_id)

  still_active-circuit :
      (s : AttemptStats N) (depths : List QueueDepths) (g : String)
      → still_active config s depths (circuit_alert g) ≡ true
  unfolding still_active
  still_active-circuit s depths g = rw (circuit_apart g "e" "rror_rate_high" refl) (
      rw (circuit_apart g "p" "95_latency_high" refl)
        (rw (circuit_alert-slice g) (rw (heads_apart "c" "q" _ "ueue_depth_high:" refl) refl)))

  -- The rules of a refresh neither raise nor clear an alert on a circuit.
  pub apply_rules-circuit :
      (s : AttemptStats N) (depths : List QueueDepths) (t1 t2 : ℕ) (clock : String → ℕ)
      (c : MetricsCollector N) (g : String)
      → active config (circuit_alert g) (apply_rules config s depths t1 t2 clock c).alerts
        ≡ active config (circuit_alert g) c.alerts
  unfolding apply_rules evaluate_p95 evaluate_error_rate
  apply_rules-circuit s depths t1 t2 clock c g =
      let c1 = evaluate_error_rate config s t1 c in
      let c2 = evaluate_p95 config s t2 c1 in
      let c3 = evaluate_depths config depths clock c2 in
      active-filter_by config (circuit_alert g) (still_active config s depths) c3.alerts
      ∙ ap (◌&&◌ (active config (circuit_alert g) c3.alerts)) (still_active-circuit s depths g)
      ∙ and_true (active config (circuit_alert g) c3.alerts)
      ∙ evaluate_depths-circuit g depths clock c2
      ∙ evaluate-other (circuit_alert g) "p95_latency_high" _ _ _ c1
          (circuit_apart g "p" "95_latency_high" refl)
      ∙ evaluate-other (circuit_alert g) "error_rate_high" _ _ _ c
          (circuit_apart g "e" "rror_rate_high" refl)
