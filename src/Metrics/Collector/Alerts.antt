-- ===== src/Metrics/Collector/Alerts.antt =====
-- metrics-collector.service.ts: when an alert is active, and when it is announced.
use queue_system.Prelude.{
  ℕ, ◌+◌, ◌<◌, lt→leb, ◌≡◌, ◌∙◌, refl, ap, sym, Bool, true, false, String, Option, none, some, List,
  [], ◌∷◌, ◌++◌, ◌&&◌, Bool-cases, Option-cases, inl, inr, arith, str_eq, eq_iff, eq_refl,
  filter_by, or_else,
}
use queue_system.Prelude.Number.{Number}
use queue_system.Common.Events.{MetricsAlertPayload, metrics_alert}
use queue_system.Metrics.Collector.{
  MetricsConfig, MetricsCollector, AlertSpec, AttemptStats, QueueDepths, find_alert, evaluate,
  still_active, error_rate_high, p95_latency_high, evaluate_depths, evaluate_p95,
  evaluate_error_rate, apply_rules, cooled_down,
}

abbrev pub present {ℓ} : {A : Type ℓ} → Option A → Bool
present none = false
present (some a) = true

and_false : (b : Bool) → b && false ≡ false
and_false true = refl
and_false false = refl

pub and_of : (a b : Bool) → (b ≡ true → a ≡ true) → a && b ≡ b
and_of true b h = refl
and_of false true h = h refl
and_of false false h = refl

module _ {N : Number} (config : MetricsConfig N) where
  -- `this.alerts.has(id)`
  abbrev pub active : String → List (MetricsAlertPayload N) → Bool
  active id alerts = present (find_alert config id alerts)

  active-append :
      (id : String) (xs : List (MetricsAlertPayload N)) (a : MetricsAlertPayload N)
      → active id xs ≡ true
      → active id (xs ++ a ∷ []) ≡ true
  unfolding find_alert
  active-append id [] a h = ground arith
  active-append id (x ∷ xs) a h = ground (arith, active-append id xs a)

  active_appended :
      (xs : List (MetricsAlertPayload N)) (a : MetricsAlertPayload N)
      → active a.id (xs ++ a ∷ []) ≡ true
  unfolding find_alert
  active_appended [] a = rw (eq_refl a.id) refl
  active_appended (x ∷ xs) a = ground (arith, active_appended xs a)

  -- Removing alerts by a test of their ids.
  pub active-filter_by :
      (id : String) (p : String → Bool) (xs : List (MetricsAlertPayload N))
      → active id (filter_by (λ a. p a.id) xs) ≡ active id xs && p id
  unfolding find_alert
  active-filter_by id p [] = refl
  active-filter_by id p (x ∷ xs) = elim (Bool-cases (str_eq id x.id)) [
    | inl e ↦
        let q : p id ≡ p x.id = ap p ((eq_iff id x.id).0 e) in
        elim (Bool-cases (p x.id)) [
          | inl f ↦ rw f (rw e (sym (q ∙ f)))
          | inr f ↦ rw f (
              active-filter_by id p xs
              ∙ ap (◌&&◌ (active id xs)) (q ∙ f)
              ∙ and_false (active id xs)
              ∙ sym (rw e (q ∙ f)))
        ]
    | inr e ↦ elim (Bool-cases (p x.id)) [
      | inl f ↦ rw f (rw e (active-filter_by id p xs))
      | inr f ↦ rw f (rw e (active-filter_by id p xs))
    ]
  ]

  pub evaluate-keeps :
      (id other : String) (condition : Bool) (now : ℕ) (spec : AlertSpec N) (c : MetricsCollector N)
      → active id c.alerts ≡ true
      → active id (evaluate config other condition now spec c).alerts ≡ true
  unfolding evaluate
  evaluate-keeps id other false now spec c h = h
  evaluate-keeps id other true now spec c h =
      elim (Option-cases (find_alert config other c.alerts)) [
        | inl e ↦ rw (e, evaluate) (active-append id c.alerts _ h)
        | inr (a, e) ↦
            rw (e, evaluate)
              (elim (Bool-cases (cooled_down config (or_else (c.last_raised_at other) 0) now)) [
                | inl f ↦ rw f h
                | inr f ↦ rw f h
              ])
      ]

  pub evaluate-raises :
      (id : String) (now : ℕ) (spec : AlertSpec N) (c : MetricsCollector N)
      → active id (evaluate config id true now spec c).alerts ≡ true
  unfolding evaluate
  evaluate-raises id now spec c = elim (Option-cases (find_alert config id c.alerts)) [
    | inl e ↦ rw (e, evaluate) (active_appended c.alerts _)
    | inr (a, e) ↦
        rw (e, evaluate)
          (elim (Bool-cases (cooled_down config (or_else (c.last_raised_at id) 0) now)) [
            | inl f ↦ rw f (ap present e)
            | inr f ↦ rw f (ap present e)
          ])
  ]

  pub evaluate_depths-keeps :
      (id : String) (depths : List QueueDepths) (clock : String → ℕ) (c : MetricsCollector N)
      → active id c.alerts ≡ true
      → active id (evaluate_depths config depths clock c).alerts ≡ true
  unfolding evaluate_depths
  evaluate_depths-keeps id [] clock c h = h
  evaluate_depths-keeps id (g ∷ rest) clock c h =
      evaluate_depths-keeps id rest clock _ (evaluate-keeps id _ _ _ _ c h)

  error_rate_raised :
      (s : AttemptStats N) (t : ℕ) (c : MetricsCollector N)
      → error_rate_high config s ≡ true
      → active "error_rate_high" (evaluate_error_rate config s t c).alerts ≡ true
  unfolding evaluate_error_rate
  error_rate_raised s t c h = rw h (evaluate-raises _ t _ c)

  p95_raised :
      (s : AttemptStats N) (t : ℕ) (c : MetricsCollector N)
      → p95_latency_high config s ≡ true
      → active "p95_latency_high" (evaluate_p95 config s t c).alerts ≡ true
  unfolding evaluate_p95
  p95_raised s t c h = rw h (evaluate-raises _ t _ c)

  p95_keeps :
      (id : String) (s : AttemptStats N) (t : ℕ) (c : MetricsCollector N)
      → active id c.alerts ≡ true
      → active id (evaluate_p95 config s t c).alerts ≡ true
  unfolding evaluate_p95
  p95_keeps id s t c h = evaluate-keeps id _ _ t _ c h

  -- After a refresh the alert on the error rate is active exactly when the error rate of the snapshot is
  -- above its threshold, whether it was active before or not; and the alert on the latency likewise.
  pub apply_rules_active :
      (s : AttemptStats N) (depths : List QueueDepths) (t1 t2 : ℕ) (clock : String → ℕ)
      (c : MetricsCollector N)
      → let c' = apply_rules config s depths t1 t2 clock c in
        (active "error_rate_high" c'.alerts ≡ error_rate_high config s)
        × (active "p95_latency_high" c'.alerts ≡ p95_latency_high config s)
  unfolding apply_rules still_active
  apply_rules_active s depths t1 t2 clock c =
      let c1 = evaluate_error_rate config s t1 c in
      let c2 = evaluate_p95 config s t2 c1 in
      let c3 = evaluate_depths config depths clock c2 in
      (
        active-filter_by "error_rate_high" (still_active config s depths) c3.alerts
            ∙ and_of _ _ (λ h.
              evaluate_depths-keeps _ depths clock c2
                (p95_keeps _ s t2 c1 (error_rate_raised s t1 c h))),
        active-filter_by "p95_latency_high" (still_active config s depths) c3.alerts
            ∙ and_of _ _ (λ h. evaluate_depths-keeps _ depths clock c2 (p95_raised s t2 c1 h)),
      )

  evaluate_quiet :
      (id : String) (now last : ℕ) (spec : AlertSpec N) (c : MetricsCollector N)
      → active id c.alerts ≡ true
      → c.last_raised_at id ≡ some last
      → now < last + config.alert_cooldown_ms
      → evaluate config id true now spec c ≡ c
  unfolding evaluate cooled_down
  evaluate_quiet id now last spec c h raised early =
      elim (Option-cases (find_alert config id c.alerts)) [
        | inl e ↦ ground (arith, h, e)
        | inr (a, e) ↦
            rw (e, evaluate)
              (rw raised (rw (lt→leb now (last + config.alert_cooldown_ms) early) refl))
      ]

  evaluate_first :
      (id : String) (now : ℕ) (spec : AlertSpec N) (c : MetricsCollector N)
      → find_alert config id c.alerts ≡ none
      → let c' = evaluate config id true now spec c in
        (c'.last_raised_at id ≡ some now)
        × ((a : MetricsAlertPayload N) × (a.id ≡ id)
            × (a.severity ≡ spec.severity)
            × (a.message ≡ spec.message)
            × (a.raised_at ≡ now)
            × (c'.events ≡ c.events ++ metrics_alert a now ∷ []))
  unfolding evaluate
  evaluate_first id now spec c inactive =
      rw (inactive, evaluate)
        (
          rw (eq_refl id) refl,
          (
            record {
              id = id;
              severity = spec.severity;
              message = spec.message;
              value = spec.value;
              threshold = spec.threshold;
              raised_at = now;
            },
            refl,
            refl,
            refl,
            refl,
            refl,
          ),
        )

  -- A condition that holds while its alert is not active announces one alert, active from then on, and
  -- while it goes on to hold nothing more is announced or changed before the cooldown is over.
  pub evaluate_announces_once :
      (id : String) (now later : ℕ) (spec spec' : AlertSpec N) (c : MetricsCollector N)
      → find_alert config id c.alerts ≡ none
      → later < now + config.alert_cooldown_ms
      → let c' = evaluate config id true now spec c in
        (active id c'.alerts ≡ true)
        × ((a : MetricsAlertPayload N) × (a.id ≡ id)
            × (a.severity ≡ spec.severity)
            × (a.message ≡ spec.message)
            × (a.raised_at ≡ now)
            × (c'.events ≡ c.events ++ metrics_alert a now ∷ []))
        × (evaluate config id true later spec' c' ≡ c')
  evaluate_announces_once id now later spec spec' c inactive early =
      let r = evaluate-raises id now spec c in
      let f = evaluate_first id now spec c inactive in
      (r, f.1, evaluate_quiet id later now spec' (evaluate config id true now spec c) r f.0 early)
