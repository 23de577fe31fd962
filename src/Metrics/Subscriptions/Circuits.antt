-- ===== src/Metrics/Subscriptions/Circuits.antt =====
-- metrics-collector.service.ts: the alerts on open circuits follow the events of the breakers.
use text.Mathlib.TextLemmas.{append_cancel_left}
use queue_system.Prelude.{
  ℕ, ◌≡◌, ◌∙◌, refl, ap, sym, Bool, true, false, String, Option, none, some, List, map, [], ◌∷◌,
  ◌&&◌, not, Bool-cases, inl, inr, str_eq, eq_iff, if◌then◌else◌,
}
use queue_system.Prelude.Text.{◌<>◌}
use queue_system.Prelude.Number.{Number}
use queue_system.Common.Events.{
  PaymentEventType, payment_event, job_completed, job_failed, circuit_opened, circuit_closed,
  rate_limit_throttled, saga_phase, metrics_alert,
}
use queue_system.Metrics.Collector.{
  MetricsConfig, MetricsCollector, set_circuit_alert, record_attempt, AttemptStats,
}
use queue_system.Metrics.Collector.Alerts.{active, active-filter_by}
use queue_system.Payments.Exec.{Result, ok, raised}
use queue_system.Metrics.Refresh.{CollectedDepths, refreshed}
use queue_system.Metrics.Collector.Untouched.{circuit_alert, evaluate-active, apply_rules-circuit}
use queue_system.Metrics.Subscriptions.{
  Refreshing, Subscriber, Step, handled, ticked, depths_came, handle, safe_refresh, resume_refresh,
  perform_step, on_payment, taken_out, handle_all,
}

str_eq-append : (s t u : String) → str_eq (s <> t) (s <> u) ≡ str_eq t u
str_eq-append s t u = elim (Bool-cases (str_eq t u)) [
  | inl e ↦ (eq_iff (s <> t) (s <> u)).1 (ap (◌<>◌ s) ((eq_iff t u).0 e)) ∙ sym e
  | inr e ↦ elim (Bool-cases (str_eq (s <> t) (s <> u))) [
    | inl f ↦
        let same = append_cancel_left s t u ((eq_iff (s <> t) (s <> u)).0 f) in
        f ∙ sym ((eq_iff t u).1 same)
    | inr f ↦ f ∙ sym e
  ]
]

str_eq_comm : (s t : String) → str_eq s t ≡ str_eq t s
str_eq_comm s t = elim (Bool-cases (str_eq s t)) [
  | inl e ↦ e ∙ sym ((eq_iff t s).1 (sym ((eq_iff s t).0 e)))
  | inr e ↦ elim (Bool-cases (str_eq t s)) [
    | inl f ↦ (eq_iff s t).1 (sym ((eq_iff t s).0 f)) ∙ sym f
    | inr f ↦ e ∙ sym f
  ]
]

and_not : (a b : Bool) → a && not b ≡ (if b then false else a)
and_not true true = refl
and_not true false = refl
and_not false true = refl
and_not false false = refl

-- Whether the last event of the gateway's circuit in a history says that it opened; `before` where there
-- is none.
abbrev pub circuit_after : {N : Number} {X : Type 0} → String → List (Step N X) → Bool → Bool
circuit_after g [] before = before
circuit_after g (handled (circuit_opened h at) now ∷ rest) before =
    circuit_after g rest (if str_eq h g then true else before)
circuit_after g (handled (circuit_closed h at) now ∷ rest) before =
    circuit_after g rest (if str_eq h g then false else before)
circuit_after g (_ ∷ rest) before = circuit_after g rest before

module _ {N : Number} (config : MetricsConfig N) where
  set_circuit_alert-active :
      (g h : String) (opened : Bool) (now : ℕ) (c : MetricsCollector N)
      → active config (circuit_alert g) (set_circuit_alert config h opened now c).alerts
        ≡ (if str_eq h g then opened else active config (circuit_alert g) c.alerts)
  unfolding set_circuit_alert
  set_circuit_alert-active g h true now c =
      evaluate-active config (circuit_alert g) (circuit_alert h) now _ c
      ∙ ap (λ b. if b then true else active config (circuit_alert g) c.alerts)
          (str_eq-append "circuit_open:" g h ∙ str_eq_comm g h)
  set_circuit_alert-active g h false now c =
      active-filter_by config (circuit_alert g) (λ id. not (str_eq (circuit_alert h) id)) c.alerts
      ∙ ap (λ b. active config (circuit_alert g) c.alerts && not b)
          (str_eq-append "circuit_open:" h g)
      ∙ and_not (active config (circuit_alert g) c.alerts) (str_eq h g)

  refreshed-circuit :
      {X : Type 0} (g : String) (now : ℕ) (s : AttemptStats N) (t1 t2 : ℕ) (clock : String → ℕ)
      (depths : Result X CollectedDepths) (c : MetricsCollector N)
      → active config (circuit_alert g) (refreshed config now s t1 t2 clock depths c).1.alerts
        ≡ active config (circuit_alert g) c.alerts
  unfolding refreshed
  refreshed-circuit g now s t1 t2 clock (ok depths) c =
      apply_rules-circuit config s (map (λ d. d.0) depths.gateways) t1 t2 clock c g
  refreshed-circuit g now s t1 t2 clock (raised x) c = refl

  resume_refresh-circuit :
      {X : Type 0} (g : String) (depths : Result X CollectedDepths) (t1 t2 : ℕ) (clock : String → ℕ)
      (found : Option (Refreshing N × List (Refreshing N))) (s : Subscriber N)
      → active config
          (circuit_alert g)
          (resume_refresh config depths t1 t2 clock found s).collector.alerts
        ≡ active config (circuit_alert g) s.collector.alerts
  unfolding resume_refresh
  resume_refresh-circuit g depths t1 t2 clock none s = refl
  resume_refresh-circuit g depths t1 t2 clock (some (r, others)) s =
      refreshed-circuit g r.started r.stats t1 t2 clock depths s.collector

  on_payment-circuit :
      (g : String) (type : PaymentEventType) (now : ℕ) (s : Subscriber N)
      → active config (circuit_alert g) (on_payment config type now s).collector.alerts
        ≡ active config (circuit_alert g) s.collector.alerts
  unfolding on_payment safe_refresh
  on_payment-circuit g PaymentEventType.queued now s = refl
  on_payment-circuit g _ now s = refl

  -- After any history of events, of ticks that ask for a refresh and of answers to the refreshes that
  -- wait, in whatever order they come and whether or not the depths could be had, the alert on the
  -- circuit of a gateway is active exactly if the last event of that circuit in the history says that it
  -- opened or, if there is none, if it was before.
  pub handle_all-circuit_after :
      {X : Type 0} (g : String) (history : List (Step N X)) (s : Subscriber N)
      → active config (circuit_alert g) (handle_all config history s).collector.alerts
        ≡ circuit_after g history (active config (circuit_alert g) s.collector.alerts)
  unfolding perform_step handle record_attempt safe_refresh
  handle_all-circuit_after g [] s = refl
  handle_all-circuit_after g (handled (circuit_opened h at) now ∷ rest) s =
      handle_all-circuit_after g rest _
      ∙ ap (circuit_after g rest) (set_circuit_alert-active g h true now s.collector)
  handle_all-circuit_after g (handled (circuit_closed h at) now ∷ rest) s =
      handle_all-circuit_after g rest _
      ∙ ap (circuit_after g rest) (set_circuit_alert-active g h false now s.collector)
  handle_all-circuit_after g (handled (job_completed id h succeeded ms at) now ∷ rest) s =
      handle_all-circuit_after g rest _
  handle_all-circuit_after g (handled (payment_event e) now ∷ rest) s =
      handle_all-circuit_after g rest _
      ∙ ap (circuit_after g rest) (on_payment-circuit g e.type now s)
  handle_all-circuit_after g (handled (job_failed id h reason at) now ∷ rest) s =
      handle_all-circuit_after g rest s
  handle_all-circuit_after g (handled (rate_limit_throttled h at) now ∷ rest) s =
      handle_all-circuit_after g rest s
  handle_all-circuit_after g (handled (saga_phase id h phase outcome at) now ∷ rest) s =
      handle_all-circuit_after g rest s
  handle_all-circuit_after g (handled (metrics_alert a at) now ∷ rest) s =
      handle_all-circuit_after g rest s
  handle_all-circuit_after g (ticked now ∷ rest) s = handle_all-circuit_after g rest _
  handle_all-circuit_after g (depths_came i depths t1 t2 clock ∷ rest) s =
      handle_all-circuit_after g rest _
      ∙ ap (circuit_after g rest)
          (resume_refresh-circuit g depths t1 t2 clock (taken_out config i s.awaiting) s)
