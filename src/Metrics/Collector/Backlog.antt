-- ===== src/Metrics/Collector/Backlog.antt =====
-- metrics-collector.service.ts: the alerts on the depths of the queues.
use Prim.Native.String.{slice, len}
use mathlib.Core.Path.{subst}
use text.Mathlib.TextPositions.{len-append, slice-append_left, slice-append_right}
use queue_system.Prelude.{
  ℕ, ◌≡◌, ◌∙◌, refl, ap, sym, true, false, String, List, [], ◌∷◌, Bool-cases, inl, inr, str_eq,
  eq_iff, ltb, ◌&&◌, arith,
}
use queue_system.Prelude.Text.{◌<>◌}
use queue_system.Prelude.Number.{Number}
use queue_system.Metrics.Collector.{
  MetricsConfig, MetricsCollector, AttemptStats, QueueDepths, waiting_of, still_active,
  evaluate_depth, evaluate_depths, evaluate_p95, evaluate_error_rate, apply_rules,
}
use queue_system.Metrics.Collector.Alerts.{
  active, active-filter_by, and_of, evaluate-raises, evaluate_depths-keeps,
}

abbrev pub depth_alert : String → String
depth_alert id = "queue_depth_high:" <> id

slice-prefix : (id : String) → slice (depth_alert id) 0 17 ≡ "queue_depth_high:"
slice-prefix id = slice-append_left "queue_depth_high:" id

slice-rest : (id : String) → slice (depth_alert id) 17 (len (depth_alert id)) ≡ id
slice-rest id =
    ap (slice (depth_alert id) 17) (len-append "queue_depth_high:" id)
    ∙ slice-append_right "queue_depth_high:" id

other_alert :
    (id other : String)
    → str_eq "queue_depth_high:" (slice other 0 17) ≡ false
    → str_eq (depth_alert id) other ≡ false
other_alert id other apart = elim (Bool-cases (str_eq (depth_alert id) other)) [
  | inl same ↦
      let e =
        sym (slice-prefix id) ∙ ap (λ t. slice t 0 17) ((eq_iff (depth_alert id) other).0 same) in
      cc (apart, (eq_iff "queue_depth_high:" (slice other 0 17)).1 e)
  | inr differ ↦ differ
]

module _ {N : Number} (config : MetricsConfig N) where
  still_active-depth_alert :
      (s : AttemptStats N) (depths : List QueueDepths) (id : String)
      → still_active config s depths (depth_alert id)
        ≡ ltb config.queue_depth_alert (waiting_of config id depths)
  unfolding still_active
  still_active-depth_alert s depths id = rw (other_alert id "error_rate_high" refl) (
      rw (other_alert id "p95_latency_high" refl) (
        rw (slice-prefix id)
          (ap (λ g. ltb config.queue_depth_alert (waiting_of config g depths)) (slice-rest id))))

  evaluate_depth-raises :
      (g : QueueDepths) (t : ℕ) (c : MetricsCollector N)
      → ltb config.queue_depth_alert g.waiting ≡ true
      → active config (depth_alert g.gateway_id) (evaluate_depth config g t c).alerts ≡ true
  unfolding evaluate_depth
  evaluate_depth-raises g t c deep =
      rw (deep) (evaluate-raises config (depth_alert g.gateway_id) t _ c)

  evaluate_depths-raises :
      (id : String) (depths : List QueueDepths) (clock : String → ℕ) (c : MetricsCollector N)
      → ltb config.queue_depth_alert (waiting_of config id depths) ≡ true
      → active config (depth_alert id) (evaluate_depths config depths clock c).alerts ≡ true
  unfolding evaluate_depths
  evaluate_depths-raises id [] clock c h = absurd (ground arith)
  evaluate_depths-raises id (g ∷ rest) clock c h = elim (Bool-cases (str_eq g.gateway_id id)) [
    | inl its ↦
        let deep : ltb config.queue_depth_alert g.waiting ≡ true = rw its at h in
        evaluate_depths-keeps config (depth_alert id) rest clock _ (
          subst
            (λ k.
              active config (depth_alert k) (evaluate_depth config g (clock g.gateway_id) c).alerts
              ≡ true)
            ((eq_iff g.gateway_id id).0 its) (evaluate_depth-raises g (clock g.gateway_id) c deep))
    | inr other ↦ evaluate_depths-raises id rest clock _ (rw other at h)
  ]

  -- After a refresh the alert on a gateway's queue is active exactly when more of its jobs wait than the
  -- threshold allows, whether it was active before or not; a gateway that is not listed has none waiting.
  pub apply_rules_backlog :
      (s : AttemptStats N) (depths : List QueueDepths) (t1 t2 : ℕ) (clock : String → ℕ)
      (c : MetricsCollector N) (id : String)
      → active config (depth_alert id) (apply_rules config s depths t1 t2 clock c).alerts
        ≡ ltb config.queue_depth_alert (waiting_of config id depths)
  unfolding apply_rules
  apply_rules_backlog s depths t1 t2 clock c id =
      let c3 =
        evaluate_depths config depths clock
          (evaluate_p95 config s t2 (evaluate_error_rate config s t1 c)) in
      active-filter_by config (depth_alert id) (still_active config s depths) c3.alerts
      ∙ ap (◌&&◌ (active config (depth_alert id) c3.alerts)) (still_active-depth_alert s depths id)
      ∙ and_of _ _ (λ h. evaluate_depths-raises id depths clock _ h)
