-- ===== src/Metrics/Refresh/Stale.antt =====
-- metrics-collector.service.ts: the alerts of the snapshot that a refresh returns.
use queue_system.Prelude.{ℕ, ◌≡◌, ◌∙◌, refl, true, false, String, map}
use queue_system.Prelude.Number.{Number}
use queue_system.Payments.Exec.{ok}
use queue_system.Metrics.Collector.{MetricsConfig, MetricsCollector, attempt_stats, error_rate_high}
use queue_system.Metrics.Collector.Alerts.{active, apply_rules_active}
use queue_system.Metrics.Refresh.{CollectedDepths, MetricsSnapshot, refresh}

module _ {N : Number} {X : Type 0} (config : MetricsConfig N)
    (between : MetricsCollector N → MetricsCollector N) (depths : CollectedDepths) where
  -- If the error rate of the window is too high and its alert is not yet active when the depths have
  -- come, then the refresh raises the alert, but the snapshot that it returns, with the high error
  -- rate, does not have it.
  pub refresh-stale :
      (now t1 t2 : ℕ) (clock : String → ℕ) (c : MetricsCollector N)
      → error_rate_high config (attempt_stats config now c) ≡ true
      → active config "error_rate_high" (between c).alerts ≡ false
      → let (result, c') = refresh {X = X} config between (ok depths) now t1 t2 clock c in
        (snapshot : MetricsSnapshot N) × (result ≡ ok snapshot)
        × (error_rate_high config snapshot.stats ≡ true)
        × (active config "error_rate_high" snapshot.alerts ≡ false)
        × (active config "error_rate_high" c'.alerts ≡ true)
  unfolding refresh
  refresh-stale now t1 t2 clock c high quiet =
      let s = attempt_stats config now c in
      let rules =
        apply_rules_active config s (map (λ g. g.0) depths.gateways) t1 t2 clock (between c) in
      (_, refl, high, quiet, rules.0 ∙ high)
