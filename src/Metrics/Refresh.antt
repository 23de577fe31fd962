-- ===== src/Metrics/Refresh.antt =====
-- src/metrics/metrics-collector.service.ts: snapshot and refresh as wholes. Between the numbers of the
-- attempts and the rest they await the queue depths, while other events may be handled: `between` is
-- what these do to the collector, and the depths may fail to come.
pub mod Stale
pub mod Depths
use queue_system.Prelude.{ℕ, String, List, map}
use queue_system.Prelude.Number.{Number}
use queue_system.Common.Events.{MetricsAlertPayload}
use queue_system.Payments.Exec.{Result, ok, raised, Exec}
use queue_system.Metrics.Collector.{
  MetricsConfig, MetricsCollector, AttemptStats, QueueDepths, attempt_stats, apply_rules,
}

-- What `collectQueueDepths` resolves to.
pub record CollectedDepths : Type 0 where
  pub gateways : List (QueueDepths × String)
  pub dlq : QueueDepths

module _ (N : Number) where
  pub record MetricsSnapshot : Type 0 where
    pub timestamp : ℕ
    pub window_seconds : ℕ
    pub stats : AttemptStats N
    pub queue_depths : CollectedDepths
    pub alerts : List (MetricsAlertPayload N)

module _ {N : Number} {X : Type 0} (config : MetricsConfig N) where
  -- `t1`, `t2` and `clock` are the times at which the rules are evaluated.
  unfoldable pub refreshed :
      ℕ
      → AttemptStats N
      → ℕ
      → ℕ
      → (String → ℕ)
      → Result X CollectedDepths
      → Exec (MetricsCollector N) X (MetricsSnapshot N)
  unfolding apply_rules
  refreshed now s t1 t2 clock (ok depths) c =
      let snapshot : MetricsSnapshot N = record {
        timestamp = now;
        window_seconds = config.window_seconds;
        stats = s;
        queue_depths = depths;
        alerts = c.alerts;
      } in
      (ok snapshot, apply_rules config s (map (λ g. g.0) depths.gateways) t1 t2 clock c)
  refreshed now s t1 t2 clock (raised x) c = (raised x, c)

  unfoldable pub refresh :
      (MetricsCollector N → MetricsCollector N)
      → Result X CollectedDepths
      → ℕ
      → ℕ
      → ℕ
      → (String → ℕ)
      → Exec (MetricsCollector N) X (MetricsSnapshot N)
  unfolding attempt_stats refreshed
  refresh between depths now t1 t2 clock c =
      refreshed now (attempt_stats config now c) t1 t2 clock depths (between c)
