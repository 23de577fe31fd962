-- ===== src/Metrics/Refresh/Depths.antt =====
-- metrics-collector.service.ts with queue-manager.service.ts: a refresh that awaits the depths which the
-- queue manager collects.
use queue_system.Prelude.{
  ◌≡◌, ◌∙◌, refl, ap, ℕ, false, String, List, [], ◌∷◌, ◌++◌, map, All, str_eq, eq_refl, ltb, ◌+◌,
}
use queue_system.Prelude.Number.{Number}
use queue_system.Payments.Exec.{Result, ok, raised}
use queue_system.Metrics.Collector.{
  MetricsConfig, MetricsCollector, QueueDepths, waiting_of, attempt_stats,
}
use queue_system.Metrics.Collector.Alerts.{active}
use queue_system.Metrics.Collector.Backlog.{depth_alert, apply_rules_backlog}
use queue_system.Metrics.Refresh.{CollectedDepths, MetricsSnapshot, refresh}
use queue_system.Queue.Manager.{Bull, JobCounts, GatewayRuntime, QueueManager, Failure}
use queue_system.Queue.Control.{count_of, collect_queue_depths}
use queue_system.Queue.Control.Depths.{reported, Holds, collect_queue_depths-reported}

-- The object that `collectQueueDepths` resolves to.
abbrev pub collected :
    Result Failure (List (QueueDepths × String) × QueueDepths) → Result Failure CollectedDepths
collected (ok (gateways, dlq)) = ok (record { gateways = gateways; dlq = dlq })
collected (raised x) = raised x

module _ {N : Number} (config : MetricsConfig N) (counts : String → JobCounts) where
  waiting_of-reported :
      (earlier later : List GatewayRuntime) (r : GatewayRuntime)
      → All (λ (s : GatewayRuntime). str_eq s.gateway_id r.gateway_id ≡ false) earlier
      → waiting_of config r.gateway_id
          (map (λ g. g.0) (map (reported counts) (earlier ++ r ∷ later)))
        ≡ count_of (counts r.queue_name).waiting + count_of (counts r.queue_name).prioritized
  waiting_of-reported [] later r apart = rw (eq_refl r.gateway_id) refl
  waiting_of-reported (s ∷ earlier) later r apart =
      rw (apart.0) (waiting_of-reported earlier later r apart.1)

  module _ {B : Bull}
      (read : (name : String) (s : B.State) → B.counts name s ≡ (ok (counts name), s))
      (opens : (name : String) (s : B.State) → (B.open_queue name s).0 ≡ ok tt) where
    -- With BullMQ answering, a refresh that awaits the queue manager's depths returns, and afterwards the
    -- alert on the queue of a gateway that is provisioned under one runtime is active exactly when its
    -- waiting and prioritized jobs together are more than the threshold.
    pub refresh-backlog :
        (between : MetricsCollector N → MetricsCollector N) (now t1 t2 : ℕ) (clock : String → ℕ)
        (c : MetricsCollector N) (q : QueueManager B) (earlier later : List GatewayRuntime)
        (r : GatewayRuntime)
        → q.ids ≡ map (λ s. s.gateway_id) (earlier ++ r ∷ later)
        → Holds counts read opens (earlier ++ r ∷ later) q
        → All (λ (s : GatewayRuntime). str_eq s.gateway_id r.gateway_id ≡ false) earlier
        → let depths = collected (collect_queue_depths q).0 in
          let (result, c') = refresh config between depths now t1 t2 clock c in
          (snapshot : MetricsSnapshot N) × (result ≡ ok snapshot)
          × (active config (depth_alert r.gateway_id) c'.alerts
              ≡ ltb config.queue_depth_alert (
                  count_of (counts r.queue_name).waiting
                  + count_of (counts r.queue_name).prioritized))
    unfolding refresh
    refresh-backlog between now t1 t2 clock c q earlier later r listed held apart =
        let rs = earlier ++ r ∷ later in
        let s = attempt_stats config now c in
        let depths = map (λ (g : QueueDepths × String). g.0) (map (reported counts) rs) in
        rw (collect_queue_depths-reported counts read opens rs q listed held) (
          _,
          refl,
          apply_rules_backlog config s depths t1 t2 clock (between c) r.gateway_id
              ∙ ap (ltb config.queue_depth_alert) (waiting_of-reported earlier later r apart),
        )
