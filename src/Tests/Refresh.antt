-- ===== src/Tests/Refresh.antt =====
-- A refresh at concrete values, with the queue manager of Tests/Queue and the collector of
-- Tests/Metrics.
use queue_system.Prelude.{◌≡◌, refl, true, []}
use queue_system.Prelude.Number.{whole_number}
use queue_system.Payments.Exec.{ok}
use queue_system.Metrics.Collector.Alerts.{active}
use queue_system.Metrics.Collector.Backlog.{depth_alert}
use queue_system.Metrics.Refresh.{MetricsSnapshot, refresh}
use queue_system.Metrics.Refresh.Depths.{collected, refresh-backlog}
use queue_system.Queue.Control.{collect_queue_depths}
use queue_system.Tests.Metrics.{config0, collector0}
use queue_system.Tests.Queue.{counts0, manager0, stripe}

refresh-backlog_example :
    let depths = collected (collect_queue_depths manager0).0 in
    let (result, c') = refresh config0 (λ c. c) depths 60 60 60 (λ _. 60) collector0 in
    (snapshot : MetricsSnapshot whole_number) × (result ≡ ok snapshot)
    × (active config0 (depth_alert "stripe") c'.alerts ≡ true)
refresh-backlog_example =
    refresh-backlog config0 counts0 (λ name s. refl) (λ name s. refl) (λ c. c) 60 60 60 (λ _. 60)
      collector0 manager0 [] [] stripe refl (refl, tt) tt
