-- ===== src/Metrics.antt =====
-- src/metrics: the rolling window of attempts and the alerts.
pub mod Window
pub mod Collector
pub mod Subscriptions
pub mod Refresh
pub mod Broadcast
