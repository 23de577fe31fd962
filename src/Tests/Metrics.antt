-- ===== src/Tests/Metrics.antt =====
-- The metrics at concrete values, with whole numbers for the ratios.
use queue_system.Prelude.{◌≡◌, refl, String, List, false, true, false, some, map, [], ◌∷◌}
use queue_system.Prelude.Maps.{empty}
use queue_system.Prelude.Number.{whole_number}
use queue_system.Common.Events.{circuit_opened, circuit_closed, job_completed}
use queue_system.Metrics.Collector.{
  MetricsCollector, MetricsConfig, find_alert, apply_rules, error_rate_high, p95_latency_high,
  attempt_stats,
}
use queue_system.Metrics.Window.{AttemptSample, sort, percentile}
use queue_system.Metrics.Collector.Alerts.{active, apply_rules_active}
use queue_system.Payments.Exec.{ok, raised}
use queue_system.Metrics.Refresh.{CollectedDepths, MetricsSnapshot, refresh}
use queue_system.Metrics.Refresh.Stale.{refresh-stale}
use queue_system.Metrics.Collector.Untouched.{circuit_alert}
use queue_system.Metrics.Subscriptions.{
  Subscriber, Step, handled, ticked, depths_came, perform_step, handle_all,
}
use queue_system.Metrics.Subscriptions.Circuits.{handle_all-circuit_after}

abbrev pub config0 : MetricsConfig whole_number
config0 = record {
  window_seconds = 60;
  error_rate_alert = 0;
  p95_latency_alert_ms = 100;
  queue_depth_alert = 5;
  alert_cooldown_ms = 1000;
  ceil_95 = λ n. n;
  ceil_99 = λ n. n;
  percent_text = λ _. "100.0";
}

abbrev sample0 : AttemptSample
sample0 = record { t = 5; gateway_id = "g1"; ok = false; duration_ms = 300 }

abbrev pub collector0 : MetricsCollector whole_number
collector0 = record { samples = sample0 ∷ []; alerts = []; last_raised_at = empty; events = [] }

median : percentile (sort (30 ∷ 10 ∷ 20 ∷ [])) (λ _. 2) ≡ some 20
unfolding percentile sort
median = refl

apply_rules_active_example :
    let s = attempt_stats config0 60 collector0 in
    let c' = apply_rules config0 s [] 60 60 (λ _. 60) collector0 in
    (active config0 "error_rate_high" c'.alerts ≡ error_rate_high config0 s)
    × (active config0 "p95_latency_high" c'.alerts ≡ p95_latency_high config0 s)
apply_rules_active_example =
    apply_rules_active config0 (attempt_stats config0 60 collector0) [] 60 60 (λ _. 60) collector0

abbrev no_queues : CollectedDepths
no_queues = record {
  gateways = [];
  dlq = record { gateway_id = "dlq"; waiting = 0; active = 0; delayed = 0; failed = 0 };
}

abbrev subscriber0 : Subscriber whole_number
subscriber0 = record { collector = collector0; awaiting = [] }

-- Two refreshes wait while circuits open and close; the later one is answered first, and the depths of
-- the other cannot be had.
abbrev history0 : List (Step whole_number String)
history0 =
    handled (circuit_opened "g1" 4) 5
    ∷ handled (job_completed "p1" "g1" false 300 6) 7
    ∷ handled (circuit_opened "g2" 8) 9
    ∷ ticked 10
    ∷ depths_came 1 (ok no_queues) 11 11 (λ _. 11)
    ∷ handled (circuit_closed "g1" 12) 12
    ∷ depths_came 0 (raised "no connection") 13 13 (λ _. 13)
    ∷ []

handle_all-circuit_after_example :
    active config0 (circuit_alert "g2") (handle_all config0 history0 subscriber0).collector.alerts
    ≡ true
unfolding find_alert
handle_all-circuit_after_example = handle_all-circuit_after config0 "g2" history0 subscriber0

refresh-stale_example :
    let (result, c') =
      refresh {X = String} config0 (λ c. c) (ok no_queues) 60 60 60 (λ _. 60) collector0 in
    (snapshot : MetricsSnapshot whole_number) × (result ≡ ok snapshot)
    × (error_rate_high config0 snapshot.stats ≡ true)
    × (active config0 "error_rate_high" snapshot.alerts ≡ false)
    × (active config0 "error_rate_high" c'.alerts ≡ true)
unfolding error_rate_high attempt_stats find_alert
refresh-stale_example =
    refresh-stale config0 (λ c. c) no_queues 60 60 60 (λ _. 60) collector0 refl refl

-- After the history no refresh waits, and both the circuit that is open and the error rate are alerted.
alerted :
    map (λ a. a.id) (handle_all config0 history0 subscriber0).collector.alerts
    ≡ "circuit_open:g2" ∷ "error_rate_high" ∷ "p95_latency_high" ∷ []
unfolding perform_step
alerted = refl

none_waits : (handle_all config0 history0 subscriber0).awaiting ≡ []
unfolding perform_step
none_waits = refl
