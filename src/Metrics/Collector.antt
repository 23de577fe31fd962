-- ===== src/Metrics/Collector.antt =====
-- src/metrics/metrics-collector.service.ts. Emitted events are appended to a log. The alerts are in the
-- order in which they were raised, each under its own id, as in the source's Map. Between the two
-- parts of a refresh the source awaits the queue depths, and other events may be handled.
pub mod Alerts
pub mod Backlog
pub mod Untouched
pub mod Samples
use Prim.Native.String.{slice, len}
use queue_system.Prelude.{
  ℕ, suc, ◌+◌, ◌-◌, ◌*◌, Bool, true, false, String, Option, none, some, List, [], ◌∷◌, ◌++◌, ltb,
  leb, str_eq, length, drop, filter_by, get_elem?, if◌then◌else◌, ◌||◌, ◌&&◌, not, or_else,
}
use queue_system.Prelude.Maps.{Map, set}
use queue_system.Prelude.Text.{◌<>◌, to_string}
use queue_system.Prelude.Number.{Number}
use queue_system.Metrics.Window.{
  AttemptSample, max_samples, drop_old, cap_samples, insert, sort, percentile, durations,
}
use queue_system.Common.Events.{
  AppEvent, MetricsAlertPayload, metrics_alert, Severity, critical, warning,
}

pub record QueueDepths : Type 0 where
  pub gateway_id : String
  pub waiting : ℕ
  pub active : ℕ
  pub delayed : ℕ
  pub failed : ℕ

module _ (N : Number) where
  pub record MetricsConfig : Type 0 where
    pub window_seconds : ℕ
    pub error_rate_alert : N.Carrier
    pub p95_latency_alert_ms : ℕ
    pub queue_depth_alert : ℕ
    pub alert_cooldown_ms : ℕ
    -- `Math.ceil(0.95 * n)`, `Math.ceil(0.99 * n)`, and `(x * 100).toFixed(1)`.
    pub ceil_95 : ℕ → ℕ
    pub ceil_99 : ℕ → ℕ
    pub percent_text : N.Carrier → String

  pub record MetricsCollector : Type 0 where
    pub samples : List AttemptSample
    pub alerts : List (MetricsAlertPayload N)
    pub last_raised_at : Map ℕ
    pub events : List (AppEvent N)

  pub record AlertSpec : Type 0 where
    pub severity : Severity
    pub message : String
    pub value : Option N.Carrier
    pub threshold : Option N.Carrier

  -- The numbers of a snapshot.
  pub record AttemptStats : Type 0 where
    pub tps : ℕ
    pub error_rate : N.Carrier
    pub ok : ℕ
    pub failed : ℕ
    pub total : ℕ
    pub p95_ms : Option ℕ
    pub p99_ms : Option ℕ

module _ {N : Number} (config : MetricsConfig N) where
  -- `pushed_at` and `now` are the two readings of the clock.
  unfoldable pub record_attempt :
      String → Bool → ℕ → ℕ → ℕ → MetricsCollector N → MetricsCollector N
  unfolding drop_old cap_samples
  record_attempt gateway_id ok duration_ms pushed_at now c =
      let sample : AttemptSample = record {
        t = pushed_at;
        gateway_id = gateway_id;
        ok = ok;
        duration_ms = duration_ms;
      } in
      record c {
        samples =
            cap_samples (drop_old (now - config.window_seconds * 1000) (c.samples ++ sample ∷ []));
      }

  -- The part of `snapshot` before it awaits the queue depths.
  unfoldable pub attempt_stats : ℕ → MetricsCollector N → AttemptStats N
  unfolding sort percentile
  attempt_stats now c =
      let in_window = filter_by (λ s. leb (now - config.window_seconds * 1000) s.t) c.samples in
      let ok = length (filter_by (λ s. s.ok) in_window) in
      let total = length in_window in
      let sorted = sort (durations in_window) in
      record {
        tps = length (filter_by (λ s. leb (now - 1000) s.t) in_window);
        error_rate = if ltb 0 total then N.div (N.of_ℕ (total - ok)) (N.of_ℕ total) else N.of_ℕ 0;
        ok = ok;
        failed = total - ok;
        total = total;
        p95_ms = percentile sorted config.ceil_95;
        p99_ms = percentile sorted config.ceil_99;
      }

  -- `this.alerts.get(id)`
  unfoldable pub find_alert : String → List (MetricsAlertPayload N) → Option (MetricsAlertPayload N)
  find_alert id [] = none
  find_alert id (a ∷ rest) =
      let later = find_alert id rest in if str_eq id a.id then some a else later

  raise_alert : String → ℕ → AlertSpec N → MetricsCollector N → MetricsCollector N
  raise_alert id now spec c =
      let alert : MetricsAlertPayload N = record {
        id = id;
        severity = spec.severity;
        message = spec.message;
        value = spec.value;
        threshold = spec.threshold;
        raised_at = now;
      } in
      record c {
        alerts = c.alerts ++ alert ∷ [];
        last_raised_at = set id now c.last_raised_at;
        events = c.events ++ metrics_alert alert now ∷ [];
      }

  -- Operators keep seeing the condition.
  notify_again : String → ℕ → MetricsAlertPayload N → MetricsCollector N → MetricsCollector N
  notify_again id now alert c = record c {
    last_raised_at = set id now c.last_raised_at;
    events = c.events ++ metrics_alert alert now ∷ [];
  }

  unfoldable pub cooled_down : ℕ → ℕ → Bool
  cooled_down last now = leb (last + config.alert_cooldown_ms) now

  unfoldable pub evaluate :
      String → Bool → ℕ → AlertSpec N → MetricsCollector N → MetricsCollector N
  unfolding find_alert raise_alert notify_again cooled_down
  evaluate id false now spec c = c
  evaluate id true now spec c = elim (find_alert id c.alerts) [
    | none ↦ raise_alert id now spec c
    | some alert ↦
        if cooled_down (or_else (c.last_raised_at id) 0) now then notify_again id now alert c else c
  ]

  unfoldable pub set_circuit_alert : String → Bool → ℕ → MetricsCollector N → MetricsCollector N
  unfolding evaluate
  set_circuit_alert gateway_id true now c =
      evaluate ("circuit_open:" <> gateway_id) true now
        (record {
          severity = critical;
          message = "circuit breaker OPEN for gateway " <> gateway_id;
          value = none;
          threshold = none;
        })
        c
  set_circuit_alert gateway_id false now c = record c {
    alerts = filter_by (λ a. not (str_eq ("circuit_open:" <> gateway_id) a.id)) c.alerts;
  }

  unfoldable pub error_rate_high : AttemptStats N → Bool
  error_rate_high s = not (N.le s.error_rate config.error_rate_alert)

  unfoldable pub p95_latency_high : AttemptStats N → Bool
  p95_latency_high s = elim s.p95_ms [ none ↦ false | some ms ↦ ltb config.p95_latency_alert_ms ms ]

  evaluate_error_rate : AttemptStats N → ℕ → MetricsCollector N → MetricsCollector N
  unfolding evaluate error_rate_high
  evaluate_error_rate s now c =
      evaluate "error_rate_high" (error_rate_high s) now
        (record {
          severity = critical;
          message =
              "error rate "
              <> config.percent_text s.error_rate
              <> "% exceeds threshold "
              <> config.percent_text config.error_rate_alert
              <> "%";
          value = some s.error_rate;
          threshold = some config.error_rate_alert;
        })
        c

  abbrev number_of : Option ℕ → Option N.Carrier
  number_of none = none
  number_of (some ms) = some (N.of_ℕ ms)

  abbrev text_of : Option ℕ → String
  text_of none = "undefined"
  text_of (some ms) = to_string ms

  evaluate_p95 : AttemptStats N → ℕ → MetricsCollector N → MetricsCollector N
  unfolding evaluate p95_latency_high
  evaluate_p95 s now c =
      evaluate "p95_latency_high" (p95_latency_high s) now
        (record {
          severity = warning;
          message =
              "P95 latency "
              <> text_of s.p95_ms
              <> "ms exceeds threshold "
              <> to_string config.p95_latency_alert_ms
              <> "ms";
          value = number_of s.p95_ms;
          threshold = some (N.of_ℕ config.p95_latency_alert_ms);
        })
        c

  evaluate_depth : QueueDepths → ℕ → MetricsCollector N → MetricsCollector N
  unfolding evaluate
  evaluate_depth g now c =
      evaluate ("queue_depth_high:" <> g.gateway_id) (ltb config.queue_depth_alert g.waiting) now
        (record {
          severity = warning;
          message =
              "gateway "
              <> g.gateway_id
              <> " waiting depth "
              <> to_string g.waiting
              <> " exceeds threshold "
              <> to_string config.queue_depth_alert;
          value = some (N.of_ℕ g.waiting);
          threshold = some (N.of_ℕ config.queue_depth_alert);
        })
        c

  unfoldable pub evaluate_depths :
      List QueueDepths → (String → ℕ) → MetricsCollector N → MetricsCollector N
  unfolding evaluate_depth
  evaluate_depths [] clock c = c
  evaluate_depths (g ∷ rest) clock c =
      evaluate_depths rest clock (evaluate_depth g (clock g.gateway_id) c)

  abbrev pub waiting_of : String → List QueueDepths → ℕ
  waiting_of id [] = 0
  waiting_of id (g ∷ rest) =
      let later = waiting_of id rest in if str_eq g.gateway_id id then g.waiting else later

  -- Whether an alert's condition holds on; the alerts on circuits stay until the circuit closes.
  unfoldable pub still_active : AttemptStats N → List QueueDepths → String → Bool
  unfolding error_rate_high p95_latency_high
  still_active s depths id =
      if str_eq id "error_rate_high"
      then error_rate_high s
      else if str_eq id "p95_latency_high"
      then p95_latency_high s
      else if str_eq (slice id 0 17) "queue_depth_high:"
      then ltb config.queue_depth_alert (waiting_of (slice id 17 (len id)) depths)
      else true

  -- The rest of `refresh`, with the numbers of the snapshot and the depths that were awaited. The rules
  -- are evaluated at the times `t1`, `t2` and, for a gateway, `clock`.
  unfoldable pub apply_rules :
      AttemptStats N
      → List QueueDepths
      → ℕ
      → ℕ
      → (String → ℕ)
      → MetricsCollector N
      → MetricsCollector N
  unfolding evaluate_error_rate evaluate_p95 evaluate_depths still_active
  apply_rules s depths t1 t2 clock c =
      let raised = evaluate_depths depths clock (evaluate_p95 s t2 (evaluate_error_rate s t1 c)) in
      record raised { alerts = filter_by (λ a. still_active s depths a.id) raised.alerts }
