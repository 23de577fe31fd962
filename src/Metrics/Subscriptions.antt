-- ===== src/Metrics/Subscriptions.antt =====
-- src/metrics/metrics-collector.service.ts: `onModuleInit`, what the collector does with the events of
-- the bus. A refresh that an event starts reads the samples at once and then awaits the queue depths,
-- while other events may be handled and other refreshes begin; it goes on when the depths have come.
pub mod Circuits
use queue_system.Prelude.{
  ℕ, zero, suc, true, false, Option, none, some, String, List, [], ◌∷◌, ◌++◌,
}
use queue_system.Prelude.Number.{Number}
use queue_system.Common.Events.{
  AppEvent, PaymentEventType, payment_event, job_completed, circuit_opened, circuit_closed,
}
use queue_system.Payments.Exec.{Result}
use queue_system.Metrics.Collector.{
  MetricsConfig, MetricsCollector, AttemptStats, attempt_stats, record_attempt, set_circuit_alert,
}
use queue_system.Metrics.Refresh.{CollectedDepths, refreshed}

module _ (N : Number) where
  -- A refresh that awaits the queue depths, with what it has computed before.
  pub record Refreshing : Type 0 where
    pub started : ℕ
    pub stats : AttemptStats N

  pub record Subscriber : Type 0 where
    pub collector : MetricsCollector N
    pub awaiting : List Refreshing

  -- What may happen to the collector. The result of the awaited depths goes to the i-th of the refreshes
  -- that wait; the times are those at which its rules are evaluated.
  pub data Step (X : Type 0) : Type 0 where
    handled : AppEvent N → ℕ → Step X
    ticked : ℕ → Step X
    depths_came : ℕ → Result X CollectedDepths → ℕ → ℕ → (String → ℕ) → Step X

module _ {N : Number} (config : MetricsConfig N) where
  -- `safeRefresh`, up to the `await` of the depths.
  unfoldable pub safe_refresh : ℕ → Subscriber N → Subscriber N
  unfolding attempt_stats
  safe_refresh now s = record s {
    awaiting =
        s.awaiting ++ record { started = now; stats = attempt_stats config now s.collector } ∷ [];
  }

  -- The listener of `payment.queued`.
  unfoldable pub on_payment : PaymentEventType → ℕ → Subscriber N → Subscriber N
  unfolding safe_refresh
  on_payment PaymentEventType.queued now s = safe_refresh now s
  on_payment _ now s = s

  -- The time is that of the handling, which reads the clock for each sample and each refresh.
  unfoldable pub handle : AppEvent N → ℕ → Subscriber N → Subscriber N
  unfolding record_attempt set_circuit_alert on_payment
  handle (job_completed id gateway_id ok duration_ms at) now s =
      safe_refresh now (record s {
        collector = record_attempt config gateway_id ok duration_ms now now s.collector;
      })
  handle (payment_event e) now s = on_payment e.type now s
  handle (circuit_opened gateway_id at) now s = record s {
    collector = set_circuit_alert config gateway_id true now s.collector;
  }
  handle (circuit_closed gateway_id at) now s = record s {
    collector = set_circuit_alert config gateway_id false now s.collector;
  }
  handle _ now s = s

  -- The i-th of the refreshes that wait, and the others.
  abbrev pub taken_out : ℕ → List (Refreshing N) → Option (Refreshing N × List (Refreshing N))
  taken_out i [] = none
  taken_out zero (r ∷ rest) = some (r, rest)
  taken_out (suc i) (r ∷ rest) = elim (taken_out i rest) [
    | none ↦ none
    | some (found, others) ↦ some (found, r ∷ others)
  ]

  -- The rest of a refresh. What it returns or throws is dropped.
  unfoldable pub resume_refresh :
      {X : Type 0}
      → Result X CollectedDepths
      → ℕ
      → ℕ
      → (String → ℕ)
      → Option (Refreshing N × List (Refreshing N))
      → Subscriber N
      → Subscriber N
  unfolding refreshed
  resume_refresh depths t1 t2 clock none s = s
  resume_refresh depths t1 t2 clock (some (r, others)) s = record {
    collector = (refreshed config r.started r.stats t1 t2 clock depths s.collector).1;
    awaiting = others;
  }

  unfoldable pub perform_step : {X : Type 0} → Step N X → Subscriber N → Subscriber N
  unfolding handle safe_refresh resume_refresh
  perform_step (handled e now) s = handle e now s
  perform_step (ticked now) s = safe_refresh now s
  perform_step (depths_came i depths t1 t2 clock) s =
      resume_refresh depths t1 t2 clock (taken_out i s.awaiting) s

  abbrev pub handle_all : {X : Type 0} → List (Step N X) → Subscriber N → Subscriber N
  handle_all [] s = s
  handle_all (step ∷ rest) s = handle_all rest (perform_step step s)
