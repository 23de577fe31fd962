-- ===== src/Metrics/Broadcast/Silent.antt =====
-- metrics.gateway.ts: after onModuleDestroy.
use queue_system.Prelude.{
  arith, ℕ, ◌+◌, ◌≤◌, ◌≡◌, ◌∙◌, refl, true, false, List, [], ◌∷◌, ◌++◌, or_else, filter_by, not,
  ◌==◌, Bool,
}
use queue_system.Prelude.Number.{Number}
use queue_system.Common.Events.{
  AppEvent, PaymentEventType, payment_event, job_completed, job_failed, circuit_opened,
  circuit_closed, rate_limit_throttled, saga_phase, metrics_alert,
}
use queue_system.Common.Bus.{EventBus, Listeners, add, on, off}
use queue_system.Metrics.Broadcast.{
  type_of, payment_type, Wired, on_module_init, on_module_destroy, emit_all,
}
use queue_system.Metrics.Broadcast.Forwards.{
  Earlier, OlderBus, all_forwarded, has-Earlier, deliver-Earlier, emit-deliver, emit_all-sending,
  init-Up, sending_all,
}

Earlier-filter_by :
    (first l : ℕ) (ls : Listeners)
    → Earlier first ls
    → Earlier first (filter_by (λ k. not (k == l)) ls)
Earlier-filter_by first l [] old = tt
Earlier-filter_by first l (k ∷ ks) old = ground (arith, Earlier-filter_by first l ks old.1)

filter_by-snoc :
    (first l : ℕ) (ls : Listeners)
    → Earlier first ls
    → Earlier first (filter_by (λ k. not (k == l)) (ls ++ l ∷ []))
filter_by-snoc first l [] old = ground arith
filter_by-snoc first l (k ∷ ks) old = ground (arith, filter_by-snoc first l ks old.1)

off-Earlier :
    (first l : ℕ) (ls : Listeners)
    → first ≤ l
    → Earlier first ls
    → Earlier first (filter_by (λ k. not (k == l)) (add l ls))
unfolding add
off-Earlier first l ls le old = rw (has-Earlier first l ls le old) (filter_by-snoc first l ls old)

-- No event finds a listener of the gateway.
abbrev Down : Number → ℕ → EventBus → Type 0
Down N first bus = (e : AppEvent N) → Earlier first (or_else (bus (type_of e)) [])

module _ {N : Number} (first : ℕ) (throws : ℕ → Bool) where
  destroyed-payment :
      (w : Wired N) (t : PaymentEventType)
      → OlderBus first w.bus
      → w.gateway.unsubscribe ≡ []
      → Earlier first
          (or_else ((on_module_destroy (on_module_init first w)).bus (payment_type t)) [])
  unfolding on_module_destroy on_module_init on off
  destroyed-payment w PaymentEventType.queued old new =
      rw new (off-Earlier first first _ (omega arith) (old "payment.queued"))
  destroyed-payment w PaymentEventType.processing old new =
      rw new (off-Earlier first (first + 1) _ (omega arith) (old "payment.processing"))
  destroyed-payment w PaymentEventType.completed old new =
      rw new (off-Earlier first (first + 2) _ (omega arith) (old "payment.completed"))
  destroyed-payment w PaymentEventType.failed old new =
      rw new (off-Earlier first (first + 3) _ (omega arith) (old "payment.failed"))
  destroyed-payment w PaymentEventType.dead_lettered old new =
      rw new (off-Earlier first (first + 4) _ (omega arith) (old "payment.dead_lettered"))

  destroyed-Down :
      (w : Wired N)
      → OlderBus first w.bus
      → w.gateway.unsubscribe ≡ []
      → Down N first (on_module_destroy (on_module_init first w)).bus
  unfolding on_module_destroy on_module_init on off
  destroyed-Down w old new (payment_event e) = destroyed-payment w e.type old new
  destroyed-Down w old new (saga_phase id gateway_id phase outcome at) =
      rw new (off-Earlier first (first + 5) _ (omega arith) (old "saga.phase"))
  destroyed-Down w old new (metrics_alert alert at) =
      rw new (off-Earlier first (first + 6) _ (omega arith) (old "metrics.alert"))
  destroyed-Down w old new (job_completed id gateway_id fine ms at) = rw new (old "job.completed")
  destroyed-Down w old new (job_failed id gateway_id reason at) = rw new (old "job.failed")
  destroyed-Down w old new (circuit_opened gateway_id at) = rw new (old "circuit.opened")
  destroyed-Down w old new (circuit_closed gateway_id at) = rw new (old "circuit.closed")
  destroyed-Down w old new (rate_limit_throttled gateway_id at) =
      rw new (old "rate_limit.throttled")

  emit_all-Down :
      (es : List (AppEvent N)) (w : Wired N) → Down N first w.bus → emit_all first throws es w ≡ w
  unfolding emit_all
  emit_all-Down [] w down = refl
  emit_all-Down (e ∷ rest) w down =
      rw (emit-deliver first throws e w ∙ deliver-Earlier first throws e _ w (down e))
        (emit_all-Down rest w down)

  -- A gateway that is started, lives through some events and is destroyed has stopped its timer and
  -- sends nothing of the events that are emitted after that.
  pub on_module_destroy-silent :
      (before after : List (AppEvent N)) (w : Wired N)
      → OlderBus first w.bus
      → w.gateway.unsubscribe ≡ []
      → w.gateway.server ≡ true
      → let w' =
          emit_all first throws after
            (on_module_destroy (emit_all first throws before (on_module_init first w))) in
        (w'.gateway.timer ≡ false) × (w'.gateway.sent ≡ w.gateway.sent ++ all_forwarded before)
  unfolding on_module_destroy on_module_init
  on_module_destroy-silent before after w old new up =
      let started = on_module_init first w in
      rw (emit_all-sending first throws before started (init-Up first throws w old) up) (
        rw
          (emit_all-Down after (on_module_destroy (sending_all first throws before started))
            (destroyed-Down w old new))
          (refl, refl))
