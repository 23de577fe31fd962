-- ===== src/Queue/Shutdown/Trace.antt =====
-- queue-manager.service.ts: the calls that a shutdown makes, with a BullMQ that writes them down.
use queue_system.Prelude.{
  ◌≡◌, ◌∙◌, refl, ap, sym, ℕ, Bool, String, none, List, [], ◌∷◌, ◌++◌, map, if◌then◌else◌,
  Bool-cases, inl, inr,
}
use mathlib.Core.List.{append_assoc, append-nil}
use queue_system.Payments.Exec.{Result, ok, continue}
use queue_system.Queue.Manager.{dlq_queue_name, Bull, GatewayRuntime, QueueManager}
use queue_system.Queue.Shutdown.{
  runtimes_of, closings, settle_all, disconnections, disconnect_all, on_application_shutdown,
}

-- A worker is known by a number.
pub data Call : Type 0 where
  close_worker : ℕ → Call
  close_queue : String → Call
  disconnect : ℕ → Call
  disconnect_queue : String → Call

-- It answers a call as `answer` says, and appends it to its state.
abbrev pub tracing : (Call → Result String (Unit {0})) → Bull
tracing answer = record {
  State = List Call;
  Worker = ℕ;
  open_queue = λ name s. (ok tt, s);
  close_queue = λ name s. (answer (close_queue name), s ++ close_queue name ∷ []);
  disconnect_queue = λ name s. s ++ disconnect_queue name ∷ [];
  start_worker = λ name s. (ok 0, s);
  close_worker = λ w s. (answer (close_worker w), s ++ close_worker w ∷ []);
  disconnect = λ w s. s ++ disconnect w ∷ [];
  pause = λ name s. (ok tt, s);
  resume = λ name s. (ok tt, s);
  counts = λ name s. (
    ok (record {
      waiting = none;
      prioritized = none;
      active = none;
      delayed = none;
      failed = none;
    }),
    s,
  );
  dlq_jobs = λ s. (ok [], s);
}

module _ (answer : Call → Result String (Unit {0})) where
  -- Every close of a worker or a queue, and every end of a connection.
  abbrev pub closed : List GatewayRuntime → (ℕ → List ℕ) → Bool → List Call
  closed [] workers dlq_open = if dlq_open then close_queue dlq_queue_name ∷ [] else []
  closed (r ∷ rest) workers dlq_open =
      map close_worker (workers r.ref) ++ close_queue r.queue_name ∷ closed rest workers dlq_open

  abbrev pub disconnected : List GatewayRuntime → (ℕ → List ℕ) → Bool → List Call
  disconnected [] workers dlq_open = if dlq_open then disconnect_queue dlq_queue_name ∷ [] else []
  disconnected (r ∷ rest) workers dlq_open =
      disconnect_queue r.queue_name ∷ map disconnect (workers r.ref)
      ++ disconnected rest workers dlq_open

  abbrev Traced : Type 0
  Traced = QueueManager (tracing answer)

  abbrev perform : Call → List Call → Result String (Unit {0}) × List Call
  perform c s = (answer c, s ++ c ∷ [])

  abbrev append : Call → List Call → List Call
  append c s = s ++ c ∷ []

  settle_all-trace :
      (cs : List Call) (q : Traced)
      → settle_all (tracing answer) (map perform cs) q ≡ (ok tt, record q { bull = q.bull ++ cs })
  unfolding settle_all
  settle_all-trace [] q = rw (append-nil q.bull) refl
  settle_all-trace (c ∷ cs) q =
      settle_all-trace cs (record q { bull = q.bull ++ c ∷ [] })
      ∙ ap (λ b. (ok tt, record q { bull = b })) (append_assoc q.bull (c ∷ []) cs)

  disconnect_all-trace :
      (cs : List Call) (q : Traced)
      → disconnect_all (tracing answer) (map append cs) q
        ≡ (ok tt, record q { bull = q.bull ++ cs })
  unfolding disconnect_all
  disconnect_all-trace [] q = rw (append-nil q.bull) refl
  disconnect_all-trace (c ∷ cs) q =
      disconnect_all-trace cs (record q { bull = q.bull ++ c ∷ [] })
      ∙ ap (λ b. (ok tt, record q { bull = b })) (append_assoc q.bull (c ∷ []) cs)

  close_workers :
      (ws : List ℕ) (rest : List Call)
      → map perform (map close_worker ws ++ rest)
        ≡ map (λ w. perform (close_worker w)) ws ++ map perform rest
  close_workers [] rest = refl
  close_workers (w ∷ ws) rest = ap (◌∷◌ (perform (close_worker w))) (close_workers ws rest)

  disconnect_workers :
      (ws : List ℕ) (rest : List Call)
      → map append (map disconnect ws ++ rest)
        ≡ map (λ w. append (disconnect w)) ws ++ map append rest
  disconnect_workers [] rest = refl
  disconnect_workers (w ∷ ws) rest = ap (◌∷◌ (append (disconnect w))) (disconnect_workers ws rest)

  closings-closed :
      (rs : List GatewayRuntime) (workers : ℕ → List ℕ) (dlq_open : Bool)
      → closings (tracing answer) rs workers dlq_open ≡ map perform (closed rs workers dlq_open)
  unfolding closings
  closings-closed [] workers dlq_open = elim (Bool-cases dlq_open) [
    | inl known ↦ rw (known) refl
    | inr none_yet ↦ rw (none_yet) refl
  ]
  closings-closed (r ∷ rest) workers dlq_open = rw (closings-closed rest workers dlq_open) (
      sym (close_workers (workers r.ref) (close_queue r.queue_name ∷ closed rest workers dlq_open)))

  disconnections-disconnected :
      (rs : List GatewayRuntime) (workers : ℕ → List ℕ) (dlq_open : Bool)
      → disconnections (tracing answer) rs workers dlq_open
        ≡ map append (disconnected rs workers dlq_open)
  unfolding disconnections
  disconnections-disconnected [] workers dlq_open = elim (Bool-cases dlq_open) [
    | inl known ↦ rw (known) refl
    | inr none_yet ↦ rw (none_yet) refl
  ]
  disconnections-disconnected (r ∷ rest) workers dlq_open =
      rw (disconnections-disconnected rest workers dlq_open) (
        ap (◌∷◌ (append (disconnect_queue r.queue_name)))
          (sym (disconnect_workers (workers r.ref) (disconnected rest workers dlq_open))))

  -- Whether or not the closes reject, a shutdown returns, having closed each worker and queue that the
  -- map holds and the dead letter queue if it is open, and after all of these ended their connections.
  pub on_application_shutdown-trace :
      (q : Traced)
      → let rs = runtimes_of q.ids q.runtimes in
        on_application_shutdown (tracing answer) q ≡ (
          ok tt,
          record q {
            bull =
                (q.bull ++ closed rs q.workers q.dlq_open) ++ disconnected rs q.workers q.dlq_open;
          },
        )
  unfolding on_application_shutdown
  on_application_shutdown-trace q =
      let rs = runtimes_of q.ids q.runtimes in
      rw (closings-closed rs q.workers q.dlq_open) (
        rw (ap (continue _) (settle_all-trace (closed rs q.workers q.dlq_open) q)) (
          rw (disconnections-disconnected rs q.workers q.dlq_open)
            (disconnect_all-trace (disconnected rs q.workers q.dlq_open) _)))
