-- ===== src/Queue/Shutdown.antt =====
-- src/queue/queue-manager.service.ts: onApplicationShutdown. `Promise.allSettled` waits for every close
-- and forgets how it ended; a worker's close is closeWorkerGracefully, which is Queue/Closing.
pub mod Trace
use queue_system.Prelude.{
  ℕ, Bool, true, false, String, Option, none, some, List, [], ◌∷◌, ◌++◌, map, if◌then◌else◌,
}
use queue_system.Prelude.Maps.{Map}
use queue_system.Payments.Exec.{Result, ok, pure, gets, ◌>>=◌, ◌>>◌}
use queue_system.Queue.Manager.{dlq_queue_name, Bull, GatewayRuntime, QueueManager, Managed}

-- The runtimes of the map, in their order.
abbrev pub runtimes_of : List String → Map GatewayRuntime → List GatewayRuntime
runtimes_of [] m = []
runtimes_of (id ∷ rest) m = elim (m id) [
  | none ↦ runtimes_of rest m
  | some r ↦ r ∷ runtimes_of rest m
]

abbrev Task : Bull → Type 0
Task B = B.State → Result String (Unit {0}) × B.State

module _ (B : Bull) where
  closings : List GatewayRuntime → (ℕ → List B.Worker) → Bool → List (Task B)
  closings [] workers dlq_open = if dlq_open then B.close_queue dlq_queue_name ∷ [] else []
  closings (r ∷ rest) workers dlq_open =
      map B.close_worker (workers r.ref)
      ++ B.close_queue r.queue_name ∷ closings rest workers dlq_open

  settle_all : List (Task B) → Managed B (Unit {0})
  settle_all [] = pure tt
  settle_all (task ∷ rest) = do (λ q. (ok tt, record q { bull = (task q.bull).1 })); settle_all rest

  disconnections : List GatewayRuntime → (ℕ → List B.Worker) → Bool → List (B.State → B.State)
  disconnections [] workers dlq_open =
      if dlq_open then B.disconnect_queue dlq_queue_name ∷ [] else []
  disconnections (r ∷ rest) workers dlq_open =
      B.disconnect_queue r.queue_name ∷ map B.disconnect (workers r.ref)
      ++ disconnections rest workers dlq_open

  disconnect_all : List (B.State → B.State) → Managed B (Unit {0})
  disconnect_all [] = pure tt
  disconnect_all (end ∷ rest) = do
    (λ q. (ok tt, record q { bull = end q.bull }))
    disconnect_all rest

  unfoldable pub on_application_shutdown : Managed B (Unit {0})
  unfolding closings settle_all disconnections disconnect_all
  on_application_shutdown = do
    q ← gets (λ q. q)
    settle_all (closings (runtimes_of q.ids q.runtimes) q.workers q.dlq_open)
    now ← gets (λ q. q)
    disconnect_all (disconnections (runtimes_of now.ids now.runtimes) now.workers now.dlq_open)
