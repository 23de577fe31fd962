-- ===== src/Queue/Control/Depths.antt =====
-- queue-manager.service.ts: what collectQueueDepths reports, with BullMQ answering.
use queue_system.Prelude.{
  ◌≡◌, ◌∙◌, refl, ap, String, some, List, [], ◌∷◌, map, All, Bool-cases, inl, inr,
}
use queue_system.Payments.Exec.{ok}
use queue_system.Metrics.Collector.{QueueDepths}
use queue_system.Queue.Manager.{dlq_queue_name, Bull, JobCounts, GatewayRuntime, QueueManager, call}
use queue_system.Queue.Control.{
  gateway_depths, dlq_depths, gateways_depths, collect_queue_depths, dlq_queue,
}

abbrev pub reported : (String → JobCounts) → GatewayRuntime → QueueDepths × String
reported counts r = (gateway_depths r.gateway_id (counts r.queue_name), r.queue_name)

module _ {B : Bull} (counts : String → JobCounts)
    (read : (name : String) (s : B.State) → B.counts name s ≡ (ok (counts name), s))
    (opens : (name : String) (s : B.State) → (B.open_queue name s).0 ≡ ok tt) where
  -- The map holds these runtimes, each under its own id.
  abbrev pub Holds : List (GatewayRuntime) → QueueManager B → Type 0
  Holds rs q = All (λ r. q.runtimes r.gateway_id ≡ some r) rs

  gateways_depths-reported :
      (rs : List (GatewayRuntime)) (q : QueueManager B)
      → Holds rs q
      → gateways_depths (map (λ r. r.gateway_id) rs) q ≡ (ok (map (reported counts) rs), q)
  unfolding gateways_depths
  gateways_depths-reported [] q held = refl
  gateways_depths-reported (r ∷ rs) q (found, held) =
      rw (found)
        (rw (read r.queue_name q.bull, call) (rw (gateways_depths-reported rs q held) refl))

  -- With BullMQ answering, the report has one entry for each gateway, in the order in which they were
  -- provisioned, with the counts of its queue, and one for the dead letter queue.
  pub collect_queue_depths-reported :
      (rs : List (GatewayRuntime)) (q : QueueManager B)
      → q.ids ≡ map (λ r. r.gateway_id) rs
      → Holds rs q
      → (collect_queue_depths q).0
        ≡ ok (map (reported counts) rs, dlq_depths dlq_queue_name (counts dlq_queue_name))
  unfolding collect_queue_depths dlq_queue
  collect_queue_depths-reported rs q listed held =
      rw (ap (λ ids. gateways_depths ids q) listed ∙ gateways_depths-reported rs q held) (
        (elim (Bool-cases q.dlq_open) [
          | inl known ↦ rw (known) (rw (read dlq_queue_name q.bull, call) refl)
          | inr new ↦
              rw (new) (rw (opens dlq_queue_name q.bull, call) (rw (read dlq_queue_name _) refl))
        ]))
