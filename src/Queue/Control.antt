-- ===== src/Queue/Control.antt =====
-- src/queue/queue-manager.service.ts: what the rest of the system asks of the queue manager beside
-- enqueueing. Provisioning and scaling are Queue/Manager.
pub mod Pool
pub mod Depths
pub mod DeadLetters
use queue_system.Prelude.{
  ℕ, ◌+◌, Bool, true, String, Option, none, some, List, [], ◌∷◌, or_else, length, str_eq, leb,
  if◌then◌else◌,
}
use queue_system.Domain.Json.{JsNumber, whole}
use queue_system.Payments.Exec.{Result, ok, pure, raise, gets, ◌>>=◌, ◌>>◌}
use queue_system.Metrics.Collector.{QueueDepths}
use queue_system.Queue.Manager.{
  dlq_queue_name, Bull, JobCounts, DlqJob, exactly, thrown, QueueConfig, GatewayRuntime,
  QueueManager, Managed, call, scale_workers, ensure_gateway,
}

abbrev pub count_of : Option ℕ → ℕ
count_of n = or_else n 0

-- One entry of `gateways`: prioritized jobs count as waiting.
abbrev pub gateway_depths : String → JobCounts → QueueDepths
gateway_depths id counts = record {
  gateway_id = id;
  waiting = count_of counts.waiting + count_of counts.prioritized;
  active = count_of counts.active;
  delayed = count_of counts.delayed;
  failed = count_of counts.failed;
}

abbrev pub dlq_depths : String → JobCounts → QueueDepths
dlq_depths name counts = record {
  gateway_id = name;
  waiting = count_of counts.waiting;
  active = count_of counts.active;
  delayed = count_of counts.delayed;
  failed = count_of counts.failed;
}

-- A job goes before the first that is not older, so that those of one time keep their order.
unfoldable pub insert_job : DlqJob → List DlqJob → List DlqJob
insert_job j [] = j ∷ []
insert_job j (k ∷ rest) =
    let later = insert_job j rest in
    if leb j.entry.dead_lettered_at k.entry.dead_lettered_at then j ∷ k ∷ rest else k ∷ later

-- `.sort((a, b) => a.deadLetteredAt.localeCompare(b.deadLetteredAt))`: the texts of two times compare
-- as the times do.
unfoldable pub sort_jobs : List DlqJob → List DlqJob
unfolding insert_job
sort_jobs [] = []
sort_jobs (j ∷ rest) = insert_job j (sort_jobs rest)

module _ {B : Bull} where
  -- `for (const runtime of this.runtimes.values())`, over the ids in their order.
  for_runtimes : (GatewayRuntime → Managed B (Unit {0})) → List String → Managed B (Unit {0})
  for_runtimes f [] = pure tt
  for_runtimes f (id ∷ rest) = do
    q ← gets (λ q. q)
    elim (q.runtimes id) [ none ↦ pure tt | some r ↦ f r ]
    for_runtimes f rest

  unfoldable pub get_gateway_ids : QueueManager B → List String
  get_gateway_ids q = q.ids

  unfoldable pub get_worker_pool_size : String → QueueManager B → ℕ
  get_worker_pool_size id q = elim (q.runtimes id) [ none ↦ 0 | some r ↦ length (q.workers r.ref) ]

  module _ (config : QueueConfig) (spare : ℕ) where
    -- `if (gatewayId) … else …`, where an empty id counts as none.
    on_gateways : (GatewayRuntime → Managed B (Unit {0})) → Option String → Managed B (Unit {0})
    unfolding for_runtimes ensure_gateway
    on_gateways f none = do q ← gets (λ q. q); for_runtimes f q.ids
    on_gateways f (some id) =
        if str_eq id ""
        then (do q ← gets (λ q. q); for_runtimes f q.ids)
        else (do r ← ensure_gateway config spare id; f r)

    unfoldable pub pause : Option String → Managed B (Unit {0})
    unfolding on_gateways call
    pause id = on_gateways (λ r. call (B.pause r.queue_name)) id

    unfoldable pub resume : Option String → Managed B (Unit {0})
    unfolding on_gateways call
    resume id = on_gateways (λ r. call (B.resume r.queue_name)) id

    unfoldable pub set_worker_pool_size : String → JsNumber → Managed B (Unit {0})
    unfolding ensure_gateway scale_workers
    set_worker_pool_size id (whole size) = do
      r ← ensure_gateway config spare id
      scale_workers spare r (exactly size)
    set_worker_pool_size id _ = raise (thrown "worker pool size must be a non-negative integer")

  -- The queue is opened once, and is kept before it is known to be ready.
  unfoldable pub dlq_queue : Managed B (Unit {0})
  unfolding call
  dlq_queue = do
    q ← gets (λ q. q)
    if q.dlq_open
        then pure tt
        else (do (λ q. (ok tt, record q { dlq_open = true })); call (B.open_queue dlq_queue_name))

  -- The depths of the gateways, each with the name of its queue.
  gateways_depths : List String → Managed B (List (QueueDepths × String))
  unfolding call
  gateways_depths [] = pure []
  gateways_depths (id ∷ rest) = do
    q ← gets (λ q. q)
    elim (q.runtimes id) [
      | none ↦ gateways_depths rest
      | some r ↦ do
        counts ← call (B.counts r.queue_name)
        later ← gateways_depths rest
        pure ((gateway_depths r.gateway_id counts, r.queue_name) ∷ later)
    ]

  unfoldable pub collect_queue_depths : Managed B (List (QueueDepths × String) × QueueDepths)
  unfolding gateways_depths dlq_queue call
  collect_queue_depths = do
    q ← gets (λ q. q)
    gateways ← gateways_depths q.ids
    dlq_queue
    counts ← call (B.counts dlq_queue_name)
    pure (gateways, dlq_depths dlq_queue_name counts)

  unfoldable pub list_dlq : Managed B (List DlqJob)
  unfolding dlq_queue call sort_jobs
  list_dlq = do dlq_queue; jobs ← call B.dlq_jobs; pure (sort_jobs jobs)
