-- ===== src/Queue/Control/Pool.antt =====
-- queue-manager.service.ts: setWorkerPoolSize and getWorkerPoolSize, with BullMQ answering.
use queue_system.Prelude.{ℕ, ◌≡◌, ◌∙◌, refl, ap, String, some, length}
use queue_system.Domain.Json.{whole}
use queue_system.Payments.Exec.{ok}
use queue_system.Queue.Manager.{
  Bull, exactly, QueueConfig, GatewayRuntime, QueueManager, ensure_gateway, scale_workers,
}
use queue_system.Queue.Manager.Scale.{Answers, scale_workers-length}
use queue_system.Queue.Manager.Frame.{scale_workers-Frame}
use queue_system.Queue.Control.{set_worker_pool_size, get_worker_pool_size}

module _ {B : Bull} (A : Answers B) (config : QueueConfig) (spare : ℕ) where
  known-size :
      (id : String) (r : GatewayRuntime) (q : QueueManager B)
      → q.runtimes id ≡ some r
      → get_worker_pool_size id q ≡ length (q.workers r.ref)
  unfolding get_worker_pool_size
  known-size id r q known = rw (known, get_worker_pool_size) refl

  -- With BullMQ answering, setting the pool size of a gateway whose runtime is known returns, and the
  -- size that is read afterwards is the one that was set.
  pub set_worker_pool_size-get :
      (id : String) (size : ℕ) (r : GatewayRuntime) (q : QueueManager B)
      → q.runtimes id ≡ some r
      → let (result, q') = set_worker_pool_size config spare id (whole size) q in
        (result ≡ ok tt) × (get_worker_pool_size id q' ≡ size)
  unfolding set_worker_pool_size ensure_gateway
  set_worker_pool_size-get id size r q known =
      let (returned, sized) = scale_workers-length A r (exactly size) tt spare q in
      let kept =
        ap (λ m. m id) (scale_workers-Frame r (exactly size) spare q).runtimes_same ∙ known in
      rw (known, ensure_gateway)
        (returned, known-size id r (scale_workers spare r (exactly size) q).1 kept ∙ sized)
