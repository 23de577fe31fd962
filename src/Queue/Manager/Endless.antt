-- ===== src/Queue/Manager/Endless.antt =====
-- queue-manager.service.ts: scaling to a size below 0.
use queue_system.Prelude.{
  ℕ, zero, suc, ◌+◌, ◌≡◌, refl, ap, String, none, length, Option-cases, inl, inr,
}
use queue_system.Payments.Exec.{ok, raised, continue, continue-raised}
use queue_system.Queue.Name.{queue_name_for}
use queue_system.Queue.Manager.{
  Bull, PoolSize, below_zero, set_runtime, GatewayRuntime, QueueConfig, QueueManager, endless, call,
  pop, put_workers, grow, shrink, scale_workers, ensure_gateway,
}
use queue_system.Queue.Manager.Scale.{Answers}

module _ {B : Bull} (A : Answers B) where
  shrink-endless :
      (fuel : ℕ) (r : GatewayRuntime) (q : QueueManager B)
      → (shrink fuel r below_zero q).0 ≡ raised endless
  unfolding shrink
  shrink-endless zero r q = refl
  shrink-endless (suc fuel) r q = elim (Option-cases (pop {A = B.Worker} (q.workers r.ref))) [
    | inl nothing ↦ rw (nothing) (shrink-endless fuel r q)
    | inr ((kept, extra), popped) ↦
        let q1 : QueueManager B = (put_workers r kept q).1 in
        rw (popped) (rw (A.closes extra q1.bull, call) (shrink-endless fuel r _))
  ]

  grow-below_zero :
      (fuel : ℕ) (r : GatewayRuntime) (q : QueueManager B) → grow fuel r below_zero q ≡ (ok tt, q)
  unfolding grow
  grow-below_zero zero r q = refl
  grow-below_zero (suc fuel) r q = refl

  scale_workers-endless :
      (spare : ℕ) (r : GatewayRuntime) (target : PoolSize) (q : QueueManager B)
      → target ≡ below_zero
      → (scale_workers spare r target q).0 ≡ raised endless
  unfolding scale_workers
  scale_workers-endless spare r target q size = rw (size) (
      rw (ap (continue _) (grow-below_zero (0 + spare) r q))
        (shrink-endless (length (q.workers r.ref) + spare) r q))

  -- With a configured pool size below 0 and BullMQ answering, a request for a gateway that is not yet
  -- provisioned does not return: its loop over the workers spends whatever fuel it is given.
  pub ensure_gateway-endless :
      (config : QueueConfig) (spare : ℕ) (id : String) (q : QueueManager B)
      → config.worker_pool_size ≡ below_zero
      → q.runtimes id ≡ none
      → (B.open_queue (queue_name_for config.to_lower_case id) q.bull).0 ≡ ok tt
      → (ensure_gateway config spare id q).0 ≡ raised endless
  unfolding ensure_gateway set_runtime
  ensure_gateway-endless config spare id q size new opened =
      rw (new, ensure_gateway)
        (rw (opened, call)
          (ap (λ m. m.0)
            (continue-raised _ (scale_workers spare _ config.worker_pool_size _)
              (scale_workers-endless spare _ config.worker_pool_size _ size))))
