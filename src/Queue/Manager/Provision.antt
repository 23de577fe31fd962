-- ===== src/Queue/Manager/Provision.antt =====
-- queue-manager.service.ts: provisioning a gateway, when BullMQ does not answer.
use queue_system.Prelude.{
  arith, ℕ, zero, suc, ◌+◌, ◌<◌, ◌≡◌, refl, ap, true, String, none, [], ◌++◌, ==_refl, ◌∷◌, ◌==◌,
  if◌then◌else◌,
}
use queue_system.Prelude.Maps.{set, set_self}
use queue_system.Queue.Name.{queue_name_for}
use queue_system.Payments.Exec.{ok, raised, continue}
use queue_system.Queue.Manager.{
  Bull, PoolSize, less, rounds, QueueConfig, GatewayRuntime, QueueManager, thrown, call, grow,
  scale_workers, set_runtime, ensure_gateway,
}
use queue_system.Queue.Manager.Scale.{less-true}

module _ {B : Bull} (r : GatewayRuntime) (size : PoolSize) (q : QueueManager B) (message : String)
    (workless : q.workers r.ref ≡ []) (wanted : less 0 size ≡ true)
    (refused : (B.start_worker r.queue_name q.bull).0 ≡ raised message) where
  abbrev after_refusal : QueueManager B
  after_refusal = record q { bull = (B.start_worker r.queue_name q.bull).1 }

  grow_refused :
      (fuel : ℕ) → 0 < fuel → grow fuel r size q ≡ (raised (thrown message), after_refusal)
  unfolding grow
  grow_refused zero some_fuel = absurd (omega arith)
  grow_refused (suc fuel) some_fuel = rw (workless) (rw (wanted) (rw (refused, call) refl))

  -- A scaling from no workers whose first worker cannot be started changes nothing else.
  scale_workers_refused :
      (spare : ℕ) → scale_workers spare r size q ≡ (raised (thrown message), after_refusal)
  unfolding scale_workers
  scale_workers_refused spare =
      ap (continue _) (grow_refused (rounds size + spare) (omega (arith, less-true 0 size wanted)))

module _ {B : Bull} (config : QueueConfig) (id : String) (q : QueueManager B) where
  -- The runtime without workers, and the state in which it is set.
  abbrev bare : GatewayRuntime
  bare = record {
    gateway_id = id;
    queue_name = queue_name_for config.to_lower_case id;
    ref = q.next_ref;
  }

  abbrev set_at : B.State → QueueManager B
  set_at b = record {
    runtimes = set id bare q.runtimes;
    ids = q.ids ++ id ∷ [];
    workers = λ k. if k == q.next_ref then [] else q.workers k;
    next_ref = suc q.next_ref;
    dlq_open = q.dlq_open;
    bull = b;
  }

  abbrev refused_at : B.State → QueueManager B
  refused_at b = set_at (B.start_worker (queue_name_for config.to_lower_case id) b).1

  ensure_gateway_refused :
      (spare : ℕ) (b : B.State) (message : String)
      → q.runtimes id ≡ none
      → less 0 config.worker_pool_size ≡ true
      → B.open_queue (queue_name_for config.to_lower_case id) q.bull ≡ (ok tt, b)
      → (B.start_worker (queue_name_for config.to_lower_case id) b).0 ≡ raised message
      → ensure_gateway config spare id q ≡ (raised (thrown message), refused_at b)
  unfolding ensure_gateway
  ensure_gateway_refused spare b message new wanted opened refused =
      rw (new, ensure_gateway)
        (rw (opened, call)
          (rw (new, set_runtime)
            (ap (continue _) (
              scale_workers_refused bare config.worker_pool_size (set_at b) message
                (rw (==_refl q.next_ref) refl) wanted refused spare))))

  -- If the configured pool has a worker and the first worker of a new gateway cannot be started, the
  -- gateway is refused; but the next time it is asked for, it is answered without an error, and
  -- without a worker.
  pub ensure_gateway-unworked :
      (spare : ℕ) (b : B.State) (message : String)
      → q.runtimes id ≡ none
      → less 0 config.worker_pool_size ≡ true
      → B.open_queue (queue_name_for config.to_lower_case id) q.bull ≡ (ok tt, b)
      → (B.start_worker (queue_name_for config.to_lower_case id) b).0 ≡ raised message
      → let (first, q1) = ensure_gateway config spare id q in
        let (second, q2) = ensure_gateway config spare id q1 in
        (r : GatewayRuntime) × (first ≡ raised (thrown message))
        × (second ≡ ok r)
        × (q2.workers r.ref ≡ [])
        × (q2 ≡ q1)
  unfolding ensure_gateway
  ensure_gateway-unworked spare b message new wanted opened refused =
      rw (ensure_gateway_refused spare b message new wanted opened refused) (
        rw (set_self id bare q.runtimes, ensure_gateway)
          (bare, refl, refl, rw (==_refl q.next_ref) refl, refl))
