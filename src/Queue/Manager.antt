-- ===== src/Queue/Manager.antt =====
-- src/queue/queue-manager.service.ts: the runtimes of the gateways. BullMQ and its connections are a
-- parameter; a call to them may reject. A handle to a worker stands for the worker and its client. A
-- runtime is an object that callers share: its workers are kept under its identity, so that a runtime
-- that the map no longer holds can still be scaled. The loops over the workers run on fuel.
pub mod Scale
pub mod Endless
pub mod Frame
pub mod Provision
pub mod Overlap
use queue_system.Prelude.{
  ℕ, zero, suc, ◌+◌, ◌==◌, Bool, true, false, String, Option, none, some, List, [], ◌∷◌, ◌++◌, ltb,
  leb, length, if◌then◌else◌,
}
use queue_system.Prelude.Maps.{Map, set}
use queue_system.Queue.Name.{queue_name_for}
use queue_system.Payments.Exec.{Result, ok, raised, Exec, pure, raise, gets, ◌>>=◌, ◌>>◌}
use queue_system.Payments.World.{DlqEntry}

-- What `getJobCounts` answers: a count that it leaves out is `none`.
pub record JobCounts : Type 0 where
  pub waiting : Option ℕ
  pub prioritized : Option ℕ
  pub active : Option ℕ
  pub delayed : Option ℕ
  pub failed : Option ℕ

-- A job of the dead letter queue, with its id.
pub record DlqJob : Type 0 where
  pub job_id : Option String
  pub entry : DlqEntry

-- The calls to BullMQ, each by the name of a queue or the handle of a worker. `disconnect` ends the
-- connection of a worker, `disconnect_queue` that of a queue.
pub record Bull : Type 1 where
  pub State : Type 0
  pub Worker : Type 0
  pub open_queue : String → State → Result String (Unit {0}) × State
  pub close_queue : String → State → Result String (Unit {0}) × State
  pub disconnect_queue : String → State → State
  pub start_worker : String → State → Result String Worker × State
  pub close_worker : Worker → State → Result String (Unit {0}) × State
  pub disconnect : Worker → State → State
  pub pause : String → State → Result String (Unit {0}) × State
  pub resume : String → State → Result String (Unit {0}) × State
  pub counts : String → State → Result String JobCounts × State
  pub dlq_jobs : State → Result String (List DlqJob) × State

abbrev pub dlq_queue_name : String
dlq_queue_name = "dlq"

-- A JavaScript number as the loops over the workers tell one from another: a whole one, one between
-- `n` and `n + 1`, or one below 0.
pub data PoolSize : Type 0 where
  exactly : ℕ → PoolSize
  above : ℕ → PoolSize
  below_zero : PoolSize

-- `k < size` and `k > size`.
abbrev pub less : ℕ → PoolSize → Bool
less k (exactly n) = ltb k n
less k (above n) = leb k n
less k below_zero = false

abbrev pub more : ℕ → PoolSize → Bool
more k (exactly n) = ltb n k
more k (above n) = ltb n k
more k below_zero = true

-- The rounds that suffice to reach a size from no workers.
abbrev pub rounds : PoolSize → ℕ
rounds (exactly n) = n
rounds (above n) = suc n
rounds below_zero = 0

-- What is read of the configuration, and `toLowerCase`.
pub record QueueConfig : Type 0 where
  pub worker_pool_size : PoolSize
  pub to_lower_case : String → String

-- A method throws, or it does not come back: its fuel is spent.
pub data Failure : Type 0 where
  thrown : String → Failure
  endless : Failure

-- `ref` is the identity of the object.
pub record GatewayRuntime : Type 0 where
  pub gateway_id : String
  pub queue_name : String
  pub ref : ℕ

module _ (B : Bull) where
  -- `ids` is the order in which the runtimes were set, `next_ref` the identity of the next object.
  pub record QueueManager : Type 0 where
    pub runtimes : Map GatewayRuntime
    pub ids : List String
    pub workers : ℕ → List B.Worker
    pub next_ref : ℕ
    pub dlq_open : Bool
    pub bull : B.State

  abbrev pub Managed : Type 0 → Type 0
  Managed A = Exec QueueManager Failure A

-- `xs.pop()`: the list without its last element, and that element.
abbrev pub pop {ℓ} : {A : Type ℓ} → List A → Option (List A × A)
pop [] = none
pop (x ∷ xs) = elim (pop xs) [ none ↦ some ([], x) | some (ys, y) ↦ some (x ∷ ys, y) ]

abbrev pub failing : {A : Type 0} → Result String A → Result Failure A
failing (ok a) = ok a
failing (raised message) = raised (thrown message)

module _ {B : Bull} where
  unfoldable pub call : {A : Type 0} → (B.State → Result String A × B.State) → Managed B A
  call f q = let (r, b) = f q.bull in (failing r, record q { bull = b })

  unfoldable pub put_workers : GatewayRuntime → List B.Worker → Managed B (Unit {0})
  put_workers r workers q =
      (ok tt, record q { workers = λ k. if k == r.ref then workers else q.workers k })

  -- `while (runtime.workers.length < target)`
  unfoldable pub grow : ℕ → GatewayRuntime → PoolSize → Managed B (Unit {0})
  unfolding call put_workers
  grow zero r target = do
    workers ← gets (λ q. q.workers r.ref)
    if less (length workers) target then raise endless else pure tt
  grow (suc fuel) r target =
      let rest = grow fuel r target in
      do
        workers ← gets (λ q. q.workers r.ref)
        if less (length workers) target
            then (do
              worker ← call (B.start_worker r.queue_name)
              now_there ← gets (λ q. q.workers r.ref)
              put_workers r (now_there ++ worker ∷ [])
              rest)
            else pure tt

  -- `while (runtime.workers.length > target)`
  unfoldable pub shrink : ℕ → GatewayRuntime → PoolSize → Managed B (Unit {0})
  unfolding call put_workers
  shrink zero r target = do
    workers ← gets (λ q. q.workers r.ref)
    if more (length workers) target then raise endless else pure tt
  shrink (suc fuel) r target =
      let rest = shrink fuel r target in
      do
        workers ← gets (λ q. q.workers r.ref)
        if more (length workers) target
            then elim (pop {A = B.Worker} workers) [
              | none ↦ rest
              | some (kept, extra) ↦ do
                put_workers r kept
                call (B.close_worker extra)
                call (λ b. (ok tt, B.disconnect extra b))
                rest
            ]
            else pure tt

  -- `spare` is more fuel than the loops need, if they end at all.
  unfoldable pub scale_workers : ℕ → GatewayRuntime → PoolSize → Managed B (Unit {0})
  unfolding grow shrink
  scale_workers spare r target = do
    grow (rounds target + spare) r target
    workers ← gets (λ q. q.workers r.ref)
    shrink (length workers + spare) r target

  -- `{ gatewayId, queueName, queue, queueClient, workers: [] }`, which is set in the map.
  unfoldable pub set_runtime : String → String → Managed B GatewayRuntime
  set_runtime id queue_name q =
      let r : GatewayRuntime = record {
        gateway_id = id;
        queue_name = queue_name;
        ref = q.next_ref;
      } in
      (
        ok r,
        record q {
          runtimes = set id r q.runtimes;
          ids = elim (q.runtimes id) [ none ↦ q.ids ++ id ∷ [] | some _ ↦ q.ids ];
          workers = λ k. if k == q.next_ref then [] else q.workers k;
          next_ref = suc q.next_ref;
        },
      )

  module _ (config : QueueConfig) (spare : ℕ) where
    -- After the queue was found to be missing.
    unfoldable pub provision : String → Managed B GatewayRuntime
    unfolding call set_runtime scale_workers
    provision id = do
      let name = queue_name_for config.to_lower_case id
      call (B.open_queue name)
      r ← set_runtime id name
      scale_workers spare r config.worker_pool_size
      pure r

    unfoldable pub ensure_gateway : String → Managed B GatewayRuntime
    unfolding provision
    ensure_gateway id = do
      q ← gets (λ q. q)
      elim (q.runtimes id) [ some existing ↦ pure existing | none ↦ provision id ]
