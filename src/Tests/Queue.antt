-- ===== src/Tests/Queue.antt =====
-- The queue manager over a BullMQ that numbers its workers.
use mathlib.Core.List.{Perm}
use queue_system.Prelude.{
  ℕ, ◌+◌, ◌<◌, ◌==◌, arith, ◌≡◌, ◌≢◌, ◌↔◌, ◌⊎◌, refl, true, false, List, String, none, some, [],
  ◌∷◌, length, str_eq, if◌then◌else◌,
}
use queue_system.Prelude.Maps.{empty, set}
use queue_system.Payments.Exec.{ok, raised}
use queue_system.Queue.Name.{queue_name_for, queue_name_for_shared}
use queue_system.Queue.Manager.{
  Bull, JobCounts, DlqJob, PoolSize, exactly, below_zero, thrown, endless, QueueConfig,
  GatewayRuntime, QueueManager, scale_workers, provision, ensure_gateway,
}
use queue_system.Queue.Manager.Scale.{Answers, scale_workers-length}
use queue_system.Queue.Manager.Endless.{ensure_gateway-endless}
use queue_system.Queue.Manager.Overlap.{provision-overlaps}
use queue_system.Queue.Manager.Provision.{ensure_gateway-unworked}
use queue_system.Queue.Control.{dlq_depths, collect_queue_depths, list_dlq}
use queue_system.Queue.Control.Depths.{collect_queue_depths-reported}
use queue_system.Queue.Control.DeadLetters.{InOrder, list_dlq-InOrder}
use queue_system.Queue.Closing.{Event, close_worker_gracefully, run}
use queue_system.Queue.Closing.Settles.{Occurs, ForcedAfterTime, close_worker_gracefully-resolves}

abbrev pub counts0 : String → JobCounts
counts0 name = record {
  waiting = some 4;
  prioritized = if str_eq name "dlq" then none else some 3;
  active = none;
  delayed = some 1;
  failed = none;
}

abbrev pub job0 : ℕ → DlqJob
job0 at = record {
  job_id = some "p";
  entry = record {
    payment_id = "p";
    correlation_id = none;
    reason = "declined";
    dead_lettered_at = at;
  };
}

-- The state counts the workers that were started.
abbrev pub bull0 : Bull
bull0 = record {
  State = ℕ;
  Worker = ℕ;
  open_queue = λ name n. (ok tt, n);
  close_queue = λ name n. (ok tt, n);
  disconnect_queue = λ name n. n;
  start_worker = λ name n. (ok n, n + 1);
  close_worker = λ worker n. (ok tt, n);
  disconnect = λ worker n. n;
  pause = λ name n. (ok tt, n);
  resume = λ name n. (ok tt, n);
  counts = λ name n. (ok (counts0 name), n);
  dlq_jobs = λ n. (ok (job0 2 ∷ job0 1 ∷ []), n);
}

-- Here no worker can be started.
abbrev bull1 : Bull
bull1 = record bull0 { start_worker = λ name n. (raised "no connection", n) }

bull0-Answers : Answers bull0
bull0-Answers = record { starts = λ name n. (n, refl); closes = λ worker n. refl }

abbrev config_of : PoolSize → QueueConfig
config_of size = record { worker_pool_size = size; to_lower_case = λ s. s }

abbrev pub stripe : GatewayRuntime
stripe = record { gateway_id = "stripe"; queue_name = "stripe"; ref = 0 }

abbrev pub manager0 : QueueManager bull0
manager0 = record {
  runtimes = set "stripe" stripe empty;
  ids = "stripe" ∷ [];
  workers = λ k. if k == 0 then 0 ∷ 1 ∷ [] else [];
  next_ref = 1;
  dlq_open = false;
  bull = 2;
}

abbrev manager1 : QueueManager bull1
manager1 = record {
  runtimes = empty;
  ids = [];
  workers = λ _. [];
  next_ref = 0;
  dlq_open = false;
  bull = 0;
}

manager0-Old : (k : String) (r : GatewayRuntime) → manager0.runtimes k ≡ some r → r.ref < 1
manager0-Old k r held = ground (arith, held)

scale_workers-length_example :
    let (result, q') = scale_workers 0 stripe (exactly 5) manager0 in
    (result ≡ ok tt) × (length (q'.workers 0) ≡ 5)
scale_workers-length_example = scale_workers-length bull0-Answers stripe (exactly 5) tt 0 manager0

ensure_gateway-endless_example :
    (ensure_gateway (config_of below_zero) 1000 "adyen" manager0).0 ≡ raised endless
ensure_gateway-endless_example =
    ensure_gateway-endless bull0-Answers (config_of below_zero) 1000 "adyen" manager0 refl refl refl

provision-overlaps_example :
    let (first, q1) = provision (config_of (exactly 3)) 0 "adyen" manager0 in
    let (second, q2) = provision (config_of (exactly 3)) 0 "adyen" q1 in
    (a : GatewayRuntime) × (b : GatewayRuntime) × (first ≡ ok a)
    × (second ≡ ok b)
    × (length (q2.workers a.ref) ≡ 3)
    × (length (q2.workers b.ref) ≡ 3)
    × (q2.runtimes "adyen" ≡ some b)
    × ((k : String) (r : GatewayRuntime) → q2.runtimes k ≡ some r → r.ref ≢ a.ref)
provision-overlaps_example =
    provision-overlaps bull0-Answers (λ name s. refl) (config_of (exactly 3)) tt 0 "adyen" manager0
      manager0-Old

ensure_gateway-unworked_example :
    let (first, q1) = ensure_gateway (config_of (exactly 2)) 0 "adyen" manager1 in
    let (second, q2) = ensure_gateway (config_of (exactly 2)) 0 "adyen" q1 in
    (r : GatewayRuntime) × (first ≡ raised (thrown "no connection"))
    × (second ≡ ok r)
    × (q2.workers r.ref ≡ [])
    × (q2 ≡ q1)
ensure_gateway-unworked_example =
    ensure_gateway-unworked (config_of (exactly 2)) "adyen" manager1 0 0 "no connection" refl refl
      refl refl

collected :
    (collect_queue_depths manager0).0
    ≡ ok (
      (record { gateway_id = "stripe"; waiting = 7; active = 0; delayed = 1; failed = 0 }, "stripe")
          ∷ [],
      dlq_depths "dlq" (counts0 "dlq"),
    )
collected =
    collect_queue_depths-reported counts0 (λ name s. refl) (λ name s. refl) (stripe ∷ []) manager0
      refl (refl, tt)

list_dlq-InOrder_example :
    (listed : List DlqJob) × ((list_dlq manager0).0 ≡ ok listed)
    × InOrder listed
    × Perm listed (job0 2 ∷ job0 1 ∷ [])
list_dlq-InOrder_example = list_dlq-InOrder (job0 2 ∷ job0 1 ∷ []) (λ s. refl) (λ s. refl) manager0

close_worker_gracefully-resolves_example :
    let events = Event.time_comes ∷ Event.forced_settles ∷ [] in
    ((run events close_worker_gracefully).resolved ≡ true)
    ↔ (Occurs Event.graceful_settles events ⊎ ForcedAfterTime events)
close_worker_gracefully-resolves_example =
    close_worker_gracefully-resolves (Event.time_comes ∷ Event.forced_settles ∷ [])

paypal_shared :
    queue_name_for (λ s. s) (queue_name_for (λ s. s) "pay.pal") ≡ queue_name_for (λ s. s) "pay.pal"
paypal_shared = queue_name_for_shared (λ s. s) "pay.pal" refl
