-- ===== src/Payments/Workers.antt =====
-- payment.processor.ts, processJob from the lock on: several workers at the jobs of one payment, interleaved in any order. A worker
-- asks for the execution lock, makes its attempt if it got it, and releases it afterwards. Whatever
-- else the workers and the rest of the system do in between leaves the locks alone.
pub mod Exclusion
use queue_system.Prelude.{ℕ, ◌<◌, ◌+◌, ◌*◌, ◌≡◌, ◌==◌, true, false, if◌then◌else◌, String}
use queue_system.Prelude.Number.{Number}
use queue_system.Payments.Exec.{ok}
use queue_system.Payments.Redis.{Redis}
use queue_system.Payments.World.{GuardPort, Env, World}
use queue_system.Payments.Idempotency.{try_lock, release_execution_lock}
use queue_system.Payments.Saga.Outcome.{calm}

-- `attempting since` is a worker in processJob that took the lock at that time and has not released it
-- since.
pub data WorkerState : Type 0 where
  idle : WorkerState
  attempting : ℕ → WorkerState

abbrev pub States : Type 0
States = ℕ → WorkerState

abbrev pub update : States → ℕ → WorkerState → States
update states i s k = if i == k then s else states k

-- No attempt has outlived the lease of its lock.
abbrev pub Prompt : ℕ → ℕ → States → Type 0
Prompt lease_ttl_seconds now states =
    (i since : ℕ) → states i ≡ attempting since → now < since + 1000 * lease_ttl_seconds

module _ {N : Number} {P : GuardPort N} {R : Redis} (env : Env) (id : String) where
  -- A step of one worker, or of anything else, with Redis answering.
  pub data Step : World N P R → States → World N P R → States → Type 0 where
    acquire :
        {w w' : World N P R} {states : States} (i : ℕ)
        → states i ≡ idle
        → try_lock (calm env) id w ≡ (ok true, w')
        → Step w states w' (update states i (attempting (env.clock w.calls)))
    -- The job is skipped.
    skip :
        {w w' : World N P R} {states : States} (i : ℕ)
        → states i ≡ idle
        → try_lock (calm env) id w ≡ (ok false, w')
        → Step w states w' states
    -- The attempt is over, however it ended.
    finish :
        {w w' : World N P R} {states : States} (i since : ℕ)
        → states i ≡ attempting since
        → release_execution_lock (calm env) id w ≡ (ok tt, w')
        → Step w states w' (update states i idle)
    other : {w w' : World N P R} {states : States} → w'.locks ≡ w.locks → Step w states w' states

  -- Each step finds no attempt that has outlived its lease.
  pub data Reach (w : World N P R) (states : States) : World N P R → States → Type 0 where
    here : Reach w states w states
    next :
        {w' w'' : World N P R} {states' states'' : States}
        → Reach w states w' states'
        → Prompt env.lease_ttl_seconds (env.clock w'.calls) states'
        → Step w' states' w'' states''
        → Reach w states w'' states''
