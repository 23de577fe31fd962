-- ===== src/Payments/Delivery.antt =====
-- src/queue/queue-manager.service.ts: what a worker does with a job, and with its `failed` events. The
-- queue is BullMQ's: as documented, it counts the attempts, emits `failed` after each that throws, and
-- starts the next one while any are left. `deliver` is that order of calls, not code of this repository.
pub mod Attempts
pub mod Ends
use queue_system.Prelude.{
  ℕ, zero, suc, ◌+◌, leb, String, Option, none, some, or_else, if◌then◌else◌,
}
use queue_system.Prelude.Number.{Number}
use queue_system.Domain.Errors.{Raised, message_of}
use queue_system.Payments.Exec.{Result, ok, raised, ◌>>=◌, ◌>>◌, pure, try_catch}
use queue_system.Payments.Redis.{Redis}
use queue_system.Payments.World.{GuardPort, Env, M}
use queue_system.Payments.Processor.{ProcessResult, Job, process_job, handle_job_failure}

module _ {N : Number} {P : GuardPort N} {R : Redis} (env : Env) where
  -- The listener of `failed`: `attempts` is the option of the job, and the handler's own failure is
  -- caught and logged.
  unfoldable pub on_failed : Job → Option ℕ → Raised → M N P R (Unit {0})
  unfolding handle_job_failure
  on_failed job attempts err =
      if leb (or_else attempts 1) job.attempts_made
      then try_catch (handle_job_failure env job.payment_id job.correlation_id (message_of err))
          (λ _. pure tt)
      else pure tt

  -- The first argument is the number of attempts that are left.
  unfoldable pub deliver : ℕ → Option ℕ → Job → M N P R (Option ProcessResult)
  unfolding on_failed process_job
  deliver zero attempts job = pure none
  deliver (suc left) attempts job =
      let failed : Job = record job { attempts_made = job.attempts_made + 1 } in
      let next = deliver left attempts failed in
      try_catch (do r ← process_job env job; pure (some r))
        (λ err. do on_failed failed attempts err; next)
