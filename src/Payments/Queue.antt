-- ===== src/Payments/Queue.antt =====
-- src/queue/queue-manager.service.ts as submission and the worker use it. A queue of BullMQ is the
-- list of what was handed to `queue.add`, oldest first. Provisioning the queue and the workers of a
-- gateway is left out: where it fails, `queue_fault` is what is thrown. The jitter of the backoff is
-- left out too.
use queue_system.Prelude.{ℕ, ◌+◌, true, Option, none, some, [], ◌∷◌, ◌++◌, ◌==◌, ltb, if◌then◌else◌}
use queue_system.Prelude.Number.{Number}
use queue_system.Domain.Errors.{other}
use queue_system.Domain.Payment.{queue_job_name, priority_to_numeric}
use queue_system.Payments.Exec.{raise}
use queue_system.Payments.Redis.{Redis}
use queue_system.Payments.World.{
  GuardPort, Env, M, DlqEntry, EnqueuePaymentJobInput, QueuedJob, external,
}

-- `delayMs ? Math.max(1, Math.round(delayMs)) : 0`
unfoldable pub delay_option : Option ℕ → ℕ
delay_option none = 0
delay_option (some ms) = if ms == 0 then 0 else if ltb ms 1 then 1 else ms

unfoldable pub job_of : EnqueuePaymentJobInput → ℕ → QueuedJob
job_of input backoff_base_ms = record {
  name = queue_job_name;
  data_of = record { payment_id = input.payment_id; correlation_id = input.correlation_id };
  job_id = input.job_id;
  priority = priority_to_numeric input.priority;
  delay = delay_option input.delay_ms;
  attempts = input.max_retries + 1;
  backoff_base_ms = backoff_base_ms;
  remove_on_complete = true;
}

module _ {N : Number} {P : GuardPort N} {R : Redis} (env : Env) where
  add_job : EnqueuePaymentJobInput → M N P R (Unit {0})
  unfolding external
  add_job input =
      external env λ t w. (tt, record w { jobs = w.jobs ++ job_of input env.backoff_base_ms ∷ [] })

  unfoldable pub enqueue : EnqueuePaymentJobInput → M N P R (Unit {0})
  unfolding add_job
  enqueue input = elim (env.queue_fault input) [
    | none ↦ add_job input
    | some message ↦ raise (other message)
  ]

  unfoldable pub route_to_dlq : DlqEntry → M N P R (Unit {0})
  unfolding external
  route_to_dlq entry = external env λ t w. (tt, record w { dlq = w.dlq ++ entry ∷ [] })
