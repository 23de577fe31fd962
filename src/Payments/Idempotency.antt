-- ===== src/Payments/Idempotency.antt =====
-- src/payments/idempotency.service.ts: the two-phase idempotency record and the execution lock.
pub mod Machine
pub mod Refines
pub mod Stolen
use queue_system.Prelude.{ℕ, Bool, true, false, String, Option, none, some, if◌then◌else◌, or_else}
use queue_system.Prelude.Number.{Number}
use queue_system.Domain.Payment.{PaymentStatus, IdempotencyRecord, IdempotencyState}
use queue_system.Payments.Exec.{◌>>=◌, ◌>>◌, pure}
use queue_system.Payments.Redis.{Redis, json, parse}
use queue_system.Payments.World.{GuardPort, Env, M, now, external}

pub data ClaimResult : Type 0 where
  new : ClaimResult
  conflict replayed : IdempotencyRecord → ClaimResult

-- A record in state PROCESSING.
abbrev pub lease : String → Option ℕ → ℕ → IdempotencyRecord
lease id claimed_at now = record {
  payment_id = id;
  state = IdempotencyState.processing;
  payment_status = none;
  transaction_id = none;
  failure_reason = none;
  claimed_at = claimed_at;
  updated_at = some now;
}

abbrev claimed_or : Option IdempotencyRecord → ℕ → Option ℕ
claimed_or none now = some now
claimed_or (some r) now = some (or_else r.claimed_at now)

-- What a claim that lost the race answers.
unfoldable pub lost_claim : IdempotencyRecord → Option IdempotencyRecord → ClaimResult
lost_claim r none = conflict r
lost_claim r (some existing) = elim existing.state [
  | IdempotencyState.processing ↦ conflict existing
  | _ ↦ replayed existing
]

module _ {N : Number} {P : GuardPort N} {R : Redis} (env : Env) where
  unfoldable pub get : String → M N P R (Option IdempotencyRecord)
  unfolding external
  get id = external env λ t w. (parse (R.leases.get t id w.idempotency), w)

  -- `SET idempotency:payment:<id> … EX`
  put_record : String → IdempotencyRecord → ℕ → M N P R (Unit {0})
  unfolding external
  put_record id r seconds =
      external env
        λ t w. (tt, record w { idempotency = R.leases.set_ex t id (json r) seconds w.idempotency })

  -- `SET lock:payment:process:<id> 1 EX NX`
  unfoldable pub try_lock : String → M N P R Bool
  unfolding external
  try_lock id = external env λ t w.
      let (acquired, locks) = R.locks.set_ex_nx t id tt env.lease_ttl_seconds w.locks in
      (acquired, record w { locks = locks })

  mark_processing : String → M N P R Bool
  unfolding get put_record now
  mark_processing id = do
    existing ← get id
    t ← now env
    put_record id (lease id (claimed_or existing t) t) env.lease_ttl_seconds
    pure true

  unfoldable pub acquire_execution_lock : String → M N P R Bool
  unfolding try_lock mark_processing
  acquire_execution_lock id = do
    acquired ← try_lock id
    if acquired then mark_processing id else pure false

  unfoldable pub release_execution_lock : String → M N P R (Unit {0})
  unfolding external
  release_execution_lock id = external env λ t w. (tt, record w { locks = R.locks.del id w.locks })

  -- `SET idempotency:payment:<id> … EX NX`
  try_claim : String → IdempotencyRecord → M N P R Bool
  unfolding external
  try_claim id r = external env λ t w.
      let (acquired, idempotency) =
        R.leases.set_ex_nx t id (json r) env.lease_ttl_seconds w.idempotency in
      (acquired, record w { idempotency = idempotency })

  unfoldable pub claim : String → M N P R ClaimResult
  unfolding now try_claim get lost_claim
  claim id = do
    t ← now env
    let r = lease id (some t) t
    acquired ← try_claim id r
    if acquired then pure new else do existing ← get id; pure (lost_claim r existing)

  unfoldable pub release : String → M N P R (Unit {0})
  unfolding external
  release id = external env λ t w. (tt, record w { idempotency = R.leases.del id w.idempotency })

  -- Phase 2, with the retention time.
  unfoldable pub finalize :
      String → IdempotencyState → PaymentStatus → Option String → Option String → M N P R (Unit {0})
  unfolding get now put_record
  finalize id state payment_status transaction_id failure_reason = do
    previous ← get id
    t ← now env
    put_record id
        (record {
          payment_id = id;
          state = state;
          payment_status = some payment_status;
          transaction_id = transaction_id;
          failure_reason = failure_reason;
          claimed_at = claimed_or previous t;
          updated_at = some t;
        })
        env.retention_seconds
