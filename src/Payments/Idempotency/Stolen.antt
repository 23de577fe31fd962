-- ===== src/Payments/Idempotency/Stolen.antt =====
-- idempotency.service.ts: an execution lock that outlived its time, with Redis answering.
use queue_system.Prelude.{
  arith, ℕ, ◌+◌, ◌*◌, ◌<◌, ◌≤◌, ◌≡◌, ◌∙◌, refl, ap, true, false, String, none, some, ltb, eq_refl,
}
use queue_system.Prelude.Number.{Number}
use queue_system.Payments.Exec.{ok}
use queue_system.Payments.Redis.{Redis, IsRedis, get-set_ex_self, get-del_self}
use queue_system.Payments.World.{GuardPort, Env, World}
use queue_system.Payments.Saga.Outcome.{calm}
use queue_system.Payments.Idempotency.{acquire_execution_lock, release_execution_lock, try_lock}

not_before : (a b : ℕ) → b ≤ a → ltb a b ≡ false
not_before a b h = ground arith

-- The calls that taking a free lock makes to Redis and the clock.
abbrev pub four_more : ℕ → ℕ
four_more n = n + 1 + 1 + 1 + 1

-- A lock that was set at `t` is free when its time is over.
pub expired :
    {R : Redis} (L : IsRedis R) (id : String) (seconds t now : ℕ) (locks : R.locks.State)
    → t + 1000 * seconds ≤ now
    → R.locks.get now id (R.locks.set_ex t id tt seconds locks) ≡ none
expired L id seconds t now locks over =
    L.locks.get-set_ex now t id id tt seconds locks
    ∙ rw (eq_refl id) (rw (not_before now (t + 1000 * seconds) over) refl)

module _ {N : Number} {P : GuardPort N} {R : Redis} (L : IsRedis R) (env : Env) (id : String) where
  acquire_execution_lock_free :
      (w : World N P R)
      → R.locks.get (env.clock w.calls) id w.locks ≡ none
      → let (r, w1) = acquire_execution_lock (calm env) id w in
        (r ≡ ok true)
        × (w1.locks ≡ R.locks.set_ex (env.clock w.calls) id tt env.lease_ttl_seconds w.locks)
        × (w1.calls ≡ four_more w.calls)
  unfolding acquire_execution_lock
  acquire_execution_lock_free w free =
      rw (L.locks.set_ex_nx-free _ _ _ _ _ free, acquire_execution_lock, try_lock)
        (refl, refl, refl)

  -- With Redis answering, if the lock of a payment is free and a first worker takes it and works on
  -- after its lease is over, then a second worker takes the lock too; the first, when it is done,
  -- releases the lock of the second, which would be held for longer; and a third takes it while the
  -- lease of the second is not over.
  pub release_execution_lock-steals :
      (w : World N P R)
      → R.locks.get (env.clock w.calls) id w.locks ≡ none
      → env.clock w.calls + 1000 * env.lease_ttl_seconds ≤ env.clock (four_more w.calls)
      → (later : ℕ) → later < env.clock (four_more w.calls) + 1000 * env.lease_ttl_seconds
      → let (first, w1) = acquire_execution_lock (calm env) id w in
        let (second, w2) = acquire_execution_lock (calm env) id w1 in
        let (released, w3) = release_execution_lock (calm env) id w2 in
        let (third, w4) = acquire_execution_lock (calm env) id w3 in
        (first ≡ ok true)
        × (second ≡ ok true)
        × (R.locks.get later id w2.locks ≡ some tt)
        × (released ≡ ok tt)
        × (R.locks.get later id w3.locks ≡ none)
        × (third ≡ ok true)
  unfolding release_execution_lock
  release_execution_lock-steals w free late later early =
      let a = acquire_execution_lock_free w free in
      let w1 : World N P R = (acquire_execution_lock (calm env) id w).1 in
      let w2 : World N P R = (acquire_execution_lock (calm env) id w1).1 in
      let w3 : World N P R = (release_execution_lock (calm env) id w2).1 in
      let t1 : env.clock w1.calls ≡ env.clock (four_more w.calls) = ap env.clock a.2 in
      let free1 : R.locks.get (env.clock w1.calls) id w1.locks ≡ none =
        ap (R.locks.get (env.clock w1.calls) id) a.1
        ∙ expired L id env.lease_ttl_seconds (env.clock w.calls) (env.clock w1.calls) w.locks
            (omega (arith, t1, late)) in
      let b = acquire_execution_lock_free w1 free1 in
      let c = acquire_execution_lock_free w3 (get-del_self L.locks _ id w2.locks) in
      (
        a.0,
        b.0,
        ap (R.locks.get later id) b.1
            ∙ get-set_ex_self L.locks later (env.clock w1.calls) id tt env.lease_ttl_seconds
                w1.locks (omega (arith, t1, early)),
        refl,
        get-del_self L.locks later id w2.locks,
        c.0,
      )
