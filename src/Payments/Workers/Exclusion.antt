-- ===== src/Payments/Workers/Exclusion.antt =====
-- What the execution lock guarantees to the attempts at a payment, with Redis answering.
use queue_system.Prelude.{
  arith, ℕ, ◌+◌, ◌*◌, ◌<◌, ◌≡◌, ◌∙◌, ap, sym, true, false, String, none, some, Option-cases, inl,
  inr,
}
use queue_system.Prelude.Number.{Number}
use queue_system.Payments.Exec.{ok}
use queue_system.Payments.Redis.{Redis, IsRedis, get-set_ex_self}
use queue_system.Payments.World.{GuardPort, Env, World}
use queue_system.Payments.Idempotency.{try_lock}
use queue_system.Payments.Saga.Outcome.{calm}
use queue_system.Payments.Workers.{
  idle, attempting, States, update, Prompt, Step, acquire, skip, finish, other, Reach, here, next,
}

module _ {N : Number} {P : GuardPort N} {R : Redis} (L : IsRedis R) (env : Env) (id : String) where
  -- At most one worker is at an attempt, and Redis shows its lock until the lease is over.
  record Inv (w : World N P R) (states : States) : Type 0 where
    one : (i j a b : ℕ) → states i ≡ attempting a → states j ≡ attempting b → i ≡ j
    shown :
        (i since t : ℕ)
        → states i ≡ attempting since
        → t < since + 1000 * env.lease_ttl_seconds
        → R.locks.get t id w.locks ≡ some tt

  -- What a lock that was taken or refused says of the keys.
  try_lock-taken :
      (w w' : World N P R)
      → try_lock (calm env) id w ≡ (ok true, w')
      → (R.locks.get (env.clock w.calls) id w.locks ≡ none)
        × (w'.locks ≡ R.locks.set_ex (env.clock w.calls) id tt env.lease_ttl_seconds w.locks)
  unfolding try_lock
  try_lock-taken w w' got = elim (Option-cases (R.locks.get (env.clock w.calls) id w.locks)) [
    | inl free ↦ (
      free,
      ap (λ p. p.1.locks) (sym got)
          ∙ ap (λ p. p.1) (L.locks.set_ex_nx-free _ id tt env.lease_ttl_seconds w.locks free),
    )
    | inr (u, there) ↦ cc (
      ap (λ p. p.0) got,
      L.locks.set_ex_nx-taken (env.clock w.calls) id tt u env.lease_ttl_seconds w.locks there,
    )
  ]

  try_lock-refused :
      (w w' : World N P R) → try_lock (calm env) id w ≡ (ok false, w') → w'.locks ≡ w.locks
  unfolding try_lock
  try_lock-refused w w' got = elim (Option-cases (R.locks.get (env.clock w.calls) id w.locks)) [
    | inl free ↦ cc (
      ap (λ p. p.0) got,
      L.locks.set_ex_nx-free (env.clock w.calls) id tt env.lease_ttl_seconds w.locks free,
    )
    | inr (u, there) ↦
        ap (λ p. p.1.locks) (sym got)
        ∙ ap (λ p. p.1) (L.locks.set_ex_nx-taken _ id tt u env.lease_ttl_seconds w.locks there)
  ]

  module _ (w : World N P R) (states : States) (inv : Inv w states) (i : ℕ) (free : states i ≡ idle)
      (prompt : Prompt env.lease_ttl_seconds (env.clock w.calls) states)
      (unlocked : R.locks.get (env.clock w.calls) id w.locks ≡ none) where
    none_else : (j b : ℕ) → states j ≡ attempting b → ⊥
    none_else j b busy = cc (unlocked, inv.shown j b (env.clock w.calls) busy (prompt j b busy))

    acquire_one :
        (j k a b : ℕ)
        → update states i (attempting (env.clock w.calls)) j ≡ attempting a
        → update states i (attempting (env.clock w.calls)) k ≡ attempting b
        → j ≡ k
    acquire_one j k a b busy busy' = ground (arith, none_else j a, none_else k b)

    acquire_shown :
        (j since t : ℕ)
        → update states i (attempting (env.clock w.calls)) j ≡ attempting since
        → t < since + 1000 * env.lease_ttl_seconds
        → R.locks.get t id (R.locks.set_ex (env.clock w.calls) id tt env.lease_ttl_seconds w.locks)
          ≡ some tt
    acquire_shown j since t busy early =
        let same : since ≡ env.clock w.calls = ground (arith, none_else j since) in
        get-set_ex_self L.locks t _ id tt _ w.locks (omega (arith, same, early))

  Step-Inv :
      {w w' : World N P R} {states states' : States}
      → Prompt env.lease_ttl_seconds (env.clock w.calls) states
      → Inv w states
      → Step env id w states w' states'
      → Inv w' states'
  Step-Inv prompt inv (acquire {w} {w'} {states} i free got) =
      let (unlocked, set) = try_lock-taken w w' got in
      record {
        one = acquire_one w states inv i free prompt unlocked;
        shown = λ j since t busy early.
            ap (R.locks.get t id) set
            ∙ acquire_shown w states inv i free prompt unlocked j since t busy early;
      }
  Step-Inv prompt inv (skip {w} {w'} i free refused) = record {
    one = inv.one;
    shown = λ j since t busy early.
        ap (R.locks.get t id) (try_lock-refused w w' refused) ∙ inv.shown j since t busy early;
  }
  Step-Inv prompt inv (finish i since busy released) = record {
    one = λ j k a b p q. ground (arith, inv.one j k a b);
    shown = λ j b t p early. absurd (ground (arith, inv.one i j since b));
  }
  Step-Inv prompt inv (other same) = record {
    one = inv.one;
    shown = λ j since t busy early. ap (R.locks.get t id) same ∙ inv.shown j since t busy early;
  }

  Reach-Inv :
      {w : World N P R} {states : States} {w' : World N P R} {states' : States}
      → ((i : ℕ) → states i ≡ idle)
      → Reach env id w states w' states'
      → Inv w' states'
  Reach-Inv quiet here = record {
    one = λ i j a b p q. cc (quiet i);
    shown = λ i since t p early. cc (quiet i);
  }
  Reach-Inv quiet (next r prompt step) = Step-Inv prompt (Reach-Inv quiet r) step

  -- However many workers are at the jobs of one payment, and in whatever order they ask for the lock,
  -- are refused and finish: if at the start none is at an attempt, and no step finds an attempt that
  -- has outlived its lease, then two workers that are at an attempt are the same one, and Redis shows
  -- its lock at any time before its lease is over.
  pub Reach-exclusive :
      {w : World N P R} {states : States} {w' : World N P R} {states' : States}
      → ((i : ℕ) → states i ≡ idle)
      → Reach env id w states w' states'
      → (i j since since' t : ℕ) → states' i ≡ attempting since
      → states' j ≡ attempting since'
      → t < since + 1000 * env.lease_ttl_seconds
      → (i ≡ j) × (R.locks.get t id w'.locks ≡ some tt)
  Reach-exclusive quiet r i j since since' t busy busy' early =
      let inv = Reach-Inv quiet r in
      (inv.one i j since since' busy busy', inv.shown i since t busy early)
