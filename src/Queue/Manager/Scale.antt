-- ===== src/Queue/Manager/Scale.antt =====
-- queue-manager.service.ts: scaling ends with the workers that were asked for, with BullMQ answering.
use mathlib.Core.Path.{subst}
use queue_system.Prelude.{
  arith, ℕ, zero, suc, ◌+◌, ◌≤◌, ◌<◌, ◌≡◌, refl, ap, sym, true, false, String, some, List, [], ◌∷◌,
  ◌++◌, length, length-append, Bool-cases, inl, inr, ==_refl,
}
use queue_system.Payments.Exec.{ok, continue-ok}
use queue_system.Queue.Manager.{
  Bull, PoolSize, exactly, above, below_zero, less, more, rounds, GatewayRuntime, QueueManager, pop,
  call, put_workers, grow, shrink, scale_workers,
}

-- BullMQ starts and closes every worker that it is asked to.
pub record Answers (B : Bull) : Type 0 where
  pub starts : (name : String) (s : B.State) → (w : B.Worker) × ((B.start_worker name s).0 ≡ ok w)
  pub closes : (w : B.Worker) (s : B.State) → (B.close_worker w s).0 ≡ ok tt

pop-length :
    {A : Type 0} (x : A) (xs : List A)
    → (ys : List A) × (y : A) × (pop (x ∷ xs) ≡ some (ys, y)) × (length ys ≡ length xs)
pop-length x [] = ([], x, refl, refl)
pop-length x (z ∷ zs) =
    let (ys, y, popped, same) = pop-length z zs in (x ∷ ys, y, rw (popped) refl, ap suc same)

at_least : {a b n : ℕ} → a ≡ b → n ≤ b → n ≤ a
at_least same h = omega arith

at_most : {a b n : ℕ} → a ≡ b → b ≤ n → a ≤ n
at_most same h = omega arith

pop-some :
    {A : Type 0} (n : ℕ) (xs : List A)
    → n < length xs
    → (ys : List A) × (y : A) × (pop xs ≡ some (ys, y)) × (length xs ≡ suc (length ys))
pop-some n [] long = absurd (omega arith)
pop-some n (x ∷ xs) long =
    let (ys, y, popped, same) = pop-length x xs in (ys, y, popped, omega (arith, same))

-- The whole number of workers that a size that is not below 0 allows.
abbrev pub floor : PoolSize → ℕ
floor (exactly n) = n
floor (above n) = n
floor below_zero = 0

abbrev pub IsPossible : PoolSize → Type 0
IsPossible below_zero = ⊥
IsPossible _ = Unit

pub less-true : (k : ℕ) (size : PoolSize) → less k size ≡ true → k < rounds size
less-true k (exactly n) h = ground arith
less-true k (above n) h = ground arith
less-true k below_zero h = cc

less-false : (k : ℕ) (size : PoolSize) → less k size ≡ false → rounds size ≤ k
less-false k (exactly n) h = ground arith
less-false k (above n) h = ground arith
less-false k below_zero h = omega arith

more-true : (k : ℕ) (size : PoolSize) → IsPossible size → more k size ≡ true → floor size < k
more-true k (exactly n) p h = ground arith
more-true k (above n) p h = ground arith
more-true k below_zero p h = absurd p

more-false : (k : ℕ) (size : PoolSize) → more k size ≡ false → k ≤ floor size
more-false k (exactly n) h = ground arith
more-false k (above n) h = ground arith
more-false k below_zero h = cc

floor-le-rounds : (size : PoolSize) → floor size ≤ rounds size
floor-le-rounds (exactly n) = omega arith
floor-le-rounds (above n) = omega arith
floor-le-rounds below_zero = omega arith

module _ {B : Bull} (r : GatewayRuntime) where
  put_workers-workers :
      (q : QueueManager B) (workers : List B.Worker)
      → (put_workers r workers q).1.workers r.ref ≡ workers
  unfolding put_workers
  put_workers-workers q workers = rw (==_refl r.ref) refl

module _ {B : Bull} (A : Answers B) (r : GatewayRuntime) (target : PoolSize) where
  grow-length :
      (fuel : ℕ) (q : QueueManager B)
      → rounds target ≤ fuel + length (q.workers r.ref)
      → let (result, q') = grow fuel r target q in
        (result ≡ ok tt) × (rounds target ≤ length (q'.workers r.ref))
  unfolding grow
  grow-length zero q enough = elim (Bool-cases (less (length (q.workers r.ref)) target)) [
    | inl short ↦ absurd (omega (arith, less-true (length (q.workers r.ref)) target short))
    | inr long ↦ rw (long) (refl, omega arith)
  ]
  grow-length (suc fuel) q enough = elim (Bool-cases (less (length (q.workers r.ref)) target)) [
    | inl short ↦
        let (worker, started) = A.starts r.queue_name q.bull in
        let q1 : QueueManager B = record q { bull = (B.start_worker r.queue_name q.bull).1 } in
        let workers = q.workers r.ref ++ worker ∷ [] in
        let one_more = ap length (put_workers-workers r q1 workers) in
        rw (short) (
          rw (started, call)
            (grow-length fuel (put_workers r workers q1).1
              (omega (arith, one_more, length-append (q.workers r.ref) (worker ∷ [])))))
    | inr long ↦ rw (long) (refl, less-false (length (q.workers r.ref)) target long)
  ]

  module _ (possible : IsPossible target) where
    shrink-length :
        (fuel : ℕ) (q : QueueManager B)
        → floor target ≤ length (q.workers r.ref)
        → length (q.workers r.ref) ≤ floor target + fuel
        → let (result, q') = shrink fuel r target q in
          (result ≡ ok tt) × (length (q'.workers r.ref) ≡ floor target)
    unfolding shrink
    shrink-length zero q many few = elim (Bool-cases (more (length (q.workers r.ref)) target)) [
      | inl long ↦ absurd (omega (arith, more-true (length (q.workers r.ref)) target possible long))
      | inr short ↦ rw (short) (refl, omega arith)
    ]
    shrink-length (suc fuel) q many few =
        elim (Bool-cases (more (length (q.workers r.ref)) target)) [
          | inl long ↦
              let longer = more-true (length (q.workers r.ref)) target possible long in
              let (kept, extra, popped, same) = pop-some (floor target) (q.workers r.ref) longer in
              let q1 : QueueManager B = (put_workers r kept q).1 in
              let fewer = ap length (put_workers-workers r q kept) in
              let b1 = (B.close_worker extra q1.bull).1 in
              rw (long) (
                rw (popped) (
                  rw (A.closes extra q1.bull, call)
                    (shrink-length fuel (record q1 { bull = B.disconnect extra b1 })
                      (at_least fewer (omega (arith, longer, same)))
                      (at_most fewer (omega (arith, longer, same))))))
          | inr short ↦
              let fits = more-false (length (q.workers r.ref)) target short in
              rw (short) (refl, omega (arith, fits))
        ]

    -- With BullMQ answering, scaling the workers of a gateway to a size that is not below 0 returns, and
    -- leaves the gateway with exactly so many, rounded down, whether it had more or fewer.
    pub scale_workers-length :
        (spare : ℕ) (q : QueueManager B)
        → let (result, q') = scale_workers spare r target q in
          (result ≡ ok tt) × (length (q'.workers r.ref) ≡ floor target)
    unfolding scale_workers
    scale_workers-length spare q =
        let (grown, many) = grow-length (rounds target + spare) q (omega arith) in
        let q1 : QueueManager B = (grow (rounds target + spare) r target q).1 in
        let fuel = length (q1.workers r.ref) + spare in
        subst (λ m. (m.0 ≡ ok tt) × (length (m.1.workers r.ref) ≡ floor target))
          (sym (continue-ok _ (grow (rounds target + spare) r target q) grown))
          (shrink-length fuel q1 (omega (arith, many, floor-le-rounds target)) (omega arith))
