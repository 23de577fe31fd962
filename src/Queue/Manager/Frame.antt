-- ===== src/Queue/Manager/Frame.antt =====
-- queue-manager.service.ts: what scaleWorkers leaves alone, however BullMQ answers.
use queue_system.Prelude.{
  ℕ, zero, suc, ◌+◌, ◌≡◌, ◌∙◌, refl, false, String, List, [], ◌∷◌, ◌++◌, ◌==◌, length, Bool-cases,
  Option-cases, inl, inr,
}
use queue_system.Payments.Exec.{Result, ok, raised, continue}
use queue_system.Queue.Manager.{
  Bull, PoolSize, less, more, rounds, GatewayRuntime, QueueManager, Managed, Failure, call, pop,
  put_workers, grow, shrink, scale_workers,
}

-- The second state has the map of the first, and the workers of every runtime but one.
pub record Frame {B : Bull} (ref : ℕ) (q q' : QueueManager B) : Type 0 where
  pub runtimes_same : q'.runtimes ≡ q.runtimes
  pub ids_same : q'.ids ≡ q.ids
  pub next_ref_same : q'.next_ref ≡ q.next_ref
  pub others : (k : ℕ) → (k == ref) ≡ false → q'.workers k ≡ q.workers k

module _ {B : Bull} (ref : ℕ) where
  Frame-refl : (q : QueueManager B) → Frame ref q q
  Frame-refl q = record {
    runtimes_same = refl;
    ids_same = refl;
    next_ref_same = refl;
    others = λ k h. refl;
  }

  Frame-trans : (q q' q'' : QueueManager B) → Frame ref q q' → Frame ref q' q'' → Frame ref q q''
  Frame-trans q q' q'' f g = record {
    runtimes_same = g.runtimes_same ∙ f.runtimes_same;
    ids_same = g.ids_same ∙ f.ids_same;
    next_ref_same = g.next_ref_same ∙ f.next_ref_same;
    others = λ k h. g.others k h ∙ f.others k h;
  }

  abbrev Frames : {A : Type 0} → Managed B A → Type 0
  Frames m = (q : QueueManager B) → Frame ref q (m q).1

  Frame-continue :
      {A C : Type 0} (f : A → Managed B C) (q : QueueManager B)
      (m : Result Failure A × QueueManager B)
      → Frame ref q m.1
      → ((a : A) → Frames (f a))
      → Frame ref q (continue f m).1
  Frame-continue f q (ok a, s) first rest = Frame-trans q s (f a s).1 first (rest a s)
  Frame-continue f q (raised x, s) first rest = first

  Frames-call : {A : Type 0} (f : B.State → Result String A × B.State) → Frames (call {B = B} f)
  unfolding call
  Frames-call f q = record {
    runtimes_same = refl;
    ids_same = refl;
    next_ref_same = refl;
    others = λ k h. refl;
  }

module _ {B : Bull} (r : GatewayRuntime) where
  Frames-put_workers : (workers : List B.Worker) → Frames {B = B} r.ref (put_workers r workers)
  unfolding put_workers
  Frames-put_workers workers q = record {
    runtimes_same = refl;
    ids_same = refl;
    next_ref_same = refl;
    others = λ k h. rw h refl;
  }

  module _ (target : PoolSize) where
    Frames-grow : (fuel : ℕ) → Frames {B = B} r.ref (grow fuel r target)
    unfolding grow
    Frames-grow zero q = elim (Bool-cases (less (length (q.workers r.ref)) target)) [
      | inl short ↦ rw (short) (Frame-refl r.ref q)
      | inr long ↦ rw (long) (Frame-refl r.ref q)
    ]
    Frames-grow (suc fuel) q = elim (Bool-cases (less (length (q.workers r.ref)) target)) [
      | inl short ↦ rw (short) (
          Frame-continue r.ref _ q (call (B.start_worker r.queue_name) q)
            (Frames-call r.ref (B.start_worker r.queue_name) q)
            (λ worker s.
              let workers = s.workers r.ref ++ worker ∷ [] in
              Frame-trans r.ref s (put_workers r workers s).1 _ (Frames-put_workers workers s)
                (Frames-grow fuel (put_workers r workers s).1)))
      | inr long ↦ rw (long) (Frame-refl r.ref q)
    ]

    Frames-shrink : (fuel : ℕ) → Frames {B = B} r.ref (shrink fuel r target)
    unfolding shrink
    Frames-shrink zero q = elim (Bool-cases (more (length (q.workers r.ref)) target)) [
      | inl long ↦ rw (long) (Frame-refl r.ref q)
      | inr short ↦ rw (short) (Frame-refl r.ref q)
    ]
    Frames-shrink (suc fuel) q = elim (Bool-cases (more (length (q.workers r.ref)) target)) [
      | inl long ↦ rw (long) (elim (Option-cases (pop {A = B.Worker} (q.workers r.ref))) [
        | inl nothing ↦ rw (nothing) (Frames-shrink fuel q)
        | inr ((kept, extra), popped) ↦ rw (popped) (
            Frame-trans r.ref q (put_workers r kept q).1 _ (Frames-put_workers kept q) (
              Frame-continue r.ref _ (put_workers r kept q).1
                (call (B.close_worker extra) (put_workers r kept q).1)
                (Frames-call r.ref (B.close_worker extra) (put_workers r kept q).1)
                (λ _ t.
                  Frame-trans r.ref t (record t { bull = B.disconnect extra t.bull }) _
                    (Frames-call r.ref (λ b. (ok tt, B.disconnect extra b)) t)
                    (Frames-shrink fuel (record t { bull = B.disconnect extra t.bull })))))
      ])
      | inr short ↦ rw (short) (Frame-refl r.ref q)
    ]

    pub scale_workers-Frame :
        (spare : ℕ) (q : QueueManager B) → Frame r.ref q (scale_workers spare r target q).1
    unfolding scale_workers
    scale_workers-Frame spare q =
        Frame-continue r.ref _ q (grow (rounds target + spare) r target q)
          (Frames-grow (rounds target + spare) q)
          (λ _ s. Frames-shrink (length (s.workers r.ref) + spare) s)
