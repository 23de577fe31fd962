-- ===== src/Queue/Control/DeadLetters.antt =====
-- queue-manager.service.ts: the order of listDlq.
use mathlib.Core.List.Perm
use mathlib.Core.List.{Perm}
use queue_system.Prelude.{◌≡◌, ℕ, List, [], ◌∷◌, All, Bool-cases, inl, inr, leb, ◌≤◌, arith, refl}
use queue_system.Payments.Exec.{ok}
use queue_system.Queue.Manager.{dlq_queue_name, Bull, DlqJob, QueueManager, call}
use queue_system.Queue.Control.{insert_job, sort_jobs, list_dlq}

abbrev time_of : DlqJob → ℕ
time_of j = j.entry.dead_lettered_at

abbrev NotBefore : ℕ → List DlqJob → Type 0
NotBefore t jobs = All (λ j. t ≤ time_of j) jobs

-- Oldest first.
abbrev pub InOrder : List DlqJob → Type 0
InOrder [] = Unit
InOrder (j ∷ rest) = NotBefore (time_of j) rest × InOrder rest

NotBefore-trans : (s t : ℕ) (jobs : List DlqJob) → s ≤ t → NotBefore t jobs → NotBefore s jobs
NotBefore-trans s t [] le h = tt
NotBefore-trans s t (j ∷ rest) le h = (omega arith, NotBefore-trans s t rest le h.1)

NotBefore-insert_job :
    (t : ℕ) (j : DlqJob) (jobs : List DlqJob)
    → t ≤ time_of j
    → NotBefore t jobs
    → NotBefore t (insert_job j jobs)
unfolding insert_job
NotBefore-insert_job t j [] le h = (le, tt)
NotBefore-insert_job t j (k ∷ rest) le h = elim (Bool-cases (leb (time_of j) (time_of k))) [
  | inl first ↦ rw (first) (le, h)
  | inr later ↦ rw (later) (h.0, NotBefore-insert_job t j rest le h.1)
]

InOrder-insert_job : (j : DlqJob) (jobs : List DlqJob) → InOrder jobs → InOrder (insert_job j jobs)
unfolding insert_job
InOrder-insert_job j [] h = (tt, tt)
InOrder-insert_job j (k ∷ rest) h = elim (Bool-cases (leb (time_of j) (time_of k))) [
  | inl first ↦
      rw (first)
        ((ground arith, NotBefore-trans (time_of j) (time_of k) rest (ground arith) h.0), h)
  | inr later ↦
      rw (later)
        (NotBefore-insert_job (time_of k) j rest (ground arith) h.0, InOrder-insert_job j rest h.1)
]

insert_job-perm : (j : DlqJob) (jobs : List DlqJob) → Perm (insert_job j jobs) (j ∷ jobs)
unfolding insert_job
insert_job-perm j [] = Perm.refl (j ∷ [])
insert_job-perm j (k ∷ rest) = elim (Bool-cases (leb (time_of j) (time_of k))) [
  | inl first ↦ rw (first) (Perm.refl (j ∷ k ∷ rest))
  | inr later ↦ rw (later) (Perm.trans (Perm.cons k (insert_job-perm j rest)) (Perm.swap j k rest))
]

sort_jobs-InOrder : (jobs : List DlqJob) → InOrder (sort_jobs jobs)
unfolding sort_jobs
sort_jobs-InOrder [] = tt
sort_jobs-InOrder (j ∷ rest) = InOrder-insert_job j (sort_jobs rest) (sort_jobs-InOrder rest)

sort_jobs-perm : (jobs : List DlqJob) → Perm (sort_jobs jobs) jobs
unfolding sort_jobs
sort_jobs-perm [] = Perm.refl []
sort_jobs-perm (j ∷ rest) =
    Perm.trans (insert_job-perm j (sort_jobs rest)) (Perm.cons j (sort_jobs-perm rest))

module _ {B : Bull} (jobs : List DlqJob)
    (opens : (s : B.State) → (B.open_queue dlq_queue_name s).0 ≡ ok tt)
    (read : (s : B.State) → (B.dlq_jobs s).0 ≡ ok jobs) where
  -- With BullMQ answering, listing the dead letter queue returns the jobs that are in it, each as
  -- often as it is there, the oldest first, whether or not the queue was opened before.
  pub list_dlq-InOrder :
      (q : QueueManager B)
      → (listed : List DlqJob) × ((list_dlq q).0 ≡ ok listed) × InOrder listed × Perm listed jobs
  unfolding list_dlq
  list_dlq-InOrder q = (
    sort_jobs jobs,
    (elim (Bool-cases q.dlq_open) [
      | inl known ↦ rw (known) (rw (read q.bull, call) refl)
      | inr new ↦ rw (new) (rw (opens q.bull, call) (rw (read _) refl))
    ]),
    sort_jobs-InOrder jobs,
    sort_jobs-perm jobs,
  )
