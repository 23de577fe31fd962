-- ===== src/Payments/Idempotency/Refines.antt =====
-- idempotency.service.ts: the service behaves as its machine, with Redis answering.
use queue_system.Prelude.{
  arith, ℕ, ◌+◌, ◌*◌, ◌<◌, ◌≡◌, ◌∙◌, refl, ap, Bool, true, false, Option, none, some, List, [], ◌∷◌,
  if◌then◌else◌, String,
}
use queue_system.Prelude.Number.{Number}
use queue_system.Domain.Errors.{Raised}
use queue_system.Domain.Payment.{IdempotencyState, IdempotencyRecord}
use queue_system.Payments.Exec.{Result, ok, continue, pure, ◌>>=◌, ◌>>◌}
use queue_system.Payments.Redis.{
  Redis, IsRedis, Doc, json, parse, malformed, get-set_ex_self, get-del_self,
}
use queue_system.Payments.World.{GuardPort, Env, World, M, Within}
use queue_system.Payments.Saga.Outcome.{calm}
use queue_system.Payments.Idempotency.{
  ClaimResult, new, conflict, replayed, lost_claim, claim, release, acquire_execution_lock,
  try_lock, release_execution_lock, finalize,
}
use queue_system.Payments.Idempotency.Machine.{
  Operation, claiming, releasing, locking, unlocking, finishing, Answer, claimed, in_progress,
  already_final, lock_taken, lock_refused, done, Entry, respond, answers,
}

-- A text that does not parse blocks a claim as a record in state PROCESSING does.
abbrev pub phase : Option (Doc IdempotencyRecord) → Option IdempotencyState
phase none = none
phase (some (json r)) = some r.state
phase (some malformed) = some IdempotencyState.processing

abbrev pub held : Option (Unit {0}) → Bool
held none = false
held (some _) = true

abbrev pub answer_of : ClaimResult → Answer
answer_of new = claimed
answer_of (conflict r) = in_progress
answer_of (replayed r) = already_final

module _ {N : Number} {P : GuardPort N} {R : Redis} where
  -- An operation as the service does it.
  abbrev pub perform : Env → String → Operation → M N P R Answer
  perform env id claiming = do r ← claim env id; pure (answer_of r)
  perform env id releasing = do release env id; pure done
  perform env id locking = do
    acquired ← acquire_execution_lock env id
    pure (if acquired then lock_taken else lock_refused)
  perform env id unlocking = do release_execution_lock env id; pure done
  perform env id (finishing is_ok status transaction_id reason) = do
    finalize env id (if is_ok then IdempotencyState.completed else IdempotencyState.failed) status
        transaction_id reason
    pure done

  abbrev pub perform_all : Env → String → List Operation → M N P R (List Answer)
  perform_all env id [] = pure []
  perform_all env id (op ∷ rest) = do
    a ← perform env id op
    later ← perform_all env id rest
    pure (a ∷ later)

  -- Until `t`, Redis shows the machine's entry for the payment.
  abbrev pub Shows : ℕ → String → Entry → World N P R → Type 0
  Shows t id e w =
      ((u : ℕ) → u < t → phase (R.leases.get u id w.idempotency) ≡ e.state)
      × ((u : ℕ) → u < t → held (R.locks.get u id w.locks) ≡ e.locked)

  answers_first :
      {a : Answer} {later : List Answer} (next : M N P R (List Answer))
      (m : Result Raised Answer × World N P R)
      → m.0 ≡ ok a
      → (next m.1).0 ≡ ok later
      → (continue (λ a. next >>= λ later. pure (a ∷ later)) m).0 ≡ ok (a ∷ later)
  answers_first {a} next (r, w) first rest =
      ap (λ r. (continue (λ a. next >>= λ later. pure (a ∷ later)) (r, w)).0) first
      ∙ ap (λ r. (continue (λ later. pure (a ∷ later)) (r, (next w).1)).0) rest

held-none : (o : Option (Unit {0})) → held o ≡ false → o ≡ none
held-none none h = refl
held-none (some u) h = ground arith

held-some : (o : Option (Unit {0})) → held o ≡ true → o ≡ some tt
held-some none h = ground arith
held-some (some u) h = refl

phase-none : (o : Option (Doc IdempotencyRecord)) → phase o ≡ none → o ≡ none
phase-none none h = refl
phase-none (some (json r)) h = ground arith
phase-none (some malformed) h = ground arith

phase-some :
    (o : Option (Doc IdempotencyRecord)) (s : IdempotencyState)
    → phase o ≡ some s
    → (d : Doc IdempotencyRecord) × (o ≡ some d)
phase-some none s h = ground arith
phase-some (some d) s h = (d, refl)

phase-set_ex :
    {R : Redis} (L : IsRedis R) (t now seconds u : ℕ) (id : String) (r : IdempotencyRecord)
    (m : R.leases.State)
    → t < now + 1000 * seconds
    → u < t
    → phase (R.leases.get u id (R.leases.set_ex now id (json r) seconds m)) ≡ some r.state
phase-set_ex L t now seconds u id r m lasts h =
    ap phase (get-set_ex_self L.leases u now id (json r) seconds m (omega arith))

held-set_ex :
    {R : Redis} (L : IsRedis R) (t now seconds u : ℕ) (id : String) (m : R.locks.State)
    → t < now + 1000 * seconds
    → u < t
    → held (R.locks.get u id (R.locks.set_ex now id tt seconds m)) ≡ true
held-set_ex L t now seconds u id m lasts h =
    ap held (get-set_ex_self L.locks u now id tt seconds m (omega arith))

-- A claim that lost answers by the state of the record it then reads.
lost_claim-phase :
    (r : IdempotencyRecord) (o : Option (Doc IdempotencyRecord)) (s : IdempotencyState)
    (locked : Bool)
    → phase o ≡ some s
    → answer_of (lost_claim r (parse o))
      ≡ (respond claiming (record { state = some s; locked = locked })).0
unfolding lost_claim
lost_claim-phase r none s locked h = ground arith
lost_claim-phase r (some malformed) s locked h = ground arith
lost_claim-phase r (some (json existing)) s locked h = ground arith

module _ {N : Number} {P : GuardPort N} {R : Redis} (L : IsRedis R) (env : Env) (t : ℕ)
    (id : String) (before : (n : ℕ) → env.clock n < t)
    (leased : Within env.clock env.lease_ttl_seconds t)
    (retained : Within env.clock env.retention_seconds t) where
  claim_free :
      (w : World N P R) (locked : Bool)
      → Shows t id (record { state = none; locked = locked }) w
      → let (r, w') = perform (calm env) id claiming w in
        (r ≡ ok claimed)
        × Shows t id (record { state = some IdempotencyState.processing; locked = locked }) w'
  unfolding claim
  claim_free w locked (state, lock) =
      rw (L.leases.set_ex_nx-free _ _ _ _ _ (phase-none _ (state _ (before (w.calls + 1)))), claim)
        (refl, (λ u h. phase-set_ex L t _ _ u _ _ _ (leased _) h, lock))

  claim_taken :
      (w : World N P R) (s : IdempotencyState) (locked : Bool)
      → Shows t id (record { state = some s; locked = locked }) w
      → let (r, w') = perform (calm env) id claiming w in
        (r ≡ ok (respond claiming (record { state = some s; locked = locked })).0)
        × Shows t id (record { state = some s; locked = locked }) w'
  unfolding claim
  claim_taken w s locked (state, lock) =
      let (d, taken) = phase-some _ s (state _ (before (w.calls + 1))) in
      rw (L.leases.set_ex_nx-taken _ _ _ _ _ _ taken, claim)
        (ap ok (lost_claim-phase _ _ s locked (state _ (before _))), (state, lock))

  acquire_free :
      (w : World N P R) (state : Option IdempotencyState)
      → Shows t id (record { state = state; locked = false }) w
      → let (r, w') = perform (calm env) id locking w in
        (r ≡ ok lock_taken)
        × Shows t id (record { state = some IdempotencyState.processing; locked = true }) w'
  unfolding acquire_execution_lock
  acquire_free w s (state, lock) =
      rw
        (
          L.locks.set_ex_nx-free _ _ _ _ _ (held-none _ (lock _ (before w.calls))),
          acquire_execution_lock,
          try_lock,
        )
        (
          refl,
          (
            λ u h. phase-set_ex L t _ _ u _ _ _ (leased _) h,
            λ u h. held-set_ex L t _ _ u _ _ (leased _) h,
          ),
        )

  acquire_taken :
      (w : World N P R) (state : Option IdempotencyState)
      → Shows t id (record { state = state; locked = true }) w
      → let (r, w') = perform (calm env) id locking w in
        (r ≡ ok lock_refused) × Shows t id (record { state = state; locked = true }) w'
  unfolding acquire_execution_lock
  acquire_taken w s (state, lock) =
      rw
        (
          L.locks.set_ex_nx-taken _ _ _ _ _ _ (held-some _ (lock _ (before w.calls))),
          acquire_execution_lock,
          try_lock,
        )
        (refl, (state, lock))

  perform-respond_at :
      (op : Operation) (state : Option IdempotencyState) (locked : Bool) (w : World N P R)
      → let e : Entry = record { state = state; locked = locked } in
        Shows t id e w
        → let (r, w') = perform (calm env) id op w in
          (r ≡ ok (respond op e).0) × Shows t id (respond op e).1 w'
  unfolding release release_execution_lock finalize
  perform-respond_at claiming none locked w h = claim_free w locked h
  perform-respond_at claiming (some IdempotencyState.processing) locked w h =
      claim_taken w IdempotencyState.processing locked h
  perform-respond_at claiming (some IdempotencyState.completed) locked w h =
      claim_taken w IdempotencyState.completed locked h
  perform-respond_at claiming (some IdempotencyState.failed) locked w h =
      claim_taken w IdempotencyState.failed locked h
  perform-respond_at releasing s locked w (state, lock) =
      (refl, (λ u h. ap phase (get-del_self L.leases u id _), lock))
  perform-respond_at locking s true w h = acquire_taken w s h
  perform-respond_at locking s false w h = acquire_free w s h
  perform-respond_at unlocking s locked w (state, lock) =
      (refl, (state, λ u h. ap held (get-del_self L.locks u id _)))
  perform-respond_at (finishing is_ok status transaction_id reason) s locked w (state, lock) =
      (refl, (λ u h. phase-set_ex L t _ _ u _ _ _ (retained _) h, lock))

  -- With Redis answering, until the time `t`, which no reading of the clock reaches and which no
  -- time to live ends before, every sequence of operations on one payment is answered as the
  -- machine answers it.
  pub perform_all-answers :
      (ops : List Operation) (e : Entry) (w : World N P R)
      → Shows t id e w
      → (perform_all (calm env) id ops w).0 ≡ ok (answers ops e)
  perform_all-answers [] e w h = refl
  perform_all-answers (op ∷ rest) e w h =
      let (now_ok, shows) = perform-respond_at op e.state e.locked w h in
      answers_first (perform_all (calm env) id rest) _ now_ok (perform_all-answers rest _ _ shows)
