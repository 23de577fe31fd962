-- ===== src/Queue/Closing/Settles.antt =====
-- queue-manager.service.ts: when closeWorkerGracefully resolves, and when it asks for a forced close.
use queue_system.Prelude.{◌≡◌, ◌↔◌, ◌⊎◌, refl, inl, inr, arith, true, false, List, [], ◌∷◌}
use queue_system.Queue.Closing.{Timer, Close, Closing, Event, close_worker_gracefully, step, run}

-- Has the event occurred?
abbrev pub Occurs : Event → List Event → Type 0
Occurs e [] = ⊥
Occurs e (f ∷ rest) = (f ≡ e) ⊎ Occurs e rest

-- The timer's time comes, and after that a forced close settles.
abbrev pub ForcedAfterTime : List Event → Type 0
ForcedAfterTime [] = ⊥
ForcedAfterTime (Event.time_comes ∷ rest) = Occurs Event.forced_settles rest
ForcedAfterTime (_ ∷ rest) = ForcedAfterTime rest

step-resolved : (e : Event) (c : Closing) → c.resolved ≡ true → (step e c).resolved ≡ true
unfolding step
step-resolved Event.graceful_settles c h = ground arith
step-resolved Event.time_comes c h = ground arith
step-resolved Event.forced_settles c h = ground arith

run-resolved :
    (events : List Event) (c : Closing) → c.resolved ≡ true → (run events c).resolved ≡ true
run-resolved [] c h = h
run-resolved (e ∷ rest) c h = run-resolved rest (step e c) (step-resolved e c h)

-- After the timer has fired, and before a close has settled.
abbrev waiting : Closing
waiting = record {
  timer = Timer.fired;
  graceful = Close.pending;
  forced = Close.pending;
  resolved = false;
}

resolves_of :
    (events : List Event) (c : Closing) {P : Type 0}
    → c.resolved ≡ true
    → P
    → ((run events c).resolved ≡ true) ↔ P
resolves_of events c done p = (λ _. p, λ _. run-resolved events c done)

waiting-resolved :
    (events : List Event)
    → ((run events waiting).resolved ≡ true)
      ↔ (Occurs Event.graceful_settles events ⊎ Occurs Event.forced_settles events)
unfolding step
waiting-resolved [] = (λ h. cc, λ h. elim h [ inl x ↦ absurd x | inr x ↦ absurd x ])
waiting-resolved (Event.graceful_settles ∷ rest) = resolves_of rest _ refl (inl (inl refl))
waiting-resolved (Event.time_comes ∷ rest) =
    (λ h. ground (arith, (waiting-resolved rest).0), λ h. ground (arith, (waiting-resolved rest).1))
waiting-resolved (Event.forced_settles ∷ rest) = resolves_of rest _ refl (inr (inl refl))

-- Whatever the order of the events, the promise resolves exactly if the graceful close settles, or
-- the forced close settles after the timer's time has come: a forced close that never settles leaves
-- it open.
pub close_worker_gracefully-resolves :
    (events : List Event)
    → ((run events close_worker_gracefully).resolved ≡ true)
      ↔ (Occurs Event.graceful_settles events ⊎ ForcedAfterTime events)
unfolding close_worker_gracefully step
close_worker_gracefully-resolves [] = (λ h. cc, λ h. elim h [ inl x ↦ absurd x | inr x ↦ absurd x ])
close_worker_gracefully-resolves (Event.graceful_settles ∷ rest) =
    resolves_of rest _ refl (inl (inl refl))
close_worker_gracefully-resolves (Event.time_comes ∷ rest) =
    (λ h. ground (arith, (waiting-resolved rest).0), λ h. ground (arith, (waiting-resolved rest).1))
close_worker_gracefully-resolves (Event.forced_settles ∷ rest) = (
  λ h. ground (arith, (close_worker_gracefully-resolves rest).0),
  λ h. ground (arith, (close_worker_gracefully-resolves rest).1),
)
