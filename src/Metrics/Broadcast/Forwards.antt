-- ===== src/Metrics/Broadcast/Forwards.antt =====
-- metrics.gateway.ts with event-bus.ts: what the sockets are sent while the gateway is up, and after.
use mathlib.Core.List.{append-nil, append_assoc}
use queue_system.Prelude.{
  arith, ℕ, ◌+◌, ◌<◌, ◌≤◌, ◌≡◌, ◌∙◌, refl, ap, sym, Bool, true, false, String, List, [], ◌∷◌, ◌++◌,
  All, lt→ltb, or_else, Option-cases, inl, inr,
}
use queue_system.Prelude.Number.{Number}
use queue_system.Common.Events.{
  AppEvent, PaymentEvent, PaymentEventType, payment_event, job_completed, job_failed,
  circuit_opened, circuit_closed, rate_limit_throttled, saga_phase, metrics_alert,
}
use queue_system.Common.Bus.{EventBus, Listeners, has, add, on, emit, deliver_all}
use queue_system.Metrics.Broadcast.{
  type_of, payment_type, Message, payment_message, payment_flow, alert_raised, Wired,
  on_module_init, listen, emit_all,
}

abbrev pub Earlier : ℕ → Listeners → Type 0
Earlier first ls = All (λ l. l < first) ls

-- Every listener on the bus is older than those of the gateway.
abbrev pub OlderBus : ℕ → EventBus → Type 0
OlderBus first bus = (type : String) → Earlier first (or_else (bus type) [])

pub has-Earlier : (first l : ℕ) (ls : Listeners) → first ≤ l → Earlier first ls → has l ls ≡ false
has-Earlier first l [] le old = refl
has-Earlier first l (k ∷ ks) le old = ground (arith, has-Earlier first l ks le old.1)

add-Earlier :
    (first l : ℕ) (ls : Listeners) → first ≤ l → Earlier first ls → add l ls ≡ ls ++ l ∷ []
unfolding add
add-Earlier first l ls le old = rw (has-Earlier first l ls le old) refl

-- The gateway's own listeners of a type.
abbrev pub own_of : ℕ → PaymentEventType → ℕ
own_of first PaymentEventType.queued = first
own_of first PaymentEventType.processing = first + 1
own_of first PaymentEventType.completed = first + 2
own_of first PaymentEventType.failed = first + 3
own_of first PaymentEventType.dead_lettered = first + 4

abbrev pub own : {N : Number} → ℕ → AppEvent N → Listeners
own first (payment_event e) = own_of first e.type ∷ []
own first (saga_phase id gateway_id phase outcome at) = (first + 5) ∷ []
own first (metrics_alert alert at) = (first + 6) ∷ []
own first _ = []

-- The listeners of a type are older ones, and then the gateway's own.
abbrev pub Up : (N : Number) → ℕ → EventBus → Type 0
Up N first bus =
    (e : AppEvent N)
    → (old : Listeners) × Earlier first old × (or_else (bus (type_of e)) [] ≡ old ++ own first e)

module _ {N : Number} where
  -- What an event becomes on the sockets.
  abbrev pub forwarded : AppEvent N → List (Message N)
  forwarded (payment_event e) =
      payment_message (record {
        type = e.type;
        payment_id = e.payment_id;
        gateway_id = e.gateway_id;
        status = e.status;
        at = e.at;
        detail = e.detail;
      })
      ∷ []
  forwarded (saga_phase id gateway_id phase outcome at) =
      payment_flow id gateway_id phase outcome at ∷ []
  forwarded (metrics_alert alert at) = alert_raised alert ∷ []
  forwarded _ = []

  abbrev pub all_forwarded : List (AppEvent N) → List (Message N)
  all_forwarded [] = []
  all_forwarded (e ∷ rest) = forwarded e ++ all_forwarded rest

  module _ (first : ℕ) (throws : ℕ → Bool) where
    pub deliver-Earlier :
        (e : AppEvent N) (ls : Listeners) (w : Wired N)
        → Earlier first ls
        → deliver_all type_of (listen first throws) e ls w ≡ w
    unfolding deliver_all listen
    deliver-Earlier e [] w old = refl
    deliver-Earlier e (l ∷ ls) w old = rw (lt→ltb l first old.0) (deliver-Earlier e ls w old.1)

    deliver-append :
        (e : AppEvent N) (ls ks : Listeners) (w : Wired N)
        → deliver_all type_of (listen first throws) e (ls ++ ks) w
          ≡ deliver_all type_of
              (listen first throws)
              e
              ks
              (deliver_all type_of (listen first throws) e ls w)
    unfolding deliver_all
    deliver-append e [] ks w = refl
    deliver-append e (l ∷ ls) ks w = deliver-append e ls ks (listen first throws l e w).1

    init-own :
        (w : Wired N) (t : PaymentEventType)
        → OlderBus first w.bus
        → or_else ((on_module_init first w).bus (payment_type t)) []
          ≡ or_else (w.bus (payment_type t)) [] ++ own_of first t ∷ []
    unfolding on_module_init on
    init-own w PaymentEventType.queued old =
        add-Earlier first first _ (omega arith) (old "payment.queued")
    init-own w PaymentEventType.processing old =
        add-Earlier first (first + 1) _ (omega arith) (old "payment.processing")
    init-own w PaymentEventType.completed old =
        add-Earlier first (first + 2) _ (omega arith) (old "payment.completed")
    init-own w PaymentEventType.failed old =
        add-Earlier first (first + 3) _ (omega arith) (old "payment.failed")
    init-own w PaymentEventType.dead_lettered old =
        add-Earlier first (first + 4) _ (omega arith) (old "payment.dead_lettered")

    pub init-Up : (w : Wired N) → OlderBus first w.bus → Up N first (on_module_init first w).bus
    unfolding on_module_init on
    init-Up w old (payment_event e) =
        (or_else (w.bus (payment_type e.type)) [], old (payment_type e.type), init-own w e.type old)
    init-Up w old (saga_phase id gateway_id phase outcome at) = (
      or_else (w.bus "saga.phase") [],
      old "saga.phase",
      add-Earlier first (first + 5) _ (omega arith) (old "saga.phase"),
    )
    init-Up w old (metrics_alert alert at) = (
      or_else (w.bus "metrics.alert") [],
      old "metrics.alert",
      add-Earlier first (first + 6) _ (omega arith) (old "metrics.alert"),
    )
    init-Up w old (job_completed id gateway_id fine ms at) =
        (_, old "job.completed", sym (append-nil _))
    init-Up w old (job_failed id gateway_id reason at) = (_, old "job.failed", sym (append-nil _))
    init-Up w old (circuit_opened gateway_id at) = (_, old "circuit.opened", sym (append-nil _))
    init-Up w old (circuit_closed gateway_id at) = (_, old "circuit.closed", sym (append-nil _))
    init-Up w old (rate_limit_throttled gateway_id at) =
        (_, old "rate_limit.throttled", sym (append-nil _))

    -- The message of an event is sent, and nothing else happens.
    abbrev sending : AppEvent N → Wired N → Wired N
    sending e w = record w { gateway = record w.gateway { sent = w.gateway.sent ++ forwarded e } }

    listen-payment :
        (e : PaymentEvent) (t : PaymentEventType) (w : Wired N)
        → w.gateway.server ≡ true
        → (listen first throws (own_of first t) (payment_event e) w).1 ≡ sending (payment_event e) w
    unfolding listen
    listen-payment e PaymentEventType.queued w up = ground arith
    listen-payment e t w up = ground arith

    deliver-own :
        (e : AppEvent N) (w : Wired N)
        → w.gateway.server ≡ true
        → deliver_all type_of (listen first throws) e (own first e) w ≡ sending e w
    unfolding deliver_all listen
    deliver-own (payment_event e) w up = listen-payment e e.type w up
    deliver-own (saga_phase id gateway_id phase outcome at) w up = ground arith
    deliver-own (metrics_alert alert at) w up = ground arith
    deliver-own e w up = rw (append-nil w.gateway.sent) refl

    pub emit-deliver :
        (e : AppEvent N) (w : Wired N)
        → emit type_of (listen first throws) (λ v. v.bus) e w
          ≡ deliver_all type_of (listen first throws) e (or_else (w.bus (type_of e)) []) w
    unfolding emit deliver_all
    emit-deliver e w = elim (Option-cases (w.bus (type_of e))) [
      | inl no_one ↦ rw (no_one, emit) refl
      | inr (ls, there) ↦ rw (there, emit) refl
    ]

    emit-sending :
        (e : AppEvent N) (w : Wired N)
        → Up N first w.bus
        → w.gateway.server ≡ true
        → emit type_of (listen first throws) (λ v. v.bus) e w ≡ sending e w
    emit-sending e w subscribed up =
        let (old, earlier, listed) = subscribed e in
        emit-deliver e w
        ∙ ap (λ ls. deliver_all type_of (listen first throws) e ls w) listed
        ∙ deliver-append e old (own first e) w
        ∙ ap (deliver_all type_of (listen first throws) e (own first e))
            (deliver-Earlier e old w earlier)
        ∙ deliver-own e w up

    abbrev pub sending_all : List (AppEvent N) → Wired N → Wired N
    sending_all es w = record w {
      gateway = record w.gateway { sent = w.gateway.sent ++ all_forwarded es };
    }

    pub emit_all-sending :
        (es : List (AppEvent N)) (w : Wired N)
        → Up N first w.bus
        → w.gateway.server ≡ true
        → emit_all first throws es w ≡ sending_all es w
    unfolding emit_all
    emit_all-sending [] w subscribed up = rw (append-nil w.gateway.sent) refl
    emit_all-sending (e ∷ rest) w subscribed up = rw (emit-sending e w subscribed up) (
        emit_all-sending rest (sending e w) subscribed up
        ∙ ap (λ sent. record w { gateway = record w.gateway { sent = sent } })
            (append_assoc w.gateway.sent (forwarded e) (all_forwarded rest)))

    -- Once the gateway is up, with a socket server, the sockets are sent the message of each payment
    -- event, saga phase and alert that is emitted, in the order of the events, and of no other event,
    -- whichever other listeners throw.
    pub emit_all-forwarded :
        (es : List (AppEvent N)) (w : Wired N)
        → OlderBus first w.bus
        → w.gateway.server ≡ true
        → (emit_all first throws es (on_module_init first w)).gateway.sent
          ≡ w.gateway.sent ++ all_forwarded es
    unfolding on_module_init
    emit_all-forwarded es w old up =
        ap (λ v. v.gateway.sent) (emit_all-sending es (on_module_init first w) (init-Up w old) up)
