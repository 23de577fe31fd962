-- ===== src/Payments/Stores.antt =====
-- src/payments/payment-store.service.ts, audit-log.service.ts and settlement-ledger.service.ts, and
-- the emission of events (src/common/event-bus.ts), whose listeners cannot make the emitter fail.
use queue_system.Prelude.{String, Option, none, some, List, [], ◌∷◌, ◌++◌}
use queue_system.Prelude.Number.{Number}
use queue_system.Domain.Errors.{other}
use queue_system.Domain.Payment.{Payment, PaymentRecord, AuditEvent, AuditType}
use queue_system.Common.Events.{AppEvent}
use queue_system.Payments.Exec.{◌>>=◌, ok, raise}
use queue_system.Payments.Redis.{Redis, SettlementEntry, json, parse}
use queue_system.Payments.World.{GuardPort, Env, M, now, external}

abbrev pub settlements_key : String
settlements_key = "ledger:settlements"

module _ {N : Number} {P : GuardPort N} {R : Redis} (env : Env) where
  -- `hset payment:<id> doc <json>`
  unfoldable pub save : PaymentRecord → M N P R (Unit {0})
  unfolding external
  save r =
      external env
        λ t w. (tt, record w { payments = R.payments.hset r.payment.id (json r) w.payments })

  unfoldable pub get_payment : String → M N P R (Option PaymentRecord)
  unfolding external
  get_payment id = external env λ t w. (parse (R.payments.hget id w.payments), w)

  unfoldable pub audit : String → AuditType → List (String × String) → M N P R (Unit {0})
  unfolding now external
  audit id type detail = do
    at ← now env
    external env λ t w. (
      tt,
      record w {
        audit =
            R.audit.rpush id (record { payment_id = id; type = type; at = at; detail = detail })
              w.audit;
      },
    )

  unfoldable pub list_audit : String → M N P R (List AuditEvent)
  unfolding external
  list_audit id = external env λ t w. (R.audit.lrange id w.audit, w)

  -- `rpush ledger:settlements <json>`
  push_settlement : Payment → String → M N P R SettlementEntry
  unfolding now external
  push_settlement p transaction_id = do
    at ← now env
    external env λ t w.
        let entry : SettlementEntry = record {
          payment_id = p.id;
          transaction_id = transaction_id;
          amount = p.amount;
          currency = p.currency;
          customer_id = p.customer_id;
          gateway_id = p.gateway_id;
          settled_at = at;
        } in
        (entry, record w { settlements = R.settlements.rpush settlements_key entry w.settlements })

  -- Tests replace the ledger by one that rejects.
  unfoldable pub settle : Payment → String → M N P R SettlementEntry
  unfolding push_settlement
  settle p transaction_id = elim (env.ledger_fault p) [
    | none ↦ push_settlement p transaction_id
    | some message ↦ raise (other message)
  ]

  unfoldable pub list_settlements : M N P R (List SettlementEntry)
  unfolding external
  list_settlements = external env λ t w. (R.settlements.lrange settlements_key w.settlements, w)

  -- `events.emit(event)`
  unfoldable pub emit : AppEvent N → M N P R (Unit {0})
  emit e w = (ok tt, record w { events = w.events ++ e ∷ [] })
