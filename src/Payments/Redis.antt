-- ===== src/Payments/Redis.antt =====
-- Redis and its client, which the payments module calls: an interface of commands over unknown states,
-- and what Redis documents of them. Keys of one kind are a part of their own. A value stands for its
-- JSON text; `malformed` is a text that `JSON.parse` refuses.
pub mod Memory
use queue_system.Prelude.{
  ℕ, ◌+◌, ◌*◌, ◌<◌, ◌≡◌, lt→ltb, refl, Bool, true, false, String, Option, none, some, List, [], ◌∷◌,
  ◌++◌, ltb, str_eq, if◌then◌else◌, eq_refl,
}
use queue_system.Domain.Payment.{PaymentRecord, IdempotencyRecord, AuditEvent}

pub data Doc {ℓ} (V : Type ℓ) : Type ℓ where
  json : V → Doc V
  malformed : Doc V

-- `try { JSON.parse(raw) } catch { null }` of a text that may be absent.
abbrev pub parse {ℓ} : {V : Type ℓ} → Option (Doc V) → Option V
parse none = none
parse (some (json v)) = some v
parse (some malformed) = none

-- String keys with a time to live. The first argument of a command is the time of the server.
pub record KeyValue (V : Type 0) : Type 1 where
  pub State : Type 0
  pub get : ℕ → String → State → Option V
  -- `SET key value EX seconds`, and the same with `NX`, which says whether the key was set.
  pub set_ex : ℕ → String → V → ℕ → State → State
  pub set_ex_nx : ℕ → String → V → ℕ → State → Bool × State
  pub del : String → State → State

-- One field of a hash for each key: `HGET`, `HSET`.
pub record HashField (V : Type 0) : Type 1 where
  pub State : Type 0
  pub hget : String → State → Option V
  pub hset : String → V → State → State

-- Lists: `RPUSH`, and `LRANGE key 0 -1`.
pub record ListKey (V : Type 0) : Type 1 where
  pub State : Type 0
  pub rpush : String → V → State → State
  pub lrange : String → State → List V

pub record IsKeyValue {V : Type 0} (K : KeyValue V) : Type 0 where
  pub get-set_ex :
      (t now : ℕ) (k key : String) (v : V) (seconds : ℕ) (m : K.State)
      → K.get t k (K.set_ex now key v seconds m) ≡ (
          if str_eq key k
          then (if ltb t (now + 1000 * seconds) then some v else none)
          else K.get t k m)
  pub set_ex_nx-free :
      (now : ℕ) (key : String) (v : V) (seconds : ℕ) (m : K.State)
      → K.get now key m ≡ none
      → K.set_ex_nx now key v seconds m ≡ (true, K.set_ex now key v seconds m)
  pub set_ex_nx-taken :
      (now : ℕ) (key : String) (v u : V) (seconds : ℕ) (m : K.State)
      → K.get now key m ≡ some u
      → K.set_ex_nx now key v seconds m ≡ (false, m)
  pub get-del :
      (t : ℕ) (k key : String) (m : K.State)
      → K.get t k (K.del key m) ≡ (if str_eq key k then none else K.get t k m)

pub record IsHashField {V : Type 0} (H : HashField V) : Type 0 where
  pub hget-hset :
      (k key : String) (v : V) (m : H.State)
      → H.hget k (H.hset key v m) ≡ (if str_eq key k then some v else H.hget k m)

pub record IsListKey {V : Type 0} (L : ListKey V) : Type 0 where
  pub lrange-rpush :
      (k key : String) (v : V) (m : L.State)
      → L.lrange k (L.rpush key v m)
        ≡ (if str_eq key k then L.lrange k m ++ v ∷ [] else L.lrange k m)

pub record SettlementEntry : Type 0 where
  pub payment_id : String
  pub transaction_id : String
  pub amount : ℕ
  pub currency : String
  pub customer_id : String
  pub gateway_id : String
  pub settled_at : ℕ

-- The keys `idempotency:payment:<id>`, `lock:payment:process:<id>`, `payment:<id>`,
-- `audit:payment:<id>` by the payment's id, and `ledger:settlements`.
pub record Redis : Type 1 where
  pub leases : KeyValue (Doc IdempotencyRecord)
  pub locks : KeyValue (Unit {0})
  pub payments : HashField (Doc PaymentRecord)
  pub audit : ListKey AuditEvent
  pub settlements : ListKey SettlementEntry

-- What the payments module relies on.
pub record IsRedis (R : Redis) : Type 0 where
  pub leases : IsKeyValue R.leases
  pub locks : IsKeyValue R.locks
  pub payments : IsHashField R.payments
  pub settlements : IsListKey R.settlements

module _ {V : Type 0} {K : KeyValue V} (L : IsKeyValue K) where
  pub get-set_ex_self :
      (t now : ℕ) (key : String) (v : V) (seconds : ℕ) (m : K.State)
      → t < now + 1000 * seconds
      → K.get t key (K.set_ex now key v seconds m) ≡ some v
  get-set_ex_self t now key v seconds m h =
      rw (L.get-set_ex, eq_refl key, lt→ltb t (now + 1000 * seconds) h) refl

  pub get-del_self : (t : ℕ) (key : String) (m : K.State) → K.get t key (K.del key m) ≡ none
  get-del_self t key m = rw (L.get-del, eq_refl key) refl

pub hget-hset_self :
    {V : Type 0} {H : HashField V} (L : IsHashField H) (key : String) (v : V) (m : H.State)
    → H.hget key (H.hset key v m) ≡ some v
hget-hset_self L key v m = rw (L.hget-hset, eq_refl key) refl

pub lrange-rpush_self :
    {V : Type 0} {K : ListKey V} (L : IsListKey K) (key : String) (v : V) (m : K.State)
    → K.lrange key (K.rpush key v m) ≡ K.lrange key m ++ v ∷ []
lrange-rpush_self L key v m = rw (L.lrange-rpush, eq_refl key) refl
