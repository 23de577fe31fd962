-- ===== src/Payments/Redis/Memory.antt =====
-- A Redis that keeps its keys in functions and meets what is relied on.
use queue_system.Prelude.{
  ℕ, ◌+◌, ◌*◌, ◌≡◌, refl, Bool, true, false, String, Option, none, some, List, [], ◌∷◌, ◌++◌, ltb,
  str_eq, if◌then◌else◌, Bool-cases, inl, inr,
}
use queue_system.Prelude.Maps.{Map, set, delete}
use queue_system.Payments.Redis.{KeyValue, HashField, ListKey, IsKeyValue, Redis, IsRedis}

pub record Entry (V : Type 0) : Type 0 where
  pub value : V
  pub expires_at : ℕ

module _ {V : Type 0} where
  abbrev unexpired : ℕ → Option (Entry V) → Option V
  unexpired now none = none
  unexpired now (some e) = if ltb now e.expires_at then some e.value else none

  abbrev set_if : Bool × Map (Entry V) → Option V → Map (Entry V) → Bool × Map (Entry V)
  set_if done none m = done
  set_if done (some u) m = (false, m)

abbrev put : {V : Type 0} → ℕ → String → V → ℕ → Map (Entry V) → Map (Entry V)
put now key v seconds m = set key (record { value = v; expires_at = now + 1000 * seconds }) m

abbrev pub key_value : (V : Type 0) → KeyValue V
key_value V = record {
  State = Map (Entry V);
  get = λ now key m. unexpired now (m key);
  set_ex = put;
  set_ex_nx =
      λ now key v seconds m. set_if (true, put now key v seconds m) (unexpired now (m key)) m;
  del = delete;
}

abbrev pub hash_field : (V : Type 0) → HashField V
hash_field V = record { State = Map V; hget = λ key m. m key; hset = set }

abbrev pub list_key : (V : Type 0) → ListKey V
list_key V = record {
  State = String → List V;
  rpush = λ key v m k. if str_eq key k then m k ++ v ∷ [] else m k;
  lrange = λ key m. m key;
}

abbrev pub memory_redis : Redis
memory_redis = record {
  leases = key_value _;
  locks = key_value _;
  payments = hash_field _;
  audit = list_key _;
  settlements = list_key _;
}

get-put :
    {V : Type 0} (t now : ℕ) (k key : String) (v : V) (seconds : ℕ) (m : Map (Entry V))
    → unexpired t (put now key v seconds m k) ≡ (
        if str_eq key k
        then (if ltb t (now + 1000 * seconds) then some v else none)
        else unexpired t (m k))
get-put t now k key v seconds m = elim (Bool-cases (str_eq key k)) [
  | inl e ↦ rw e refl
  | inr e ↦ rw e refl
]

get-delete :
    {V : Type 0} (t : ℕ) (k key : String) (m : Map (Entry V))
    → unexpired t (delete key m k) ≡ (if str_eq key k then none else unexpired t (m k))
get-delete t k key m = elim (Bool-cases (str_eq key k)) [ inl e ↦ rw e refl | inr e ↦ rw e refl ]

key_value-IsKeyValue : (V : Type 0) → IsKeyValue (key_value V)
key_value-IsKeyValue V = record {
  get-set_ex = get-put;
  set_ex_nx-free = λ now key v seconds m h. rw h refl;
  set_ex_nx-taken = λ now key v u seconds m h. rw h refl;
  get-del = get-delete;
}

pub memory_redis-IsRedis : IsRedis memory_redis
memory_redis-IsRedis = record {
  leases = key_value-IsKeyValue _;
  locks = key_value-IsKeyValue _;
  payments = record { hget-hset = λ k key v m. refl };
  settlements = record { lrange-rpush = λ k key v m. refl };
}
