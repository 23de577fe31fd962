-- ===== src/Common/Correlation.antt =====
-- The correlation ids: CorrelationService of src/common/event-bus.ts, src/common/correlation.middleware.ts
-- and src/common/trace-logger.ts. Node's AsyncLocalStorage is a parameter: code runs in a context, in
-- which it reads the store that the innermost `run` around it was given.
pub mod Linked
use Prim.Native.String.{slice, len}
use queue_system.Prelude.{
  ℕ, ◌<◌, ◌≡◌, Bool, true, false, String, Option, none, some, List, or_else, ltb, str_eq, not,
  if◌then◌else◌,
}
use queue_system.Prelude.Text.{◌<>◌, to_string_base}

-- `run` is the context inside of a call of `run` in the context that is given.
pub record AsyncLocalStorage : Type 1 where
  pub Context : Type 0
  pub run : String → Context → Context
  pub get_store : Context → Option String
  pub run_store : (store : String) (c : Context) → get_store (run store c) ≡ some store

-- `random` is `Math.random().toString(36)`, which starts with "0.".
unfoldable pub new_correlation_id : ℕ → String → String
new_correlation_id now random = "corr_" <> to_string_base 36 now <> "_" <> slice random 2 10

-- A header of a request: `string | string[] | undefined`.
pub data Header : Type 0 where
  missing : Header
  single : String → Header
  repeated : List String → Header

-- The id of the header, if there is one text and it is not empty.
abbrev pub incoming_id : Header → Option String
incoming_id (single id) = if ltb 0 (len id) then some id else none
incoming_id _ = none

module _ (S : AsyncLocalStorage) where
  -- `fresh` is what newCorrelationId would answer. The code that is run is a function of its context.
  unfoldable pub enter : {A : Type 0} → Option String → String → (S.Context → A) → S.Context → A
  enter id fresh fn c = fn (S.run (or_else id fresh) c)

  unfoldable pub current : S.Context → Option String
  current c = S.get_store c

  -- The header of the response, and what the rest of the request's handling returns.
  unfoldable pub use_middleware :
      {A : Type 0} → Header → String → (S.Context → A) → S.Context → String × A
  unfolding enter
  use_middleware header fresh next c =
      let id = or_else (incoming_id header) fresh in (id, enter (some id) fresh next c)

  -- TraceLogger.format: an empty id counts as none.
  unfoldable pub format : String → S.Context → String
  unfolding current
  format message c = elim (current c) [
    | none ↦ message
    | some id ↦ if str_eq id "" then message else "[corr:" <> id <> "] " <> message
  ]

  -- What a worker runs a job in: the correlation id of the job, or else the id of its payment.
  unfoldable pub job_context :
      {A : Type 0} → Option String → String → String → (S.Context → A) → S.Context → A
  unfolding enter
  job_context correlation_id payment_id fresh processor c =
      enter (some (or_else correlation_id payment_id)) fresh processor c
