-- ===== src/Tracing.antt =====
-- src/tracing/tracing.service.ts: withSpan. What it calls on the span is written to a log, which stands
-- for OpenTelemetry, beside the state of the rest of the program.
pub mod Runtime
pub mod Spans
use queue_system.Prelude.{String, Option, none, some, List, [], ◌∷◌, ◌++◌}
use queue_system.Payments.Exec.{
  Result, ok, raised, Exec, pure, raise, try_catch, try_finally, ◌>>=◌, ◌>>◌,
}

pub data StatusCode : Type 0 where
  ok_status error_status : StatusCode

module _ (V : Type 0) where
  abbrev pub Attributes : Type 0
  Attributes = List (String × V)

  -- The calls that a span takes, each with the name of the span.
  pub data SpanCall : Type 0 where
    start_span : String → Attributes → SpanCall
    record_exception : String → String → SpanCall
    set_status : String → StatusCode → SpanCall
    end_span : String → SpanCall

-- The attributes whose value is not `undefined`.
unfoldable pub clean_attributes : {V : Type 0} → List (String × Option V) → List (String × V)
clean_attributes [] = []
clean_attributes ((key, none) ∷ rest) = clean_attributes rest
clean_attributes ((key, some v) ∷ rest) = (key, v) ∷ clean_attributes rest

module _ {V S X : Type 0} where
  note : SpanCall V → Exec (S × List (SpanCall V)) X (Unit {0})
  note call (s, log) = (ok tt, (s, log ++ call ∷ []))

  -- `fn` may open spans of its own; `message_of` is the text of an error.
  unfoldable pub with_span :
      {A : Type 0}
      → (X → String)
      → String
      → List (String × Option V)
      → Exec (S × List (SpanCall V)) X A
      → Exec (S × List (SpanCall V)) X A
  unfolding note clean_attributes
  with_span message_of name attributes fn = do
    note (start_span name (clean_attributes attributes))
    try_finally
        (try_catch (do result ← fn; note (set_status name ok_status); pure result)
          (λ err. do
            note (record_exception name (message_of err))
            note (set_status name error_status)
            raise err))
        (note (end_span name))
