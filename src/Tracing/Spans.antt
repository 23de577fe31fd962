-- ===== src/Tracing/Spans.antt =====
-- tracing.service.ts: what a span is told, and what becomes of the result.
use mathlib.Core.List.{append_assoc}
use queue_system.Prelude.{◌≡◌, refl, ap, String, Option, List, [], ◌∷◌, ◌++◌}
use queue_system.Payments.Exec.{
  Result, ok, raised, Exec, pure, raise, catching, continue, finishing, ◌>>◌,
}
use queue_system.Tracing.{
  SpanCall, start_span, record_exception, set_status, end_span, ok_status, error_status,
  clean_attributes, with_span, note,
}

-- What a span is told after `fn` has settled.
abbrev pub closing : {V X A : Type 0} → (X → String) → String → Result X A → List (SpanCall V)
closing message_of name (ok a) = set_status name ok_status ∷ end_span name ∷ []
closing message_of name (raised x) =
    record_exception name (message_of x) ∷ set_status name error_status ∷ end_span name ∷ []

module _ {V S X A : Type 0} (message_of : X → String) (name : String) where
  closed :
      (m : Result X A × (S × List (SpanCall V)))
      → finishing {S = S × List (SpanCall V)} (note (end_span name)) (
          catching {S = S × List (SpanCall V)}
            (λ err. do
              note (record_exception name (message_of err))
              note (set_status name error_status)
              raise err)
            (continue (λ a. do note (set_status name ok_status); pure a) m))
        ≡ (m.0, (m.1.0, m.1.1 ++ closing message_of name m.0))
  unfolding note
  closed (ok a, (s, log)) =
      ap (λ l. (ok a, (s, l)))
        (append_assoc log (set_status name ok_status ∷ []) (end_span name ∷ []))
  closed (raised x, (s, log)) = rw (append_assoc) (rw (append_assoc) refl)

  -- A span is started with the attributes that are defined, told whether `fn` returned or threw, and
  -- ended once, after `fn` and whatever spans that opened; the result of `fn` is passed on, be it a
  -- throw.
  pub with_span_lem :
      (attributes : List (String × Option V)) (fn : Exec (S × List (SpanCall V)) X A) (s : S)
      (log : List (SpanCall V))
      → let (r, (s', log')) = fn (s, log ++ start_span name (clean_attributes attributes) ∷ []) in
        with_span message_of name attributes fn (s, log)
        ≡ (r, (s', log' ++ closing message_of name r))
  unfolding with_span
  with_span_lem attributes fn s log =
      closed (fn (s, log ++ start_span name (clean_attributes attributes) ∷ []))
