-- ===== src/Common/Correlation/Linked.antt =====
-- What carries the same correlation id.
use queue_system.Prelude.{◌≡◌, refl, false, String, some, or_else, str_eq}
use queue_system.Prelude.Text.{◌<>◌}
use queue_system.Common.Correlation.{
  AsyncLocalStorage, Header, incoming_id, enter, current, use_middleware, format, job_context,
}

module _ (S : AsyncLocalStorage) where
  -- A request is handled under the id that its response names, which is the one of its header, if that
  -- is one text and not empty, and else the new one; its log lines begin with that id, unless it is
  -- empty; and a job that carries it, of whatever payment, is processed under the same id.
  pub use_middleware-linked :
      (header : Header) (fresh fresh' payment_id message : String) (c c' : S.Context)
      → let (named, seen) = use_middleware S header fresh (current S) c in
        let (named', line) = use_middleware S header fresh (format S message) c in
        (named ≡ or_else (incoming_id header) fresh)
        × (seen ≡ some named)
        × (str_eq named "" ≡ false → line ≡ "[corr:" <> named <> "] " <> message)
        × (job_context S seen payment_id fresh' (current S) c' ≡ some named)
  unfolding use_middleware enter current format job_context
  use_middleware-linked header fresh fresh' payment_id message c c' =
      let id = or_else (incoming_id header) fresh in
      (
        refl,
        S.run_store id c,
        λ filled. rw (S.run_store id c, format) (rw (filled) refl),
        rw (S.run_store id c) (S.run_store id c'),
      )
