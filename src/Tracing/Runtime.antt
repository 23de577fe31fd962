-- ===== src/Tracing/Runtime.antt =====
-- tracing.service.ts: ensureRuntime, which registers OpenTelemetry once in a process, and listSpans.
-- What the SDK is told is a list; the finished spans are an argument.
use queue_system.Prelude.{
  ℕ, ◌≡◌, refl, String, Option, none, some, List, [], ◌∷◌, ◌++◌, map, str_eq, if◌then◌else◌,
}
use queue_system.Prelude.Text.{to_string}

pub data SpanExporter : Type 0 where
  otlp_trace_exporter : String → SpanExporter
  in_memory_span_exporter : SpanExporter

pub data SdkCall : Type 0 where
  set_global_context_manager : SdkCall
  set_global_tracer_provider : SpanExporter → SdkCall

-- The tracer goes by the name of the service; `exporter` is the in-memory one, if that is used.
pub record OtelRuntime : Type 0 where
  pub tracer : String
  pub exporter : Option SpanExporter

-- The module's `runtime`, and what the SDK was told.
pub record Process : Type 0 where
  pub runtime : Option OtelRuntime
  pub sdk : List SdkCall

-- `if (otlpEndpoint)`: an empty text counts as none.
unfoldable pub exporter_for : Option String → SpanExporter × Option SpanExporter
exporter_for none = (in_memory_span_exporter, some in_memory_span_exporter)
exporter_for (some url) =
    if str_eq url ""
    then (in_memory_span_exporter, some in_memory_span_exporter)
    else (otlp_trace_exporter url, none)

unfoldable pub register_runtime : String → Option String → Process → OtelRuntime × Process
unfolding exporter_for
register_runtime service_name otlp_endpoint process =
    let (exporter, in_memory) = exporter_for otlp_endpoint in
    let runtime : OtelRuntime = record { tracer = service_name; exporter = in_memory } in
    (
      runtime,
      record {
        runtime = some runtime;
        sdk = process.sdk ++ set_global_context_manager ∷ set_global_tracer_provider exporter ∷ [];
      },
    )

unfoldable pub ensure_runtime : String → Option String → Process → OtelRuntime × Process
unfolding register_runtime
ensure_runtime service_name otlp_endpoint process = elim process.runtime [
  | some runtime ↦ (runtime, process)
  | none ↦ register_runtime service_name otlp_endpoint process
]

-- A finished span: its name, its attributes and `status.code`.
pub record FinishedSpan (V : Type 0) : Type 0 where
  pub name : String
  pub attributes : List (String × V)
  pub status_code : ℕ

pub record SpanView (V : Type 0) : Type 0 where
  pub name : String
  pub attributes : List (String × V)
  pub status : String

unfoldable pub list_spans : {V : Type 0} → OtelRuntime → List (FinishedSpan V) → List (SpanView V)
list_spans {V} otel finished = elim otel.exporter [
  | none ↦ []
  | some _ ↦
      map
        (λ span. record {
          name = span.name;
          attributes = span.attributes;
          status = to_string span.status_code;
        })
        finished
]

-- The service that asks first decides: any later one gets the same runtime, whatever name and
-- endpoint it brings, and registers nothing.
ensure_runtime_once :
    (name name' : String) (endpoint endpoint' : Option String) (process : Process)
    → let (first, after) = ensure_runtime name endpoint process in
      ensure_runtime name' endpoint' after ≡ (first, after)
unfolding ensure_runtime
ensure_runtime_once name name' endpoint endpoint' process = by_runtime process.runtime process.sdk
  where
    by_runtime :
        (runtime : Option OtelRuntime) (sdk : List SdkCall)
        → let (first, after) =
            ensure_runtime name endpoint (record { runtime = runtime; sdk = sdk }) in
          ensure_runtime name' endpoint' after ≡ (first, after)
    by_runtime none sdk = refl
    by_runtime (some r) sdk = refl
