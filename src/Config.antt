-- ===== src/Config.antt =====
-- src/config/app-config.ts: the configuration that is built from the environment. What `Number`,
-- `trim`, `encodeURIComponent` and the reading of a file answer is a parameter.
pub mod Gateways
use mathlib.Core.Option as Option
use queue_system.Prelude.{
  ℕ, Bool, true, false, String, Option, none, some, List, [], ◌∷◌, or_else, str_eq, if◌then◌else◌,
  map, filter_by, not,
}
use queue_system.Prelude.Chars.{split_commas}
use queue_system.Prelude.Maps.{Map}
use queue_system.Prelude.Text.{◌<>◌}
use queue_system.Prelude.Number.{Number}

-- What the builder calls. `number_of` is `none` where `Number(raw)` is not finite, and `read_file` where
-- the file cannot be read.
pub record Runtime (N : Number) : Type 0 where
  pub number_of : String → Option N.Carrier
  pub trim : String → String
  pub encode_uri_component : String → String
  pub read_file : String → Option String

-- `if (s)` of a text that may be absent.
unfoldable pub present : Option String → Option String
present none = none
present (some s) = if str_eq s "" then none else some s

abbrev pub default_gateways : List String
default_gateways = "stripe" ∷ "paypal" ∷ "adyen" ∷ []

-- `if (gateways.length === 0) gateways.push(...DEFAULT_GATEWAYS)`
abbrev pub or_defaults : List String → List String
or_defaults [] = default_gateways
or_defaults (g ∷ rest) = g ∷ rest

module _ (N : Number) where
  pub record RateLimiterConfig : Type 0 where
    pub nominal_rps : N.Carrier
    pub burst_factor : N.Carrier
    pub min_rate_factor : N.Carrier
    pub ai_step_rps : N.Carrier
    pub token_wait_ms : N.Carrier

  pub record CircuitBreakerConfig : Type 0 where
    pub window_ms : N.Carrier
    pub failure_threshold : N.Carrier
    pub min_samples : N.Carrier
    pub cooldown_ms : N.Carrier

  pub record QueueConfig : Type 0 where
    pub prefix : String
    pub worker_pool_size : N.Carrier
    pub backoff_base_ms : N.Carrier
    pub backoff_jitter : N.Carrier

  pub record IdempotencyConfig : Type 0 where
    pub lease_ttl_seconds : N.Carrier
    pub retention_seconds : N.Carrier

  pub record MetricsConfig : Type 0 where
    pub window_seconds : N.Carrier
    pub broadcast_interval_ms : N.Carrier
    pub error_rate_alert : N.Carrier
    pub p95_latency_alert_ms : N.Carrier
    pub queue_depth_alert : N.Carrier
    pub alert_cooldown_ms : N.Carrier

  pub record TracingConfig : Type 0 where
    pub service_name : String
    pub otlp_endpoint : Option String

  pub record AppConfig : Type 0 where
    pub redis_url : String
    pub port : N.Carrier
    pub queue : QueueConfig
    pub idempotency : IdempotencyConfig
    pub rate_limiter : RateLimiterConfig
    pub circuit_breaker : CircuitBreakerConfig
    pub metrics : MetricsConfig
    pub tracing : TracingConfig
    pub gateways : List String

module _ {N : Number} (js : Runtime N) (env : Map String) where
  unfoldable pub num : String → N.Carrier → N.Carrier
  unfolding present
  num key fallback = elim (present (env key)) [
    | none ↦ fallback
    | some raw ↦ or_else (js.number_of raw) fallback
  ]

  -- The text of `TEST_REDIS_URL_FILE`, if there is one.
  url_from_file : Option String
  unfolding present
  url_from_file = elim (present (env "TEST_REDIS_URL_FILE")) [
    | none ↦ none
    | some file ↦ present (Option.map js.trim (js.read_file file))
  ]

  url_from_parts : String
  unfolding present
  url_from_parts =
      let host = or_else (env "REDIS_HOST") "127.0.0.1" in
      let port = or_else (env "REDIS_PORT") "6379" in
      let db : String = elim (env "REDIS_DB") [ none ↦ "" | some n ↦ "/" <> n ] in
      let auth : String = elim (present (env "REDIS_PASSWORD")) [
        | none ↦ ""
        | some password ↦ ":" <> js.encode_uri_component password <> "@"
      ] in
      "redis://" <> auth <> host <> ":" <> port <> db

  unfoldable pub redis_url : String
  unfolding present url_from_file url_from_parts
  redis_url = or_else (present (env "REDIS_URL")) (or_else url_from_file url_from_parts)

  -- `.map((g) => g.trim()).filter(Boolean)`, and the defaults where nothing is left.
  unfoldable pub gateway_names : List String
  unfolding split_commas
  gateway_names =
      let raw = or_else (env "GATEWAYS") "stripe,paypal,adyen" in
      or_defaults (filter_by (λ g. not (str_eq g "")) (map js.trim (split_commas raw)))

  unfoldable pub build_config : AppConfig N
  unfolding num present redis_url gateway_names
  build_config = record {
    redis_url = redis_url;
    port = num "PORT" (N.of_ℕ 3000);
    queue = record {
      prefix = or_else (env "QUEUE_PREFIX") "bull:payments";
      worker_pool_size = num "QUEUE_WORKER_POOL_SIZE" (N.of_ℕ 2);
      backoff_base_ms = num "QUEUE_BACKOFF_BASE_MS" (N.of_ℕ 500);
      backoff_jitter = N.div (num "QUEUE_BACKOFF_JITTER" (N.of_ℕ 30)) (N.of_ℕ 100);
    };
    idempotency = record {
      lease_ttl_seconds = num "IDEMPOTENCY_LEASE_TTL_SECONDS" (N.of_ℕ 600);
      retention_seconds = num "IDEMPOTENCY_RETENTION_SECONDS" (N.of_ℕ 86_400);
    };
    rate_limiter = record {
      nominal_rps = num "RATE_LIMIT_NOMINAL_RPS" (N.of_ℕ 20);
      burst_factor = num "RATE_LIMIT_BURST_FACTOR" (N.of_ℕ 2);
      min_rate_factor = num "RATE_LIMIT_MIN_RATE_FACTOR" (N.div (N.of_ℕ 1) (N.of_ℕ 4));
      ai_step_rps = num "RATE_LIMIT_AI_STEP_RPS" (N.of_ℕ 1);
      token_wait_ms = num "RATE_LIMIT_TOKEN_WAIT_MS" (N.of_ℕ 15_000);
    };
    circuit_breaker = record {
      window_ms = num "CIRCUIT_BREAKER_WINDOW_MS" (N.of_ℕ 30_000);
      failure_threshold = num "CIRCUIT_BREAKER_FAILURE_THRESHOLD" (N.div (N.of_ℕ 1) (N.of_ℕ 2));
      min_samples = num "CIRCUIT_BREAKER_MIN_SAMPLES" (N.of_ℕ 10);
      cooldown_ms = num "CIRCUIT_BREAKER_COOLDOWN_MS" (N.of_ℕ 30_000);
    };
    metrics = record {
      window_seconds = num "METRICS_WINDOW_SECONDS" (N.of_ℕ 60);
      broadcast_interval_ms = num "METRICS_BROADCAST_INTERVAL_MS" (N.of_ℕ 1000);
      error_rate_alert = num "METRICS_ERROR_RATE_ALERT" (N.div (N.of_ℕ 1) (N.of_ℕ 10));
      p95_latency_alert_ms = num "METRICS_P95_LATENCY_ALERT_MS" (N.of_ℕ 1000);
      queue_depth_alert = num "METRICS_QUEUE_DEPTH_ALERT" (N.of_ℕ 200);
      alert_cooldown_ms = num "METRICS_ALERT_COOLDOWN_MS" (N.of_ℕ 10_000);
    };
    tracing = record {
      service_name = or_else (env "OTEL_SERVICE_NAME") "queue-system";
      otlp_endpoint = present (env "OTEL_EXPORTER_OTLP_ENDPOINT");
    };
    gateways = gateway_names;
  }
