-- ===== src/Lib.antt =====
-- Verification of the payment queue system: a service that takes payment requests over HTTP, queues
-- them per payment gateway, and processes each by a saga (reserve, charge, settle) behind a circuit
-- breaker and a rate limiter, with Redis as the store of record.
--
-- Parts, and the files that model them (paths of sources from the repository's root):
--   Domain/Errors    src/domain/errors.ts: PaymentErrorCode, PaymentProcessingError, classifyHttpStatus.
--   Domain/Payment   src/domain/payment.ts: Payment, PaymentRecord, the transition functions.
--   Domain/Json      values of `unknown` type.
--   Config           src/config/app-config.ts: num, redis_url, build_config.
--   Common/Events    src/common/event-bus.ts: AppEvent.
--   Common/Bus       the same file: on, off, emit.
--   Common/Correlation  the same file: CorrelationService; src/common/correlation.middleware.ts and
--                    trace-logger.ts.
--   Tracing          src/tracing/tracing.service.ts: withSpan; Tracing/Runtime, of the same
--                    file, ensureRuntime and listSpans.
--   Gateway/Breaker  src/gateway/circuit-breaker.ts: allow_call, record_outcome, get_state are
--                    allowCall, recordOutcome, getState on a CircuitBreaker that is passed along.
--   Gateway/Bucket   src/gateway/adaptive-token-bucket.ts: refill, try_acquire, wait_for_token,
--                    on_throttled, on_success on an AdaptiveTokenBucket.
--   Gateway/Guard    src/gateway/gateway-guard.ts and the two registries beside it: call and refund
--                    over a GuardState with one breaker and one bucket for each gateway.
--   Gateway/Guard/Policy  the `configure` of these three files.
--   Gateway/Types    src/gateway/gateway.types.ts, with the providers as an interface.
--   Gateway/Mock     src/gateway/mock-gateway.service.ts: a scripted provider and its registry.
--   Payments/Exec    what an async method is here: a function of the state that returns or throws.
--   Payments/World   the state that the payment services share, and their environment.
--   Payments/Redis   the Redis commands that the services send, as an interface, with what Redis
--                    documents of them; Payments/Redis/Memory is an instance.
--   Payments/Stores  src/payments/payment-store.service.ts, audit-log.service.ts and
--                    settlement-ledger.service.ts.
--   Payments/Idempotency   src/payments/idempotency.service.ts; Payments/Idempotency/Machine is what it
--                          promises, without time, records and Redis.
--   Payments/Saga          src/payments/payment-saga.service.ts: execute, step by step.
--   Payments/Guarded       the saga over the guard: Gateway/Guard as the guard of Payments/Saga, and
--                          providers that keep a list of their calls.
--   Payments/Processor     src/payments/payment.processor.ts: processJob, finalizeDeadLetter,
--                          handleJobFailure.
--   Payments/Delivery      src/queue/queue-manager.service.ts: what a worker does with a job and with `failed`.
--   Payments/Workers       src/payments/payment.processor.ts: workers at the jobs of one payment, whose
--                          steps around the execution lock come in any order.
--   Payments/Lifecycle     submission, queue and worker together.
--   Payments/Queue         src/queue/queue-manager.service.ts: enqueue and routeToDlq.
--   Payments/Service       src/payments/payment.service.ts: submit, getStatus, the validator;
--                          listDeadLetters is in Payments/Controller. Payments/Service/Body is the
--                          JSON body of an input, as a client writes it.
--   Payments/Controller    src/payments/payments.controller.ts: submit, schedule, dlq.
--   Queue/Name, Queue/Manager, Queue/Control   src/queue/queue-manager.service.ts: queueNameFor;
--                          ensureGateway and scaleWorkers; pause, resume, setWorkerPoolSize,
--                          collectQueueDepths, listDlq.
--   Queue/Closing, Queue/Shutdown   the same file: closeWorkerGracefully; onApplicationShutdown.
--   Metrics/Window, Metrics/Collector   src/metrics/metrics-collector.service.ts: the list of samples
--                          and percentile; recordAttempt, the numbers of snapshot, evaluate, and
--                          the rules of refresh.
--   Metrics/Refresh        the same file: snapshot and refresh, which await the queue depths.
--   Metrics/Subscriptions  the same file: what onModuleInit subscribes, and the refreshes that this
--                          starts, each in two parts.
--   Metrics/Broadcast      src/metrics/metrics.gateway.ts: the listeners and pushSnapshot.
--   Prelude                shared tests, lists, texts, maps, and the numbers of JavaScript.
--   Tests                  the theorems at concrete inputs, and runs of the definitions.
--
-- A submission claims the payment's id, stores a record and enqueues a job; the worker takes the job,
-- checks the idempotency record, takes the execution lock and runs the saga; the saga charges through
-- the guard, which waits for a token, asks the breaker, calls the provider and feeds the outcome back
-- into both; a permanent failure is dead-lettered, and a transient one is thrown for the queue to
-- retry.
--
-- Choices. Times are milliseconds. JavaScript numbers that the code divides or scales are those
-- of an interface, Number, with laws as hypotheses where an order is claimed; whole numbers meet
-- them. The n-th call of the payment services to Redis or the queue happens at the time `clock n`
-- and may reject (`fault n`); a theorem for a Redis that answers is about `calm env`. The loop of
-- waitForToken and the loops that scale the workers run on fuel: the first needs no more than its
-- timeout, the others no more than the rounds to the target, and the number of workers, while `spare`
-- is more on top; a loop of the latter that
-- spends its fuel fails with `endless`, and Payments/Guarded takes a wait that spends it for one without
-- a token. Redis, BullMQ, the environment of the
-- process, a provider, a rejecting ledger or queue and what happens to a bucket during a sleep
-- are parameters.
--
-- Not modelled: NestJS and the DTO classes, which only document the requests; Socket.IO and timers as
-- such; the OpenTelemetry SDK behind its calls; the set-up of the Redis connection; log lines but for
-- their prefix. The order in which a shutdown's closes settle is left open only within
-- closeWorkerGracefully. The tests, the scripts and the tooling under .agents, which is vendored and
-- no part of the running program, are left aside.
mod Prelude
pub mod Config
pub mod Domain
pub mod Common
pub mod Gateway
pub mod Payments
pub mod Queue
pub mod Metrics
pub mod Tracing
mod Tests
