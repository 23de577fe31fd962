-- ===== src/Tests.antt =====
-- Concrete inputs for the theorems with hypotheses, and runs of the definitions.
mod Controls
mod Bank
mod Saga
mod Guarded
mod Lifecycle
mod Worker
mod Service
mod Metrics
mod Refresh
mod Broadcast
mod Controller
mod Bus
mod Config
mod Queue
mod Mock
mod Idempotency
