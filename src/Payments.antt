-- ===== src/Payments.antt =====
-- src/payments: submission, the saga and the worker, over the state that they share.
pub mod Exec
pub mod Redis
pub mod World
pub mod Stores
pub mod Idempotency
pub mod Queue
pub mod Saga
pub mod Processor
pub mod Delivery
pub mod Guarded
pub mod Lifecycle
pub mod Workers
pub mod Service
pub mod Controller
