-- ===== src/Gateway.antt =====
-- src/gateway: the controls in front of a payment gateway.
pub mod Breaker
pub mod Bucket
pub mod Types
pub mod Guard
pub mod Mock
