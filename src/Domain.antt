-- ===== src/Domain.antt =====
-- src/domain: the error taxonomy and the payment model.
pub mod Json
pub mod Errors
pub mod Payment
