-- ===== src/Common.antt =====
-- src/common: the events of the system.
pub mod Events
pub mod Bus
pub mod Correlation
