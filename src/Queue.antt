-- ===== src/Queue.antt =====
-- src/queue: the queues and worker pools of the gateways.
pub mod Name
pub mod Manager
pub mod Control
pub mod Closing
pub mod Shutdown
