-- ===== src/Durable.antt =====
-- packages/storage/durable/src
pub mod Approval
pub mod Effect
pub mod Checkpoint
