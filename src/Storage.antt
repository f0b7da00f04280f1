-- ===== src/Storage.antt =====
-- packages/storage/core/src/index.ts
pub mod Table
pub mod Machine
