-- ===== src/Engine.antt =====
-- packages/engines/sql/src/store.ts: durable execution over a transactional adapter.
pub mod Schema
pub mod Runs
pub mod Reap
pub mod Claim
pub mod Lease
pub mod Control
pub mod Inbox
pub mod Invariant
pub mod Exclusion
pub mod Ended
pub mod Finish
pub mod Sweep
pub mod Prune
pub mod Idempotency
mod Tests
