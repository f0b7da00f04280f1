-- ===== src/Subagents.antt =====
-- Runs that spawn runs and wait for them: packages/plugins/subagents.
pub mod Barrier
pub mod Wake
