-- ===== src/Core.antt =====
-- packages/foundation/core: the governance pipeline and the audit chain.
pub mod Gates
pub mod Pipeline
pub mod Audit
pub mod Redact
mod Tests
