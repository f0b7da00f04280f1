-- ===== src/Core/Redact.antt =====
-- Redaction: packages/foundation/core/src/redact.ts, and the lookups of
-- packages/foundation/core/src/wordlist.ts.
pub mod Distance
pub mod Repair
pub mod Mapping
pub mod Redactor
mod Tests
