-- ===== src/Authz.antt =====
-- Authorisation around the policy engine: packages/foundation/authz.
pub mod Router
mod Tests
