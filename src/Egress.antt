-- ===== src/Egress.antt =====
-- The network floor under every outbound request: packages/foundation/egress.
pub mod Address
pub mod Ranges
pub mod Floor
mod Tests
