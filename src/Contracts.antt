-- ===== src/Contracts.antt =====
-- packages/foundation/contracts/src: the types that several components share.
pub mod Approval
