-- ===== src/Detectors.antt =====
-- Detectors of personal data: packages/foundation/detectors.
pub mod Regex
