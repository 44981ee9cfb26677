-- ===== src/Evidence.antt =====
-- Immutable evidence: src/evidence.
pub mod Canonical
