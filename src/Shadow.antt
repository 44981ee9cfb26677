-- ===== src/Shadow.antt =====
-- src/shadow: the executable baselines.
pub mod Baseline
