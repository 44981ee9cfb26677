-- ===== src/Outcome.antt =====
-- src/outcome and src/runtime/forwardOutcomes.ts: what a baseline position is worth at a horizon.
pub mod Source
pub mod Horizon
