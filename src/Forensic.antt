-- ===== src/Forensic.antt =====
-- src/forensic: what a creator's earlier launches came to.
pub mod Feature
pub mod Outcomes
