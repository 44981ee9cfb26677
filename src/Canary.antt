-- ===== src/Canary.antt =====
-- The live canary: src/canary.
pub mod Types
pub mod SwapIntent
pub mod EntryApproval
pub mod LiveAuthorization
pub mod Store
pub mod Reconcile
pub mod Seed
pub mod Actions
pub mod EntryApprovalStore
pub mod Revoke
pub mod RoundTrip
pub mod Executor
pub mod EntryApprovalRuntime
