-- ===== src/Lib.antt =====
-- Verification of sentry-forensic-gate: the decisions, the canary's money path and the ledger.
--
-- The program watches token launches on a chain, gathers evidence about each (src/sentry,
-- src/shadow, src/outcome, src/forensic), decides which launch a canary may buy (src/protocol,
-- src/evaluation), and lets a canary buy one of them for one dollar under tables that survive a
-- restart (src/canary).
--
-- Base: shared types, tests and list lemmas; Base/Texts is JavaScript strings as code units.
-- Domain: src/domain.ts; Receipts: src/evidence/receipts.ts and the types of src/graph/provenance.ts.
-- Sentry/Identity: src/sentry/identity.ts.
-- Ledger: src/db/memoryStore.ts; its Queries are the lists that the runtime reads, and Pending says
-- what the list of launches for baselines holds.
-- Evidence/Canonical: src/evidence/canonical.ts.
-- Protocol/HardGate: src/protocol/hardGate.ts.
-- Shadow/Baseline: src/shadow/baselineTypes.ts.
-- Forensic/Feature: the receipt and coverage of src/forensic/creatorOutcome.ts;
-- Forensic/Outcomes: its selection and its classes of outcomes.
-- Evaluation/FastVet: src/evaluation/fastVet.ts; Evaluation/CreatorSignal:
-- src/evaluation/creatorSignal.ts, without its digests.
-- Outcome/Source: src/outcome/ports.ts; Outcome/Horizon: the binary search of
-- src/runtime/forwardOutcomes.ts.
-- Canary/Types, Canary/Store: src/canary/types.ts and src/canary/store.ts, with the SQL constraints
-- written out; Canary/SwapIntent: src/canary/swapIntent.ts; Canary/Seed:
-- src/canary/historicalCreatorSeed.ts; Canary/EntryApproval: src/canary/entryApproval.ts and the
-- calldata check of src/canary/approval.ts; Canary/LiveAuthorization: src/canary/liveAuthorization.ts;
-- Canary/Reconcile: the reconciliation of src/canary/cycle.ts, over an executor interface.
-- Canary/Actions: what the four tables of approvals, revokes and exits share, over the columns of a
-- row, its UNIQUE columns, the test of an inclusion and the columns that a cleanup, which entry
-- approvals alone have, makes 0; each store gives its own:
-- Canary/EntryApprovalStore: src/canary/entryApprovalStore.ts, with its capabilities;
-- Canary/Revoke: src/canary/entryApprovalRevoke.ts and, in Revoke/Store, its store;
-- Canary/RoundTrip: src/canary/roundTrip.ts, with src/canary/approval.ts, src/canary/exitStore.ts
-- and src/canary/approvalStore.ts in its children Approval, ExitStore and ApprovalStore.
-- Canary/Executor: src/canary/viemCanaryExecutor.ts, over viem, the account and the answers of the
-- chain; its Signing is the state of what was signed and not sent yet.
-- Canary/EntryApprovalRuntime: src/canary/entryApprovalRuntime.ts, over that store and executor.
--
-- Names are the program's in snake case. Bigints and integer numbers are naturals, so guards
-- against negative or fractional numbers cannot fail and are left out. Async calls are sequential.
-- A throw is an `err`; a store call that throws gives the store back too. What other packages do
-- (viem, SHA-256, the chain provider, the clock) is a parameter. Error texts are constructors.
-- `encodeFunctionData` of a swap is partial, as viem throws at an amount that a uint256 cannot hold.
-- The table of seeded creators is a plain object, so a name that it inherits is a lookup of its own.
-- The binary search takes the length of its interval and two more as fuel; each round shortens the
-- interval, so the fuel is enough. `decimal_digits` takes the number itself, and divides by ten.
--
-- Not modelled: the SQLite ledger, chain readers and command lines (input and output). Not yet
-- modelled: the cycle of src/canary/cycle.ts and the runtimes of revokes and of round trips,
-- the truth sync and the builders of baselines, outcomes and provenance (src/runtime, src/graph), and
-- the authority epochs (src/authority).
pub mod Base
pub mod Domain
pub mod Receipts
pub mod Evidence
pub mod Protocol
pub mod Shadow
pub mod Sentry
pub mod Ledger
pub mod Forensic
pub mod Evaluation
pub mod Outcome
pub mod Canary
