-- ===== src/Ledger/Queries.antt =====
-- The lists that src/db/memoryStore.ts gives, in the order of its comparisons. `le_text` stands for
-- `localeCompare`, as the test that one string does not come after another.
use sentry_forensic_gate.Base.{
  ℕ, Bool, true, false, ◌&&◌, not, some, List, [], map, Text, text_eq, same_text, get_or_else, leb,
  ◌==◌, if◌then◌else◌, any, select, take, sort_by,
}
use sentry_forensic_gate.Domain.{LaunchObserved}
use sentry_forensic_gate.Receipts.{
  OutcomeReceipt, forward_outcomes_r1, ProvenanceFact, ProvenanceEdge,
}
use sentry_forensic_gate.Shadow.Baseline.{
  BaselineStatus, complete, unverified, ExecutableBaselineBatch,
}
use sentry_forensic_gate.Ledger.{MemoryStore, is_baseline_of}

pub record BaselineDecisionPoint : Type 0 where
  pub baseline_id : Text
  pub authority_digest : Text
  pub launch_id : Text
  pub decision_block : ℕ
  pub decision_block_hash : Text
  pub status : BaselineStatus

-- `if (a !== b) return a < b ? -1 : 1; return …`
abbrev then_by : ℕ → ℕ → Bool → Bool
then_by a b rest = if a == b then rest else leb a b

abbrev is_complete : BaselineStatus → Bool
is_complete complete = true
is_complete unverified = false

module _ (le_text : Text → Text → Bool) where
  compare_launches : LaunchObserved → LaunchObserved → Bool
  compare_launches a b = then_by a.chain_id b.chain_id (
      then_by a.block_number b.block_number
        (then_by a.log_index b.log_index (le_text a.launch_id b.launch_id)))

  compare_facts : ProvenanceFact → ProvenanceFact → Bool
  compare_facts a b = then_by a.chain_id b.chain_id (
      then_by a.observed_block b.observed_block
        (then_by a.log_index b.log_index (le_text a.fact_id b.fact_id)))

  compare_edges : ProvenanceEdge → ProvenanceEdge → Bool
  compare_edges a b =
      then_by a.chain_id b.chain_id
        (then_by a.observed_block b.observed_block (le_text a.edge_id b.edge_id))

  compare_outcomes : OutcomeReceipt → OutcomeReceipt → Bool
  compare_outcomes a b =
      let p = get_or_else a.policy_version [] in
      let q = get_or_else b.policy_version [] in
      then_by a.observed_block b.observed_block (
        then_by a.horizon_ms b.horizon_ms
          (if le_text p q && le_text q p then le_text a.outcome_id b.outcome_id else le_text p q))

  compare_decision_points : BaselineDecisionPoint → BaselineDecisionPoint → Bool
  compare_decision_points a b =
      then_by a.decision_block b.decision_block (le_text a.launch_id b.launch_id)

  compare_baseline_batches : ExecutableBaselineBatch → ExecutableBaselineBatch → Bool
  compare_baseline_batches a b =
      then_by a.decision_block b.decision_block (le_text a.launch_id b.launch_id)

  unfoldable pub list_launches_missing_provenance : MemoryStore → List LaunchObserved
  unfolding compare_launches
  list_launches_missing_provenance ledger = sort_by compare_launches (
      select
        (λ launch.
          not (any (λ fact. text_eq fact.launch_id launch.launch_id) ledger.provenance_facts))
        ledger.launches)

  unfoldable pub list_provenance_facts : MemoryStore → List ProvenanceFact
  unfolding compare_facts
  list_provenance_facts ledger = sort_by compare_facts ledger.provenance_facts

  unfoldable pub list_provenance_edges : MemoryStore → List ProvenanceEdge
  unfolding compare_edges
  list_provenance_edges ledger = sort_by compare_edges ledger.provenance_edges

  unfoldable pub list_outcomes : MemoryStore → List OutcomeReceipt
  unfolding compare_outcomes
  list_outcomes ledger = sort_by compare_outcomes ledger.outcomes

  unfoldable pub list_baseline_decision_points : MemoryStore → List BaselineDecisionPoint
  unfolding compare_decision_points
  list_baseline_decision_points ledger = sort_by compare_decision_points (
      map
        (λ (batch : ExecutableBaselineBatch). record {
          baseline_id = batch.baseline_id;
          authority_digest = batch.authority_digest;
          launch_id = batch.launch_id;
          decision_block = batch.decision_block;
          decision_block_hash = batch.decision_block_hash;
          status = batch.status;
        })
        ledger.baselines)

  -- The `covered` set of `listBaselineBatchesPendingOutcome`.
  abbrev pub has_outcome : MemoryStore → ℕ → Text → Bool
  has_outcome ledger horizon_ms launch_id =
      any
        (λ outcome.
          outcome.horizon_ms == horizon_ms
          && same_text outcome.policy_version (some forward_outcomes_r1)
          && text_eq outcome.launch_id launch_id)
        ledger.outcomes

  unfoldable pub list_baseline_batches_pending_outcome :
      MemoryStore → ℕ → ℕ → List ExecutableBaselineBatch
  unfolding compare_baseline_batches
  list_baseline_batches_pending_outcome ledger horizon_ms limit = take limit (
      sort_by compare_baseline_batches (
        select
          (λ batch. is_complete batch.status && not (has_outcome ledger horizon_ms batch.launch_id))
          ledger.baselines))

-- The order that `sort` gives launches by block and log.
abbrev pub by_block_and_log : LaunchObserved → LaunchObserved → Bool
by_block_and_log a b = then_by a.block_number b.block_number (leb a.log_index b.log_index)

unfoldable pub list_launches_pending_baseline : MemoryStore → ℕ → ℕ → List LaunchObserved
list_launches_pending_baseline ledger max_launch_block limit = take limit (
    sort_by by_block_and_log (
      select
        (λ launch.
          leb launch.block_number max_launch_block
          && not (any (is_baseline_of launch.launch_id) ledger.baselines))
        ledger.launches))
