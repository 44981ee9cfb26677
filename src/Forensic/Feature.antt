-- ===== src/Forensic/Feature.antt =====
-- The receipt type of src/forensic/creatorOutcome.ts and its coverage, without the digests.
use sentry_forensic_gate.Base.{ℕ, ◌+◌, List, Text, ◌==◌, if◌then◌else◌}

pub data CreatorOutcomeCoverage : Type 0 where
  no_history unknown partial complete : CreatorOutcomeCoverage

pub record CreatorOutcomeFeatureReceipt : Type 0 where
  pub receipt_id : Text
  pub chain_id : ℕ
  pub launch_id : Text
  pub creator : Text
  pub baseline_id : Text
  pub decision_block : ℕ
  pub decision_block_hash : Text
  pub horizon_ms : ℕ
  pub coverage : CreatorOutcomeCoverage
  pub prior_launch_count : ℕ
  pub outcome_receipt_count : ℕ
  pub classified_outcome_count : ℕ
  pub unresolved_outcome_count : ℕ
  pub unsellable_outcome_count : ℕ
  pub catastrophic_loss_count : ℕ
  pub exit_failure_count : ℕ
  pub liquidity_collapse_count : ℕ
  pub normal_loss_count : ℕ
  pub normal_win_count : ℕ
  pub fat_tail_win_count : ℕ
  pub source_fact_ids : List Text
  pub source_outcome_ids : List Text

-- The chain of tests that both `classify` and `applyHistoricalCreatorSeed` make.
unfoldable pub coverage_of : ℕ → ℕ → CreatorOutcomeCoverage
coverage_of prior_launch_count classified_outcome_count =
    if prior_launch_count == 0
    then no_history
    else if classified_outcome_count == 0
    then unknown
    else if classified_outcome_count == prior_launch_count
    then complete
    else partial

-- `adverseCreatorCount` of src/evaluation/fastVet.ts
abbrev pub adverse_creator_count : CreatorOutcomeFeatureReceipt → ℕ
adverse_creator_count feature =
    feature.catastrophic_loss_count + feature.exit_failure_count + feature.liquidity_collapse_count
