-- ===== src/Evaluation/CreatorSignal/Types.antt =====
-- The types of src/evaluation/creatorSignal.ts, and the counters of its loop.
use sentry_forensic_gate.Base.{ℕ, Option, List, Text}
use sentry_forensic_gate.Base.Int.{ℤ}
use sentry_forensic_gate.Domain.{Classification}
use sentry_forensic_gate.Receipts.{OutcomeReceipt}
use sentry_forensic_gate.Shadow.Baseline.{BaselineStatus}
use sentry_forensic_gate.Forensic.Feature.{CreatorOutcomeFeatureReceipt}

abbrev pub creator_signal_horizon_ms : ℕ
creator_signal_horizon_ms = 86_400_000

abbrev pub primary_outcome_notional_usd_micros : ℕ
primary_outcome_notional_usd_micros = 1_000_000

pub data CreatorSignalEvaluationStatus : Type 0 where
  complete_sample insufficient_sample : CreatorSignalEvaluationStatus

pub data CreatorSignalVerdict : Type 0 where
  descriptive_worth_prospective_test descriptive_not_supported : CreatorSignalVerdict

pub data CreatorSignalDecision : Type 0 where
  pass reject : CreatorSignalDecision

pub data SampleFailure : Type 0 where
  min_mature_launches baseline_receipt_coverage min_complete_baselines : SampleFailure
  min_resolved_targets outcome_coverage min_prior_history_decisions : SampleFailure
  min_control_adverse_events : SampleFailure

pub data CreatorSignalError : Type 0 where
  invalid_chain_id : CreatorSignalError
  duplicate_mature_launch partial_baseline_binding duplicate_row : Text → CreatorSignalError
  complete_baseline_row_mismatch : ℕ → ℕ → CreatorSignalError
  row_outside_complete_mature_universe baseline_binding_mismatch : Text → CreatorSignalError
  feature_binding_mismatch feature_horizon_mismatch : Text → CreatorSignalError
  target_binding_mismatch resolved_target_incomplete : Text → CreatorSignalError
  unexpected_r1_fat_tail_label : Text → CreatorSignalError

pub record MatureLaunchEvidence : Type 0 where
  pub launch_id : Text
  pub fact_id : Text
  pub fact_evidence_digest : Text
  pub baseline_id : Option Text
  pub baseline_authority_digest : Option Text
  pub baseline_status : Option BaselineStatus

pub record CreatorSignalComparableRow : Type 0 where
  pub launch_id : Text
  pub baseline_id : Text
  pub baseline_authority_digest : Text
  pub feature : CreatorOutcomeFeatureReceipt
  pub target_outcome : Option OutcomeReceipt

pub record CreatorSignalEvaluationInput : Type 0 where
  pub chain_id : ℕ
  pub as_of_block : ℕ
  pub as_of_block_hash : Text
  pub as_of_timestamp_ms : ℕ
  pub confirmations : ℕ
  pub mature_launches : List MatureLaunchEvidence
  pub rows : List CreatorSignalComparableRow

pub record CreatorSignalMetrics : Type 0 where
  pub mature_launch_count : ℕ
  pub baseline_receipt_count : ℕ
  pub baseline_receipt_coverage_bps : Option ℕ
  pub complete_baseline_count : ℕ
  pub resolved_target_count : ℕ
  pub unresolved_target_count : ℕ
  pub outcome_coverage_bps : Option ℕ
  pub prior_history_decision_count : ℕ
  pub candidate_decision_pass_count : ℕ
  pub candidate_decision_reject_count : ℕ
  pub resolved_candidate_pass_count : ℕ
  pub resolved_candidate_reject_count : ℕ
  pub resolved_trade_retention_bps : Option ℕ
  pub control_adverse_count : ℕ
  pub candidate_adverse_count : ℕ
  pub adverse_avoided_count : ℕ
  pub adverse_exposure_reduction_bps : Option ℕ
  pub rejected_non_adverse_count : ℕ
  pub rejection_adverse_precision_bps : Option ℕ
  pub control_terminal_usd_micros : ℕ
  pub candidate_terminal_usd_micros : ℕ
  pub capital_delta_usd_micros : ℤ
  pub control_upside_excess_usd_micros : ℕ
  pub candidate_upside_excess_usd_micros : ℕ
  pub winner_capture_bps : Option ℕ

pub record CreatorSignalEvaluationReceipt : Type 0 where
  pub status : CreatorSignalEvaluationStatus
  pub verdict : Option CreatorSignalVerdict
  pub sample_failures : List SampleFailure
  pub chain_id : ℕ
  pub as_of_block : ℕ
  pub as_of_block_hash : Text
  pub as_of_timestamp_ms : ℕ
  pub confirmations : ℕ
  pub metrics : CreatorSignalMetrics

-- The counters of the loop of `evaluateCreatorSignal`.
pub record Tally : Type 0 where
  pub resolved_target : ℕ
  pub prior_history_decision : ℕ
  pub decision_pass : ℕ
  pub decision_reject : ℕ
  pub resolved_pass : ℕ
  pub resolved_reject : ℕ
  pub control_adverse : ℕ
  pub candidate_adverse : ℕ
  pub adverse_avoided : ℕ
  pub rejected_non_adverse : ℕ
  pub control_terminal : ℕ
  pub candidate_terminal : ℕ
  pub control_upside : ℕ
  pub candidate_upside : ℕ

abbrev pub zero_tally : Tally
zero_tally = record {
  resolved_target = 0;
  prior_history_decision = 0;
  decision_pass = 0;
  decision_reject = 0;
  resolved_pass = 0;
  resolved_reject = 0;
  control_adverse = 0;
  candidate_adverse = 0;
  adverse_avoided = 0;
  rejected_non_adverse = 0;
  control_terminal = 0;
  candidate_terminal = 0;
  control_upside = 0;
  candidate_upside = 0;
}

-- What the loop reads of a target that is resolved.
pub record ResolvedTarget : Type 0 where
  pub executable_value_usd_micros : ℕ
  pub classification : Classification
