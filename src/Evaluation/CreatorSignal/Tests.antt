-- ===== src/Evaluation/CreatorSignal/Tests.antt =====
-- src/evaluation/creatorSignal.ts at one launch that matured and was resolved.
use sentry_forensic_gate.Base.{
  ◌≡◌, refl, Bool, true, none, some, [], ◌∷◌, Text, text_eq, same_text, sort_by,
}
use sentry_forensic_gate.Base.Result.{err}
use sentry_forensic_gate.Domain.{normal_win, OutcomeStatus}
use sentry_forensic_gate.Receipts.{OutcomeReceipt, forward_outcomes_r1}
use sentry_forensic_gate.Shadow.Baseline.{complete}
use sentry_forensic_gate.Forensic.Feature.{CreatorOutcomeFeatureReceipt, no_history}
use sentry_forensic_gate.Evaluation.CreatorSignal.{
  MatureLaunchEvidence, CreatorSignalComparableRow, CreatorSignalEvaluationInput,
  CreatorSignalEvaluationReceipt, Tally, zero_tally, receipt_of, metrics_of,
  evaluate_creator_signal, duplicate_mature_launch, validate_input,
}
use sentry_forensic_gate.Evaluation.CreatorSignal.Accounts.{
  IsAccount, evaluate_creator_signal-IsAccount,
}
use sentry_forensic_gate.Evaluation.CreatorSignal.Verdict.{
  IsVerdict, evaluate_creator_signal-IsVerdict,
}

abbrev le_any : Text → Text → Bool
le_any a b = true

abbrev mature : MatureLaunchEvidence
mature = record {
  launch_id = 1 ∷ [];
  fact_id = 2 ∷ [];
  fact_evidence_digest = 3 ∷ [];
  baseline_id = some (4 ∷ []);
  baseline_authority_digest = some (5 ∷ []);
  baseline_status = some complete;
}

abbrev feature : CreatorOutcomeFeatureReceipt
feature = record {
  receipt_id = 6 ∷ [];
  chain_id = 57073;
  launch_id = 1 ∷ [];
  creator = [];
  baseline_id = 4 ∷ [];
  decision_block = 100;
  decision_block_hash = [];
  horizon_ms = 86_400_000;
  coverage = no_history;
  prior_launch_count = 0;
  outcome_receipt_count = 0;
  classified_outcome_count = 0;
  unresolved_outcome_count = 0;
  unsellable_outcome_count = 0;
  catastrophic_loss_count = 0;
  exit_failure_count = 0;
  liquidity_collapse_count = 0;
  normal_loss_count = 0;
  normal_win_count = 0;
  fat_tail_win_count = 0;
  source_fact_ids = [];
  source_outcome_ids = [];
}

abbrev target : OutcomeReceipt
target = record {
  outcome_id = 7 ∷ [];
  launch_id = 1 ∷ [];
  horizon_ms = 86_400_000;
  observed_block = 200;
  executable_value_usd_micros = some 1_500_000;
  sellable = true;
  liquidity_usd_micros = none;
  classification = some normal_win;
  policy_version = some forward_outcomes_r1;
  status = some OutcomeStatus.complete;
  reason = none;
  observed_block_hash = some [];
  target_timestamp_ms = some 0;
  observed_timestamp_ms = some 0;
  baseline_id = some (4 ∷ []);
  entry_notional_usd_micros = some 1_000_000;
  entry_token_amount = some 10;
  market_pool = some [];
  market_fee = some 0;
  base_token = some [];
  base_amount_out = some 0;
  executable_return_bps = some 15_000;
  pool_active_liquidity = some 0;
  evidence_digest = some [];
}

abbrev row : CreatorSignalComparableRow
row = record {
  launch_id = 1 ∷ [];
  baseline_id = 4 ∷ [];
  baseline_authority_digest = 5 ∷ [];
  feature = feature;
  target_outcome = some target;
}

abbrev input : CreatorSignalEvaluationInput
input = record {
  chain_id = 57073;
  as_of_block = 300;
  as_of_block_hash = b'A' ∷ [];
  as_of_timestamp_ms = 0;
  confirmations = 2;
  mature_launches = mature ∷ [];
  rows = row ∷ [];
}

abbrev tally : Tally
tally = record zero_tally {
  resolved_target = 1;
  decision_pass = 1;
  resolved_pass = 1;
  control_terminal = 1_500_000;
  candidate_terminal = 1_500_000;
  control_upside = 500_000;
  candidate_upside = 500_000;
}

abbrev receipt : CreatorSignalEvaluationReceipt
receipt = receipt_of input (metrics_of (mature ∷ []) (row ∷ []) tally)

twice :
    validate_input (record input { mature_launches = mature ∷ mature ∷ [] })
    ≡ err (duplicate_mature_launch (1 ∷ []))
unfolding validate_input text_eq
twice = refl

evaluate_creator_signal-IsAccount_example : IsAccount receipt.metrics
unfolding evaluate_creator_signal text_eq sort_by same_text
evaluate_creator_signal-IsAccount_example =
    evaluate_creator_signal-IsAccount le_any input receipt refl

evaluate_creator_signal-IsVerdict_example : IsVerdict receipt
unfolding evaluate_creator_signal text_eq sort_by same_text
evaluate_creator_signal-IsVerdict_example =
    evaluate_creator_signal-IsVerdict le_any input receipt refl
