-- ===== src/Evaluation/CreatorSignal.antt =====
-- src/evaluation/creatorSignal.ts: whether a creator's adverse history would have been worth a
-- rejection, on the launches that have matured. `le_text` stands for `localeCompare`. The digests
-- and the identities of the receipt are left out. A forward outcome is an `OutcomeReceipt`.
mod Types
pub mod Accounts
pub mod Verdict
mod Tests
pub use Types.*
use sentry_forensic_gate.Base.{
  ℕ, ◌+◌, ◌-◌, ◌*◌, ◌/◌, Bool, true, false, ◌&&◌, ◌||◌, not, Option, none, some, List, [], ◌∷◌,
  ◌++◌, Text, text_eq, same_text, is_empty, to_lower_case, ltb, leb, ◌==◌, if◌then◌else◌, any, find,
  count, length, is_some, sort_by,
}
use sentry_forensic_gate.Base.Int.{ℤ, pos, sub_ℕ, leb_ℤ}
use sentry_forensic_gate.Base.Result.{Result, ok, err, ◌>>=◌, ◌>>◌, throw_if}
use sentry_forensic_gate.Domain.{
  Classification, catastrophic_loss, exit_failure, liquidity_collapse, fat_tail_win, OutcomeStatus,
}
use sentry_forensic_gate.Receipts.{OutcomeReceipt, forward_outcomes_r1}
use sentry_forensic_gate.Shadow.Baseline.{BaselineStatus, complete, unverified}
use sentry_forensic_gate.Forensic.Feature.{CreatorOutcomeFeatureReceipt, adverse_creator_count}

unfoldable pub candidate_decision : CreatorOutcomeFeatureReceipt → CreatorSignalDecision
candidate_decision feature = if ltb 0 (adverse_creator_count feature) then reject else pass

abbrev pub is_reject : CreatorSignalDecision → Bool
is_reject reject = true
is_reject pass = false

abbrev pub is_adverse : Classification → Bool
is_adverse catastrophic_loss = true
is_adverse exit_failure = true
is_adverse liquidity_collapse = true
is_adverse _ = false

-- `ratioBps` and `ratioBigintBps`
unfoldable pub ratio_bps : ℕ → ℕ → Option ℕ
ratio_bps numerator denominator =
    if denominator == 0 then none else some (numerator * 10_000 / denominator)

abbrev pub is_complete_status : Option BaselineStatus → Bool
is_complete_status (some complete) = true
is_complete_status _ = false

abbrev is_unset : Option Text → Bool
is_unset none = true
is_unset (some s) = is_empty s

-- Whether `validateInput` throws at the binding of an item.
abbrev is_partial_binding : MatureLaunchEvidence → Bool
is_partial_binding item =
    if is_some item.baseline_status
    then is_unset item.baseline_id || is_unset item.baseline_authority_digest
    else is_some item.baseline_id || is_some item.baseline_authority_digest

validate_mature : List Text → List MatureLaunchEvidence → Result CreatorSignalError (Unit {0})
validate_mature seen [] = ok tt
validate_mature seen (item ∷ items) = do
  throw_if (any (text_eq item.launch_id) seen) (duplicate_mature_launch item.launch_id)
  throw_if (is_partial_binding item) (partial_baseline_binding item.launch_id)
  validate_mature (item.launch_id ∷ seen) items

unfoldable pub validate_input : CreatorSignalEvaluationInput → Result CreatorSignalError (Unit {0})
unfolding validate_mature
validate_input input = do
  throw_if (input.chain_id == 0) invalid_chain_id
  validate_mature [] input.mature_launches

unfoldable pub validate_feature : CreatorSignalComparableRow → Result CreatorSignalError (Unit {0})
validate_feature row = do
  throw_if
      (not (text_eq row.feature.launch_id row.launch_id)
        || not (text_eq row.feature.baseline_id row.baseline_id))
      (feature_binding_mismatch row.launch_id)
  throw_if (not (row.feature.horizon_ms == creator_signal_horizon_ms))
      (feature_horizon_mismatch row.launch_id)

abbrev is_complete_outcome : Option OutcomeStatus → Bool
is_complete_outcome (some OutcomeStatus.complete) = true
is_complete_outcome _ = false

-- The checks of `resolvedTarget` that its receipt has its value, its return and its label.
resolved_fields :
    Text
    → Option ℕ
    → Option ℕ
    → Option ℕ
    → Option Classification
    → Result CreatorSignalError (Option ResolvedTarget)
resolved_fields id (some notional) (some value) (some return_bps) (some fat_tail_win) =
    if notional == primary_outcome_notional_usd_micros
    then err (unexpected_r1_fat_tail_label id)
    else err (resolved_target_incomplete id)
resolved_fields id (some notional) (some value) (some return_bps) (some label) =
    if notional == primary_outcome_notional_usd_micros
    then ok (some (record { executable_value_usd_micros = value; classification = label }))
    else err (resolved_target_incomplete id)
resolved_fields id _ _ _ _ = err (resolved_target_incomplete id)

unfoldable pub resolved_target :
    CreatorSignalComparableRow → Result CreatorSignalError (Option ResolvedTarget)
unfolding resolved_fields
resolved_target row = elim row.target_outcome [
  | none ↦ ok none
  | some target ↦
      if not (is_complete_outcome target.status)
      then ok none
      else if not (same_text target.policy_version (some forward_outcomes_r1))
          || not (target.horizon_ms == creator_signal_horizon_ms)
          || not (text_eq target.launch_id row.launch_id)
          || not (same_text target.baseline_id (some row.baseline_id))
      then err (target_binding_mismatch row.launch_id)
      else resolved_fields row.launch_id target.entry_notional_usd_micros
          target.executable_value_usd_micros target.executable_return_bps target.classification
]

abbrev one_if : Bool → ℕ
one_if true = 1
one_if false = 0

-- The counters that a row adds to before its target is read, and those that a target adds to.
unfoldable pub count_decision : CreatorSignalComparableRow → Tally → Tally
unfolding candidate_decision
count_decision row t =
    let rejected = is_reject (candidate_decision row.feature) in
    record t {
      prior_history_decision =
          t.prior_history_decision + one_if (ltb 0 row.feature.prior_launch_count);
      decision_pass = t.decision_pass + one_if (not rejected);
      decision_reject = t.decision_reject + one_if rejected;
    }

unfoldable pub count_target : Bool → ResolvedTarget → Tally → Tally
count_target rejected target t =
    let adverse = is_adverse target.classification in
    let value = target.executable_value_usd_micros in
    let upside = value - primary_outcome_notional_usd_micros in
    record t {
      resolved_target = t.resolved_target + 1;
      resolved_pass = t.resolved_pass + one_if (not rejected);
      resolved_reject = t.resolved_reject + one_if rejected;
      control_adverse = t.control_adverse + one_if adverse;
      candidate_adverse = t.candidate_adverse + one_if (adverse && not rejected);
      adverse_avoided = t.adverse_avoided + one_if (adverse && rejected);
      rejected_non_adverse = t.rejected_non_adverse + one_if (not adverse && rejected);
      control_terminal = t.control_terminal + value;
      candidate_terminal =
          t.candidate_terminal + (if rejected then primary_outcome_notional_usd_micros else value);
      control_upside = t.control_upside + upside;
      candidate_upside = t.candidate_upside + (if rejected then 0 else upside);
    }

-- `matureByLaunch.get(…)` and what must hold of it.
check_binding :
    Option MatureLaunchEvidence → CreatorSignalComparableRow → Result CreatorSignalError (Unit {0})
check_binding none row = err (row_outside_complete_mature_universe row.launch_id)
check_binding (some mature) row = do
  throw_if (not (is_complete_status mature.baseline_status))
      (row_outside_complete_mature_universe row.launch_id)
  throw_if
      (not (same_text mature.baseline_id (some row.baseline_id))
        || not (same_text mature.baseline_authority_digest (some row.baseline_authority_digest)))
      (baseline_binding_mismatch row.launch_id)

count_resolved : Bool → Option ResolvedTarget → Tally → Tally
unfolding count_target
count_resolved rejected none t = t
count_resolved rejected (some target) t = count_target rejected target t

-- The body of the loop: its guards, and then what it counts.
unfoldable pub evaluate_row :
    List MatureLaunchEvidence
    → List Text
    → CreatorSignalComparableRow
    → Tally
    → Result CreatorSignalError Tally
unfolding check_binding validate_feature count_decision resolved_target count_resolved
evaluate_row mature row_ids row t = do
  throw_if (any (text_eq row.launch_id) row_ids) (duplicate_row row.launch_id)
  check_binding (find (λ item. text_eq item.launch_id row.launch_id) mature) row
  validate_feature row
  target ← resolved_target row
  ok (count_resolved (is_reject (candidate_decision row.feature)) target (count_decision row t))

unfoldable pub evaluate_rows :
    List MatureLaunchEvidence
    → List Text
    → List CreatorSignalComparableRow
    → Tally
    → Result CreatorSignalError Tally
unfolding evaluate_row
evaluate_rows mature row_ids [] t = ok t
evaluate_rows mature row_ids (row ∷ rows) t = evaluate_row mature row_ids row t >>= λ next.
    evaluate_rows mature (row.launch_id ∷ row_ids) rows next

unfoldable pub metrics_of :
    List MatureLaunchEvidence → List CreatorSignalComparableRow → Tally → CreatorSignalMetrics
unfolding ratio_bps
metrics_of mature rows t =
    let baseline_receipt_count = count (λ item. is_some item.baseline_status) mature in
    record {
      mature_launch_count = length mature;
      baseline_receipt_count = baseline_receipt_count;
      baseline_receipt_coverage_bps = ratio_bps baseline_receipt_count (length mature);
      complete_baseline_count = length rows;
      resolved_target_count = t.resolved_target;
      unresolved_target_count = length rows - t.resolved_target;
      outcome_coverage_bps = ratio_bps t.resolved_target (length rows);
      prior_history_decision_count = t.prior_history_decision;
      candidate_decision_pass_count = t.decision_pass;
      candidate_decision_reject_count = t.decision_reject;
      resolved_candidate_pass_count = t.resolved_pass;
      resolved_candidate_reject_count = t.resolved_reject;
      resolved_trade_retention_bps = ratio_bps t.resolved_pass t.resolved_target;
      control_adverse_count = t.control_adverse;
      candidate_adverse_count = t.candidate_adverse;
      adverse_avoided_count = t.adverse_avoided;
      adverse_exposure_reduction_bps = ratio_bps t.adverse_avoided t.control_adverse;
      rejected_non_adverse_count = t.rejected_non_adverse;
      rejection_adverse_precision_bps = ratio_bps t.adverse_avoided t.resolved_reject;
      control_terminal_usd_micros = t.control_terminal;
      candidate_terminal_usd_micros = t.candidate_terminal;
      capital_delta_usd_micros = sub_ℕ t.candidate_terminal t.control_terminal;
      control_upside_excess_usd_micros = t.control_upside;
      candidate_upside_excess_usd_micros = t.candidate_upside;
      winner_capture_bps = ratio_bps t.candidate_upside t.control_upside;
    }

-- `(coverage ?? -1) < gate`
abbrev pub is_below : Option ℕ → ℕ → Bool
is_below none gate = true
is_below (some n) gate = ltb n gate

abbrev fails : Bool → SampleFailure → List SampleFailure → List SampleFailure
fails true f rest = f ∷ rest
fails false f rest = rest

unfoldable pub sample_adequacy_failures : CreatorSignalMetrics → List SampleFailure
sample_adequacy_failures m = fails (ltb m.mature_launch_count 30) min_mature_launches (
    fails (is_below m.baseline_receipt_coverage_bps 9_000) baseline_receipt_coverage (
      fails (ltb m.complete_baseline_count 30) min_complete_baselines (
        fails (ltb m.resolved_target_count 30) min_resolved_targets (
          fails (is_below m.outcome_coverage_bps 9_000) outcome_coverage (
            fails (ltb m.prior_history_decision_count 10) min_prior_history_decisions
              (fails (ltb m.control_adverse_count 10) min_control_adverse_events []))))))

abbrev status_of : List SampleFailure → CreatorSignalEvaluationStatus
status_of [] = complete_sample
status_of (f ∷ fs) = insufficient_sample

abbrev verdict_of : List SampleFailure → CreatorSignalMetrics → Option CreatorSignalVerdict
verdict_of [] m =
    if ltb 0 m.adverse_avoided_count && leb_ℤ (pos 0) m.capital_delta_usd_micros
    then some descriptive_worth_prospective_test
    else some descriptive_not_supported
verdict_of (f ∷ fs) m = none

-- The receipt of an input and its metrics.
unfoldable pub receipt_of :
    CreatorSignalEvaluationInput → CreatorSignalMetrics → CreatorSignalEvaluationReceipt
unfolding sample_adequacy_failures
receipt_of input metrics = record {
  status = status_of (sample_adequacy_failures metrics);
  verdict = verdict_of (sample_adequacy_failures metrics) metrics;
  sample_failures = sample_adequacy_failures metrics;
  chain_id = input.chain_id;
  as_of_block = input.as_of_block;
  as_of_block_hash = to_lower_case input.as_of_block_hash;
  as_of_timestamp_ms = input.as_of_timestamp_ms;
  confirmations = input.confirmations;
  metrics = metrics;
}

module _ (le_text : Text → Text → Bool) where
  abbrev pub sort_mature : List MatureLaunchEvidence → List MatureLaunchEvidence
  sort_mature items = sort_by (λ a b. le_text a.launch_id b.launch_id) items

  abbrev pub sort_rows : List CreatorSignalComparableRow → List CreatorSignalComparableRow
  sort_rows rows = sort_by (λ a b. le_text a.launch_id b.launch_id) rows

  unfoldable pub evaluate_creator_signal :
      CreatorSignalEvaluationInput → Result CreatorSignalError CreatorSignalEvaluationReceipt
  unfolding validate_input evaluate_rows metrics_of receipt_of
  evaluate_creator_signal input = do
    validate_input input
    let mature = sort_mature input.mature_launches
    let rows = sort_rows input.rows
    let expected_complete = count (λ item. is_complete_status item.baseline_status) mature
    throw_if (not (length rows == expected_complete))
        (complete_baseline_row_mismatch expected_complete (length rows))
    t ← evaluate_rows mature [] rows zero_tally
    ok (receipt_of input (metrics_of mature rows t))
