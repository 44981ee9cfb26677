-- ===== src/Evaluation/CreatorSignal/Verdict.antt =====
-- When src/evaluation/creatorSignal.ts gives a verdict, and which.
use sentry_forensic_gate.Base.{
  ◌≤◌, ◌<◌, ◌≡◌, sym, subst, ◌↔◌, ◌+◌, Bool, false, none, some, [], arith, Text, inl, inr,
}
use sentry_forensic_gate.Base.Int.{pos_part, neg_part}
use sentry_forensic_gate.Base.Result.{ok, Result-cases}
use sentry_forensic_gate.Evaluation.CreatorSignal.{
  CreatorSignalEvaluationInput, CreatorSignalEvaluationReceipt, CreatorSignalMetrics,
  complete_sample, insufficient_sample, descriptive_worth_prospective_test, receipt_of, metrics_of,
  evaluate_rows, evaluate_creator_signal, sort_mature, sort_rows, Tally, zero_tally, is_below,
  sample_adequacy_failures,
}
use sentry_forensic_gate.Evaluation.CreatorSignal.Accounts.{evaluate_creator_signal-IsAccount}

-- The sample is large enough and covered well enough.
pub record IsAdequate (m : CreatorSignalMetrics) : Type 0 where
  pub mature : 30 ≤ m.mature_launch_count
  pub baselines : 30 ≤ m.complete_baseline_count
  pub targets : 30 ≤ m.resolved_target_count
  pub history : 10 ≤ m.prior_history_decision_count
  pub adverse : 10 ≤ m.control_adverse_count
  pub receipts : is_below m.baseline_receipt_coverage_bps 9_000 ≡ false
  pub outcomes : is_below m.outcome_coverage_bps 9_000 ≡ false

IsAdequate-iff : (m : CreatorSignalMetrics) → (sample_adequacy_failures m ≡ []) ↔ IsAdequate m
unfolding sample_adequacy_failures
IsAdequate-iff m = ground arith

-- What a receipt says of its metrics.
pub record IsVerdict (r : CreatorSignalEvaluationReceipt) : Type 0 where
  pub complete_iff : (r.status ≡ complete_sample) ↔ IsAdequate r.metrics
  pub silent_iff : (r.verdict ≡ none) ↔ (r.status ≡ insufficient_sample)
  pub worth_iff : (r.verdict ≡ some descriptive_worth_prospective_test) ↔ (
      IsAdequate r.metrics
      × (0 < r.metrics.adverse_avoided_count)
      × (r.metrics.control_terminal_usd_micros ≤ r.metrics.candidate_terminal_usd_micros))

receipt_of-IsVerdict :
    (input : CreatorSignalEvaluationInput) (m : CreatorSignalMetrics)
    → pos_part m.capital_delta_usd_micros + m.control_terminal_usd_micros
      ≡ neg_part m.capital_delta_usd_micros + m.candidate_terminal_usd_micros
    → IsVerdict (receipt_of input m)
unfolding receipt_of
receipt_of-IsVerdict input m capital = record {
  complete_iff = ground (arith, IsAdequate-iff m);
  silent_iff = ground arith;
  worth_iff = ground (arith, IsAdequate-iff m);
}

abbrev IsBalancedCapital : CreatorSignalEvaluationReceipt → Type 0
IsBalancedCapital r =
    pos_part r.metrics.capital_delta_usd_micros + r.metrics.control_terminal_usd_micros
    ≡ neg_part r.metrics.capital_delta_usd_micros + r.metrics.candidate_terminal_usd_micros

receipt_computed :
    (le_text : Text → Text → Bool) (input : CreatorSignalEvaluationInput)
    (receipt : CreatorSignalEvaluationReceipt)
    → evaluate_creator_signal le_text input ≡ ok receipt
    → (t : Tally) × (receipt
        ≡ receipt_of input (
            metrics_of
              (sort_mature le_text input.mature_launches)
              (sort_rows le_text input.rows)
              t))
unfolding evaluate_creator_signal
receipt_computed le_text input receipt e =
    let mature = sort_mature le_text input.mature_launches in
    let rows = sort_rows le_text input.rows in
    elim (Result-cases (evaluate_rows mature [] rows zero_tally)) [
      | inl (t, q) ↦ (t, ground (arith, q, e))
      | inr (x, q) ↦ ground (arith, q, e)
    ]

-- A receipt is COMPLETE exactly on an adequate sample, has no verdict exactly when the sample is
-- insufficient, and finds the signal worth a prospective test exactly if the sample is adequate, an
-- adverse outcome was avoided, and the candidate ends with no less than the control.
pub evaluate_creator_signal-IsVerdict :
    (le_text : Text → Text → Bool) (input : CreatorSignalEvaluationInput)
    (receipt : CreatorSignalEvaluationReceipt)
    → evaluate_creator_signal le_text input ≡ ok receipt
    → IsVerdict receipt
unfolding receipt_of
evaluate_creator_signal-IsVerdict le_text input receipt e =
    let (t, r) = receipt_computed le_text input receipt e in
    let m =
      metrics_of (sort_mature le_text input.mature_launches) (sort_rows le_text input.rows) t in
    let account = evaluate_creator_signal-IsAccount le_text input receipt e in
    subst IsVerdict (sym r)
      (receipt_of-IsVerdict input m (subst IsBalancedCapital r account.capital))
