-- ===== src/Evaluation/CreatorSignal/Accounts.antt =====
-- The accounts of src/evaluation/creatorSignal.ts: what its counters add up to.
use native.Mathlib.Nat.{div-lt_iff_lt-mul}
use sentry_forensic_gate.Base.{
  ℕ, suc, ◌+◌, ◌*◌, ◌/◌, ◌≤◌, ◌<◌, ◌≡◌, Bool, Option, none, some, List, [], ◌∷◌, arith, Text, count,
  length, count-le-length, is_some, Bool-cases, Option-cases, inl, inr, ◌==◌,
}
use sentry_forensic_gate.Base.Int.{pos_part, neg_part, sub_ℕ_parts}
use sentry_forensic_gate.Base.Result.{ok, Result-cases}
use sentry_forensic_gate.Evaluation.CreatorSignal.{
  MatureLaunchEvidence, CreatorSignalComparableRow, CreatorSignalEvaluationInput,
  CreatorSignalEvaluationReceipt, CreatorSignalMetrics, Tally, zero_tally, ResolvedTarget,
  ratio_bps, count_decision, count_resolved, evaluate_row, evaluate_rows, metrics_of,
  evaluate_creator_signal, is_complete_status, sort_mature, sort_rows, is_reject,
  candidate_decision,
}

-- What the counters of the loop add up to, after `n` rows.
pub record IsBalanced (n : ℕ) (t : Tally) : Type 0 where
  pub decided : t.decision_pass + t.decision_reject ≡ n
  pub resolved : t.resolved_pass + t.resolved_reject ≡ t.resolved_target
  pub passes : t.resolved_pass ≤ t.decision_pass
  pub rejects : t.resolved_reject ≤ t.decision_reject
  pub adverse : t.candidate_adverse + t.adverse_avoided ≡ t.control_adverse
  pub rejected : t.adverse_avoided + t.rejected_non_adverse ≡ t.resolved_reject
  pub seen : t.control_adverse ≤ t.resolved_target
  pub captured : t.candidate_upside ≤ t.control_upside

zero-IsBalanced : IsBalanced 0 zero_tally
zero-IsBalanced = ground arith

row-IsBalanced :
    (n : ℕ) (t : Tally) (row : CreatorSignalComparableRow) (target : Option ResolvedTarget)
    → IsBalanced n t
    → IsBalanced
        (n + 1)
        (count_resolved (is_reject (candidate_decision row.feature)) target (count_decision row t))
unfolding count_decision count_resolved
row-IsBalanced n t row none v = ground arith
row-IsBalanced n t row (some target) v = ground arith

evaluate_row-IsBalanced :
    (mature : List MatureLaunchEvidence) (ids : List Text) (row : CreatorSignalComparableRow)
    (n : ℕ) (t t' : Tally)
    → IsBalanced n t
    → evaluate_row mature ids row t ≡ ok t'
    → IsBalanced (n + 1) t'
unfolding evaluate_row
evaluate_row-IsBalanced mature ids row n t t' v e = ground (arith, row-IsBalanced n t row)

shift : (n k : ℕ) (t : Tally) → IsBalanced (n + 1 + k) t → IsBalanced (n + suc k) t
shift n k t v = ground arith

evaluate_rows-IsBalanced :
    (mature : List MatureLaunchEvidence) (ids : List Text) (rows : List CreatorSignalComparableRow)
    (n : ℕ) (t t' : Tally)
    → IsBalanced n t
    → evaluate_rows mature ids rows t ≡ ok t'
    → IsBalanced (n + length rows) t'
unfolding evaluate_rows
evaluate_rows-IsBalanced mature ids [] n t t' v e = ground arith
evaluate_rows-IsBalanced mature ids (row ∷ rows) n t t' v e =
    elim (Result-cases (evaluate_row mature ids row t)) [
      | inl (next, q) ↦ shift n (length rows) t' (
          evaluate_rows-IsBalanced mature (row.launch_id ∷ ids) rows (n + 1) next t'
            (evaluate_row-IsBalanced mature ids row n t next v q) (ground (arith, q, e)))
      | inr (x, q) ↦ ground (arith, q, e)
    ]

share_le : (a b : ℕ) → a ≤ b → 0 < b → a * 10_000 / b < 10_001
share_le a b h p = (div-lt_iff_lt-mul p).1 (omega arith)

-- A share is 10,000 basis points at most.
ratio_bps-le : (a b r : ℕ) → a ≤ b → ratio_bps a b ≡ some r → r ≤ 10_000
unfolding ratio_bps
ratio_bps-le a b r h e = elim (Bool-cases (b == 0)) [
  | inl z ↦ ground (arith, z, e)
  | inr z ↦ ground (arith, z, e, share_le a b h (ground (arith, z)))
]

-- A ratio, where there is one, is 10,000 basis points at most.
abbrev pub IsShare : Option ℕ → Type 0
IsShare none = Unit
IsShare (some r) = r ≤ 10_000

ratio-IsShare : (a b : ℕ) → a ≤ b → IsShare (ratio_bps a b)
ratio-IsShare a b h = elim (Option-cases (ratio_bps a b)) [
  | inl e ↦ rw e tt
  | inr (r, e) ↦ rw e (ratio_bps-le a b r h e)
]

count-le_count :
    (mature : List MatureLaunchEvidence)
    → count (λ item. is_complete_status item.baseline_status) mature
      ≤ count (λ item. is_some item.baseline_status) mature
count-le_count [] = omega arith
count-le_count (x ∷ mature) = ground (arith, count-le_count mature)

-- What the metrics of a receipt add up to.
pub record IsAccount (m : CreatorSignalMetrics) : Type 0 where
  pub decided :
      m.candidate_decision_pass_count + m.candidate_decision_reject_count
      ≡ m.complete_baseline_count
  pub resolution : m.resolved_target_count + m.unresolved_target_count ≡ m.complete_baseline_count
  pub resolved :
      m.resolved_candidate_pass_count + m.resolved_candidate_reject_count ≡ m.resolved_target_count
  pub adverse : m.candidate_adverse_count + m.adverse_avoided_count ≡ m.control_adverse_count
  pub rejected :
      m.adverse_avoided_count + m.rejected_non_adverse_count ≡ m.resolved_candidate_reject_count
  pub complete_le : m.complete_baseline_count ≤ m.baseline_receipt_count
  pub receipts_le : m.baseline_receipt_count ≤ m.mature_launch_count
  pub capital :
      pos_part m.capital_delta_usd_micros + m.control_terminal_usd_micros
      ≡ neg_part m.capital_delta_usd_micros + m.candidate_terminal_usd_micros
  pub coverage : IsShare m.baseline_receipt_coverage_bps
  pub outcomes : IsShare m.outcome_coverage_bps
  pub retention : IsShare m.resolved_trade_retention_bps
  pub reduction : IsShare m.adverse_exposure_reduction_bps
  pub precision : IsShare m.rejection_adverse_precision_bps
  pub capture : IsShare m.winner_capture_bps

metrics-IsAccount :
    (mature : List MatureLaunchEvidence) (rows : List CreatorSignalComparableRow) (t : Tally)
    → IsBalanced (length rows) t
    → length rows ≡ count (λ item. is_complete_status item.baseline_status) mature
    → IsAccount (metrics_of mature rows t)
unfolding metrics_of
metrics-IsAccount mature rows t v e =
    let few =
      count-le-length (λ (item : MatureLaunchEvidence). is_some item.baseline_status) mature in
    record {
      decided = v.decided;
      resolution = ground (arith, v.decided, v.resolved, v.passes, v.rejects);
      resolved = v.resolved;
      adverse = v.adverse;
      rejected = v.rejected;
      complete_le = omega (arith, count-le_count mature, e);
      receipts_le = few;
      capital = sub_ℕ_parts t.candidate_terminal t.control_terminal;
      coverage = ratio-IsShare _ _ few;
      outcomes = ratio-IsShare _ _ (ground (arith, v.decided, v.resolved, v.passes, v.rejects));
      retention = ratio-IsShare _ _ (omega (arith, v.resolved));
      reduction = ratio-IsShare _ _ (omega (arith, v.adverse));
      precision = ratio-IsShare _ _ (omega (arith, v.rejected));
      capture = ratio-IsShare _ _ v.captured;
    }

from_zero : (n : ℕ) (t : Tally) → IsBalanced (0 + n) t → IsBalanced n t
from_zero n t v = ground arith

-- The metrics of a receipt are balanced: every decision passes or rejects, every complete baseline
-- is resolved or not, every adverse outcome is met or avoided, every rejection avoids one or not,
-- the capital that the candidate is ahead is the difference of the two terminals, and no ratio
-- exceeds 10,000 basis points.
pub evaluate_creator_signal-IsAccount :
    (le_text : Text → Text → Bool) (input : CreatorSignalEvaluationInput)
    (receipt : CreatorSignalEvaluationReceipt)
    → evaluate_creator_signal le_text input ≡ ok receipt
    → IsAccount receipt.metrics
unfolding evaluate_creator_signal
evaluate_creator_signal-IsAccount le_text input receipt e =
    let mature = sort_mature le_text input.mature_launches in
    let rows = sort_rows le_text input.rows in
    elim (Result-cases (evaluate_rows mature [] rows zero_tally)) [
      | inl (t, q) ↦ ground (
        arith,
        q,
        e,
        metrics-IsAccount mature rows t (
            from_zero (length rows) t
              (evaluate_rows-IsBalanced mature [] rows 0 zero_tally t zero-IsBalanced q)),
      )
      | inr (x, q) ↦ ground (arith, q, e)
    ]
