-- ===== src/Canary/RoundTrip/Acquired.antt =====
-- What src/canary/approvalStore.ts and src/canary/exitStore.ts read of the parent buy: its row of
-- `canary_actions`, with the balance that it acquired.
use sentry_forensic_gate.Base.{ℕ, ◌-◌, ◌||◌, not, Option, some, Text, leb, text_eq, ◌==◌, find}
use sentry_forensic_gate.Base.Result.{Result, ok, err, ◌>>=◌, ◌>>◌, throw_if, or_throw}
use sentry_forensic_gate.Canary.Types.{
  CanaryActionState, CanaryActionRecord, CanarySwapIntent, included, state_eq,
}
use sentry_forensic_gate.Canary.Store.{Rows, has_id}

-- The codes of the errors, without the prefix of their store.
pub data ParentError : Type 0 where
  parent_buy_missing : Text → ParentError
  parent_buy_not_included : CanaryActionState → ParentError
  parent_buy_identity_mismatch parent_intent_missing : ParentError
  parent_balance_evidence_missing : ParentError
  parent_acquired_balance_invalid : ℕ → ℕ → ParentError
  amount_must_equal_acquired : ℕ → ℕ → ParentError

-- `BigInt(after) - BigInt(before)`, which must be positive.
unfoldable pub acquired_balance : Option ℕ → Option ℕ → Result ParentError ℕ
acquired_balance (some before) (some after) = do
  throw_if (leb after before) (parent_acquired_balance_invalid before after)
  ok (after - before)
acquired_balance _ _ = err parent_balance_evidence_missing

unfoldable pub check_acquired : ℕ → CanaryActionRecord → Result ParentError (Unit {0})
unfolding acquired_balance
check_acquired amount parent = do
  acquired ← acquired_balance parent.output_balance_before parent.output_balance_after
  throw_if (not (amount == acquired)) (amount_must_equal_acquired amount acquired)

unfoldable pub included_parent :
    Text → Text → Text → Rows → Result ParentError (CanaryActionRecord × CanarySwapIntent)
included_parent action_id launch_id baseline_id buys = do
  parent ← or_throw (find (has_id action_id) buys) (parent_buy_missing action_id)
  throw_if (not (state_eq parent.state included)) (parent_buy_not_included parent.state)
  throw_if
      (not (text_eq parent.launch_id launch_id) || not (text_eq parent.baseline_id baseline_id))
      parent_buy_identity_mismatch
  intent ← or_throw parent.intent parent_intent_missing
  ok (parent, intent)
