-- ===== src/Canary/Revoke/Store.antt =====
-- src/canary/entryApprovalRevokeStore.ts: the table `canary_entry_approval_revoke_actions`, whose
-- singleton key leaves room for one row.
use sentry_forensic_gate.Base.{
  ℕ, Bool, true, ◌&&◌, ◌||◌, not, Option, none, some, List, [], ◌∷◌, Text, text_eq, ◌==◌,
  if◌then◌else◌,
}
use sentry_forensic_gate.Base.Result.{Result, ok, err, ◌>>=◌, ◌>>◌, throw_if}
use sentry_forensic_gate.Canary.Types.{CanaryActionState, reserved, state_eq}
use sentry_forensic_gate.Canary.SwapIntent.{Platform}
use sentry_forensic_gate.Canary.EntryApproval.{ApprovalCoder}
use sentry_forensic_gate.Canary.Actions.{
  ActionRow, ActionError, allowance_not_zero, insert_or_ignore, mark_included,
}
use sentry_forensic_gate.Canary.Revoke.{
  CanaryEntryApprovalRevokeIntent, RevokeError, derive_revoke_action_id, assert_revoke_calldata,
}

-- `CanaryEntryApprovalRevokeActionRecord`, less the columns of `ActionRow`.
pub record RevokeColumns : Type 0 where
  pub parent_entry_approval_action_id : Text
  pub parent_buy_action_id : Text
  pub launch_id : Text
  pub baseline_id : Text
  pub intent : CanaryEntryApprovalRevokeIntent
  pub observed_allowance_before : ℕ
  pub observed_allowance_after : Option ℕ

abbrev pub RevokeRecord : Type 0
RevokeRecord = ActionRow RevokeColumns

pub data RevokeInsertResult : Type 0 where
  inserted duplicate revoke_slot_taken : RevokeInsertResult

-- The codes of the errors, without their prefix CANARY_ENTRY_APPROVAL_REVOKE_.
pub data RevokeStoreError : Type 0 where
  of_intent : RevokeError → RevokeStoreError
  initial_state_invalid : CanaryActionState → RevokeStoreError
  allowance_before_not_exact : ℕ → ℕ → RevokeStoreError
  intent_action_id_mismatch parent_approval_id_mismatch : RevokeStoreError
  parent_buy_id_mismatch intent_identity_mismatch action_id_drift : RevokeStoreError
  insert_rejected : RevokeStoreError

abbrev pub of_intent_result : {A : Type 0} → Result RevokeError A → Result RevokeStoreError A
of_intent_result (ok a) = ok a
of_intent_result (err e) = err (of_intent e)

-- UNIQUE(singleton_key): any two rows collide.
abbrev pub unique : RevokeColumns → RevokeColumns → Bool
unique _ _ = true

-- What an inclusion must have observed.
unfoldable pub accept_zero : RevokeColumns → ℕ → Result ActionError RevokeColumns
accept_zero p observed = do
  throw_if (not (observed == 0)) (allowance_not_zero observed)
  ok (record p { observed_allowance_after = some 0 })

module _ (platform : Platform) (coder : ApprovalCoder) where
  unfoldable pub assert_record_identity : RevokeRecord → Result RevokeStoreError (Unit {0})
  assert_record_identity r = do
    let p = r.payload
    let intent = p.intent
    throw_if (not (text_eq intent.action_id r.action_id)) intent_action_id_mismatch
    throw_if
        (not (text_eq intent.parent_entry_approval_action_id p.parent_entry_approval_action_id))
        parent_approval_id_mismatch
    throw_if (not (text_eq intent.parent_buy_action_id p.parent_buy_action_id))
        parent_buy_id_mismatch
    throw_if
        (not (text_eq intent.launch_id p.launch_id)
          || not (text_eq intent.baseline_id p.baseline_id))
        intent_identity_mismatch
    expected ← of_intent_result (
        derive_revoke_action_id platform coder (record intent {
          parent_entry_approval_action_id = p.parent_entry_approval_action_id;
          parent_buy_action_id = p.parent_buy_action_id;
          launch_id = p.launch_id;
          baseline_id = p.baseline_id;
        }))
    throw_if (not (text_eq r.action_id expected)) action_id_drift

  -- The throws of `insertReserved` before its INSERT.
  unfoldable pub check_insertion : RevokeRecord → Result RevokeStoreError (Unit {0})
  unfolding assert_record_identity
  check_insertion r = do
    throw_if (not (state_eq r.state reserved)) (initial_state_invalid r.state)
    throw_if (not (r.payload.observed_allowance_before == r.payload.intent.expected_allowance)) (
        allowance_before_not_exact r.payload.observed_allowance_before
          r.payload.intent.expected_allowance)
    assert_record_identity r
    of_intent_result (assert_revoke_calldata platform coder r.payload.intent)

-- The second half of `insertReserved`, after INSERT OR IGNORE has changed nothing.
unfoldable pub classify_ignored :
    RevokeRecord → List RevokeRecord → Result RevokeStoreError RevokeInsertResult
classify_ignored r [] = err insert_rejected
classify_ignored r (x ∷ rows) =
    if text_eq x.action_id r.action_id
      && text_eq x.payload.parent_entry_approval_action_id r.payload.parent_entry_approval_action_id
      && text_eq x.payload.parent_buy_action_id r.payload.parent_buy_action_id
      && text_eq x.payload.launch_id r.payload.launch_id
      && text_eq x.payload.baseline_id r.payload.baseline_id
    then ok duplicate
    else ok revoke_slot_taken

unfoldable pub insert_reserved :
    Platform
    → ApprovalCoder
    → RevokeRecord
    → List RevokeRecord
    → Result RevokeStoreError RevokeInsertResult × List RevokeRecord
unfolding check_insertion classify_ignored
insert_reserved platform coder r rows = elim (check_insertion platform coder r) [
  | err e ↦ (err e, rows)
  | ok u ↦ elim (insert_or_ignore unique r rows) [
    | none ↦ (classify_ignored r rows, rows)
    | some grown ↦ (ok inserted, grown)
  ]
]

unfoldable pub mark_revoke_included :
    (Text → Text)
    → Text
    → ℕ
    → ℕ
    → List RevokeRecord
    → Result ActionError (Unit {0}) × List RevokeRecord
mark_revoke_included keccak256 action_id observed now =
    mark_included keccak256 accept_zero action_id observed now

unfoldable pub get_committed : List RevokeRecord → Option RevokeRecord
get_committed [] = none
get_committed (r ∷ rows) = some r
