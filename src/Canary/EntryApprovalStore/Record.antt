-- ===== src/Canary/EntryApprovalStore/Record.antt =====
-- The rows of src/canary/entryApprovalStore.ts, and what an insertion checks before it writes.
-- A digest that is NULL is one of a row older than the column.
use sentry_forensic_gate.Base.{ℕ, ◌||◌, not, Option, some, Text, codes, ◌==◌, text_eq}
use sentry_forensic_gate.Base.Result.{Result, ok, err, ◌>>=◌, ◌>>◌, throw_if}
use sentry_forensic_gate.Evidence.Canonical.{Json, num, bigint, str, obj, end, field, sha256_hex}
use sentry_forensic_gate.Canary.Types.{CanarySwapIntent, CanaryActionState, reserved, state_eq}
use sentry_forensic_gate.Canary.SwapIntent.{
  Platform, derive_canary_action_id, canary_primary_notional_usd_micros,
}
use sentry_forensic_gate.Canary.EntryApproval.{
  ApprovalCoder, CanaryEntryApprovalIntent, EntryApprovalError, canary_e0_entry_approval_r0, weth9,
  address, of_parent_result, derive_canary_entry_approval_action_id, assert_matches_parent_buy,
  assert_canary_approval_calldata,
}
use sentry_forensic_gate.Canary.Actions.{ActionRow, ActionError, allowance_not_exact}

-- `CanaryEntryApprovalActionRecord`, less the columns of `ActionRow`.
pub record EntryColumns : Type 0 where
  pub parent_buy_action_id : Text
  pub launch_id : Text
  pub baseline_id : Text
  pub intent : CanaryEntryApprovalIntent
  pub observed_allowance_before : ℕ
  pub observed_allowance_after : Option ℕ

-- What a row has beside its record.
pub record StoredColumns : Type 0 where
  pub columns : EntryColumns
  pub parent_buy_digest : Option Text
  pub parent_buy_intent : Option CanarySwapIntent

abbrev pub EntryRecord : Type 0
EntryRecord = ActionRow EntryColumns

abbrev pub EntryRow : Type 0
EntryRow = ActionRow StoredColumns

abbrev pub with_payload : {P Q : Type 0} → Q → ActionRow P → ActionRow Q
with_payload q r = record {
  action_id = r.action_id;
  state = r.state;
  nonce = r.nonce;
  transaction_hash = r.transaction_hash;
  serialized_transaction = r.serialized_transaction;
  last_error = r.last_error;
  created_at_ms = r.created_at_ms;
  updated_at_ms = r.updated_at_ms;
  payload = q;
}

abbrev pub from_row : EntryRow → EntryRecord
from_row r = with_payload r.payload.columns r

abbrev pub to_row : Text → CanarySwapIntent → EntryRecord → EntryRow
to_row digest buy r =
    with_payload
      (record {
        columns = r.payload;
        parent_buy_digest = some digest;
        parent_buy_intent = some buy;
      })
      r

-- The codes of the errors, without their prefix CANARY_ENTRY_APPROVAL_.
pub data EntryStoreError : Type 0 where
  of_intent : EntryApprovalError → EntryStoreError
  of_action : ActionError → EntryStoreError
  initial_state_invalid : CanaryActionState → EntryStoreError
  dirty_allowance : ℕ → EntryStoreError
  record_version_invalid record_notional_invalid token_must_equal_weth9 : EntryStoreError
  intent_action_id_mismatch parent_buy_mismatch intent_identity_mismatch : EntryStoreError
  parent_buy_identity_drift action_id_drift insert_rejected : EntryStoreError
  parent_buy_authority_missing parent_buy_digest_mismatch : EntryStoreError
  parent_buy_digest_drift : EntryStoreError
  action_missing signing_capability_invalid : Text → EntryStoreError
  signing_authority_not_consumed : Text → EntryStoreError
  sign_state_invalid cleanup_invalid_state : CanaryActionState → EntryStoreError
  cleanup_terminal_allowance_not_zero : Option ℕ → EntryStoreError
  cleanup_terminal_reason_drift : EntryStoreError
  cleanup_terminal_transition_failed : Text → EntryStoreError

abbrev pub of_intent_result : {A : Type 0} → Result EntryApprovalError A → Result EntryStoreError A
of_intent_result (ok a) = ok a
of_intent_result (err e) = err (of_intent e)

-- `sha256Hex(parentBuyIntent)`
unfoldable pub buy_digest : (Json → Text) → CanarySwapIntent → Text
buy_digest digest b = sha256_hex digest (
    obj (
      field (codes "version") (str b.version) (
        field (codes "actionId") (str b.action_id) (
          field (codes "launchId") (str b.launch_id) (
            field (codes "baselineId") (str b.baseline_id) (
              field (codes "router") (str b.router) (
                field (codes "quoteBlockNumber") (bigint b.quote_block_number) (
                  field (codes "quoteBlockHash") (str b.quote_block_hash) (
                    field (codes "tokenIn") (str b.token_in) (
                      field (codes "tokenOut") (str b.token_out) (
                        field (codes "fee") (num b.fee) (
                          field (codes "recipient") (str b.recipient) (
                            field (codes "notionalUsdMicros") (bigint b.notional_usd_micros) (
                              field (codes "amountIn") (bigint b.amount_in) (
                                field (codes "quotedAmountOut") (bigint b.quoted_amount_out) (
                                  field (codes "amountOutMinimum") (bigint b.amount_out_minimum) (
                                    field (codes "slippageBps") (num b.slippage_bps) (
                                      field (codes "deadlineEpochSeconds")
                                        (bigint b.deadline_epoch_seconds)
                                        (field (codes "calldata") (str b.calldata) (
                                          field (codes "value") (bigint b.value)
                                            end))))))))))))))))))))

-- What an inclusion must have observed.
unfoldable pub accept_exact : StoredColumns → ℕ → Result ActionError StoredColumns
accept_exact p observed = do
  throw_if (not (observed == p.columns.intent.amount))
      (allowance_not_exact observed p.columns.intent.amount)
  let columns = p.columns
  ok (record p { columns = record columns { observed_allowance_after = some observed } })

module _ (platform : Platform) (coder : ApprovalCoder) where
  -- The parameters of the digest are fields of the record and of its intent.
  unfoldable pub assert_record_identity : EntryRecord → Result EntryStoreError (Unit {0})
  assert_record_identity r = do
    let p = r.payload
    let intent = p.intent
    throw_if (not (text_eq intent.version canary_e0_entry_approval_r0)) record_version_invalid
    throw_if (not (intent.notional_usd_micros == canary_primary_notional_usd_micros))
        record_notional_invalid
    token ← of_intent_result (address platform coder intent.token)
    weth ← of_intent_result (address platform coder weth9)
    throw_if (not (text_eq token weth)) token_must_equal_weth9
    throw_if (not (text_eq intent.action_id r.action_id)) intent_action_id_mismatch
    throw_if (not (text_eq intent.parent_buy_action_id p.parent_buy_action_id)) parent_buy_mismatch
    throw_if
        (not (text_eq intent.launch_id p.launch_id)
          || not (text_eq intent.baseline_id p.baseline_id))
        intent_identity_mismatch
    expected_buy ←
        of_intent_result
          (of_parent_result (derive_canary_action_id platform p.launch_id p.baseline_id))
    throw_if (not (text_eq p.parent_buy_action_id expected_buy)) parent_buy_identity_drift
    expected ← of_intent_result (
        derive_canary_entry_approval_action_id platform coder (record intent {
          parent_buy_action_id = p.parent_buy_action_id;
          launch_id = p.launch_id;
          baseline_id = p.baseline_id;
        }))
    throw_if (not (text_eq r.action_id expected)) action_id_drift

  -- The throws of `insertReserved` before its INSERT.
  unfoldable pub check_insertion :
      EntryRecord → CanarySwapIntent → Result EntryStoreError (Unit {0})
  unfolding assert_record_identity
  check_insertion r buy = do
    throw_if (not (state_eq r.state reserved)) (initial_state_invalid r.state)
    throw_if (not (r.payload.observed_allowance_before == 0))
        (dirty_allowance r.payload.observed_allowance_before)
    assert_record_identity r
    of_intent_result (assert_matches_parent_buy platform coder r.payload.intent buy)
    of_intent_result (
        assert_canary_approval_calldata platform coder r.payload.intent.spender
          r.payload.intent.amount r.payload.intent.calldata)
