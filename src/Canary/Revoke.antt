-- ===== src/Canary/Revoke.antt =====
-- src/canary/entryApprovalRevoke.ts: the approval of 0 that takes an entry approval back. What
-- `decodeFunctionData` throws has a code here too.
pub mod Covers
pub mod Store
mod Tests
use sentry_forensic_gate.Base.{ℕ, ◌||◌, not, [], Text, codes, is_empty, ◌==◌, text_eq}
use sentry_forensic_gate.Base.Result.{Result, ok, err, ◌>>=◌, ◌>>◌, throw_if}
use sentry_forensic_gate.Evidence.Canonical.{bigint, str, obj, end, field, sha256_hex}
use sentry_forensic_gate.Canary.SwapIntent.{Platform, ink_swap_router_02}
use sentry_forensic_gate.Canary.EntryApproval.{
  ApprovalCoder, DecodedCall, undecodable, other_function, approve, CanaryEntryApprovalIntent,
  EntryApprovalError, canary_e0_entry_approval_r0, erc20_max_uint256, address,
  assert_canary_approval_calldata,
}

abbrev pub canary_e0_entry_approval_revoke_r0 : Text
canary_e0_entry_approval_revoke_r0 = codes "CANARY_E0_ENTRY_APPROVAL_REVOKE_R0"

pub record CanaryEntryApprovalRevokeIntent : Type 0 where
  pub version : Text
  pub action_id : Text
  pub parent_entry_approval_action_id : Text
  pub parent_buy_action_id : Text
  pub launch_id : Text
  pub baseline_id : Text
  pub owner : Text
  pub token : Text
  pub spender : Text
  pub expected_allowance : ℕ
  pub amount : ℕ
  pub calldata : Text

-- The codes of the errors, without their prefix CANARY_ENTRY_APPROVAL_REVOKE_.
pub data RevokeError : Type 0 where
  of_approval : EntryApprovalError → RevokeError
  identity_required : RevokeError
  spender_must_equal_router : Text → RevokeError
  action_id_collision parent_approval_mismatch parent_buy_mismatch : RevokeError
  parent_identity_mismatch owner_mismatch token_mismatch spender_mismatch : RevokeError
  allowance_mismatch amount_nonzero calldata_spender_not_canonical : RevokeError
  calldata_undecodable calldata_function_invalid calldata_spender_mismatch : RevokeError
  calldata_amount_not_zero parent_version_invalid parent_spender_invalid : RevokeError
  parent_identity_missing expected_allowance_must_be_positive : RevokeError
  infinite_allowance_forbidden : RevokeError

abbrev pub of_approval_result : {A : Type 0} → Result EntryApprovalError A → Result RevokeError A
of_approval_result (ok a) = ok a
of_approval_result (err e) = err (of_approval e)

unfoldable pub assert_expected_allowance : ℕ → Result RevokeError (Unit {0})
assert_expected_allowance amount = do
  throw_if (amount == 0) expected_allowance_must_be_positive
  throw_if (amount == erc20_max_uint256) infinite_allowance_forbidden

module _ (platform : Platform) (coder : ApprovalCoder) where
  abbrev pub revoke_address : Text → Result RevokeError Text
  revoke_address a = of_approval_result (address platform coder a)

  -- `getAddress(a) !== getAddress(b)`
  abbrev pub revoke_differ : Text → Text → RevokeError → Result RevokeError (Unit {0})
  revoke_differ a b e = do
    x ← revoke_address a
    y ← revoke_address b
    throw_if (not (text_eq x y)) e

  -- The parameters are the fields of an intent that it reads.
  unfoldable pub derive_revoke_action_id : CanaryEntryApprovalRevokeIntent → Result RevokeError Text
  unfolding assert_expected_allowance
  derive_revoke_action_id p = do
    throw_if
        (is_empty p.parent_entry_approval_action_id
          || is_empty p.parent_buy_action_id
          || is_empty p.launch_id
          || is_empty p.baseline_id)
        identity_required
    assert_expected_allowance p.expected_allowance
    spender ← revoke_address p.spender
    throw_if (not (text_eq spender (ink_swap_router_02 platform)))
        (spender_must_equal_router spender)
    owner ← revoke_address p.owner
    token ← revoke_address p.token
    ok (
        sha256_hex platform.digest (
          obj (
            field (codes "kind") (str canary_e0_entry_approval_revoke_r0) (
              field (codes "parentEntryApprovalActionId") (str p.parent_entry_approval_action_id) (
                field (codes "parentBuyActionId") (str p.parent_buy_action_id) (
                  field (codes "launchId") (str p.launch_id) (
                    field (codes "baselineId") (str p.baseline_id) (
                      field (codes "owner") (str owner) (
                        field (codes "token") (str token) (
                          field (codes "spender") (str spender) (
                            field (codes "expectedAllowance") (bigint p.expected_allowance)
                              (field (codes "amount") (bigint 0) end))))))))))))

  unfoldable pub check_revoke_call : Text → DecodedCall → Result RevokeError (Unit {0})
  check_revoke_call spender undecodable = err calldata_undecodable
  check_revoke_call spender other_function = err calldata_function_invalid
  check_revoke_call spender (approve decoded_spender decoded_amount) = do
    revoke_differ decoded_spender spender calldata_spender_mismatch
    throw_if (not (decoded_amount == 0)) calldata_amount_not_zero

  unfoldable pub assert_revoke_calldata :
      CanaryEntryApprovalRevokeIntent → Result RevokeError (Unit {0})
  unfolding assert_expected_allowance check_revoke_call
  assert_revoke_calldata intent = do
    assert_expected_allowance intent.expected_allowance
    throw_if (not (intent.amount == 0)) amount_nonzero
    spender ← revoke_address intent.spender
    throw_if (not (text_eq spender (ink_swap_router_02 platform))) calldata_spender_not_canonical
    check_revoke_call intent.spender (coder.decode intent.calldata)

  unfoldable pub assert_canonical_parent : CanaryEntryApprovalIntent → Result RevokeError (Unit {0})
  unfolding assert_expected_allowance
  assert_canonical_parent parent = do
    throw_if (not (text_eq parent.version canary_e0_entry_approval_r0)) parent_version_invalid
    of_approval_result (
        assert_canary_approval_calldata platform coder parent.spender parent.amount parent.calldata)
    assert_expected_allowance parent.amount
    spender ← revoke_address parent.spender
    throw_if (not (text_eq spender (ink_swap_router_02 platform))) parent_spender_invalid
    throw_if
        (is_empty parent.action_id
          || is_empty parent.parent_buy_action_id
          || is_empty parent.launch_id
          || is_empty parent.baseline_id)
        parent_identity_missing

  -- The first half of `buildCanaryEntryApprovalRevokeIntent`: all of the intent but its identity.
  unfoldable pub revoke_fields :
      CanaryEntryApprovalIntent → Result RevokeError CanaryEntryApprovalRevokeIntent
  unfolding assert_canonical_parent
  revoke_fields parent = do
    assert_canonical_parent parent
    owner ← revoke_address parent.owner
    token ← revoke_address parent.token
    spender ← revoke_address parent.spender
    ok (record {
      version = canary_e0_entry_approval_revoke_r0;
      action_id = [];
      parent_entry_approval_action_id = parent.action_id;
      parent_buy_action_id = parent.parent_buy_action_id;
      launch_id = parent.launch_id;
      baseline_id = parent.baseline_id;
      owner = owner;
      token = token;
      spender = spender;
      expected_allowance = parent.amount;
      amount = 0;
      calldata = coder.encode_approve spender 0;
    })

  unfoldable pub build_revoke_intent :
      CanaryEntryApprovalIntent → Result RevokeError CanaryEntryApprovalRevokeIntent
  unfolding revoke_fields derive_revoke_action_id assert_revoke_calldata
  build_revoke_intent parent = do
    intent ← revoke_fields parent
    action_id ← derive_revoke_action_id intent
    throw_if (text_eq action_id parent.action_id || text_eq action_id parent.parent_buy_action_id)
        action_id_collision
    assert_revoke_calldata intent
    ok (record intent { action_id = action_id })

  unfoldable pub assert_covers_parent :
      CanaryEntryApprovalRevokeIntent → CanaryEntryApprovalIntent → Result RevokeError (Unit {0})
  unfolding assert_canonical_parent assert_revoke_calldata
  assert_covers_parent revoke parent = do
    assert_canonical_parent parent
    throw_if (not (text_eq revoke.parent_entry_approval_action_id parent.action_id))
        parent_approval_mismatch
    throw_if (not (text_eq revoke.parent_buy_action_id parent.parent_buy_action_id))
        parent_buy_mismatch
    throw_if
        (not (text_eq revoke.launch_id parent.launch_id)
          || not (text_eq revoke.baseline_id parent.baseline_id))
        parent_identity_mismatch
    revoke_differ revoke.owner parent.owner owner_mismatch
    revoke_differ revoke.token parent.token token_mismatch
    revoke_differ revoke.spender parent.spender spender_mismatch
    throw_if (not (revoke.expected_allowance == parent.amount)) allowance_mismatch
    throw_if (not (revoke.amount == 0)) amount_nonzero
    assert_revoke_calldata revoke
