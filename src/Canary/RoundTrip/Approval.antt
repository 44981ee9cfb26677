-- ===== src/Canary/RoundTrip/Approval.antt =====
-- src/canary/approval.ts: the exact approval that an exit needs.
use sentry_forensic_gate.Base.{
  ℕ, ◌||◌, not, [], Text, codes, is_empty, ◌==◌, text_eq, if◌then◌else◌,
}
use sentry_forensic_gate.Base.Result.{Result, ok, err, ◌>>=◌, ◌>>◌, throw_if}
use sentry_forensic_gate.Evidence.Canonical.{bigint, str, obj, end, field, sha256_hex}
use sentry_forensic_gate.Canary.Types.{CanarySwapIntent, CanaryError}
use sentry_forensic_gate.Canary.SwapIntent.{
  Platform, canary_sniper_r0, canary_primary_notional_usd_micros, ink_swap_router_02, get_address,
  derive_canary_action_id,
}
use sentry_forensic_gate.Canary.EntryApproval.{
  ApprovalCoder, EntryApprovalError, erc20_max_uint256, assert_canary_approval_calldata,
}
use sentry_forensic_gate.Canary.RoundTrip.{ExitError, derive_canary_exit_action_id}

abbrev pub canary_e0_approval_r0 : Text
canary_e0_approval_r0 = codes "CANARY_E0_APPROVAL_R0"

pub record CanaryApprovalIntent : Type 0 where
  pub version : Text
  pub action_id : Text
  pub parent_buy_action_id : Text
  pub parent_exit_action_id : Text
  pub launch_id : Text
  pub baseline_id : Text
  pub owner : Text
  pub token : Text
  pub spender : Text
  pub amount : ℕ
  pub calldata : Text

pub data AllowanceDisposition : Type 0 where
  approve_exact blocked_dirty_allowance : AllowanceDisposition

-- The codes of the errors, without their prefix CANARY_APPROVAL_. What the check of the calldata
-- throws has the codes of src/canary/entryApproval.ts.
pub data ApprovalError : Type 0 where
  of_swap : CanaryError → ApprovalError
  of_exit : ExitError → ApprovalError
  of_calldata : EntryApprovalError → ApprovalError
  identity_required amount_must_be_positive infinite_allowance_forbidden : ApprovalError
  spender_must_equal_router : Text → ApprovalError
  parent_version_invalid parent_notional_invalid parent_value_invalid : ApprovalError
  parent_router_invalid : Text → ApprovalError
  parent_identity_missing parent_buy_identity_drift action_id_collision : ApprovalError

abbrev pub approval_of_swap : {A : Type 0} → Result CanaryError A → Result ApprovalError A
approval_of_swap (ok a) = ok a
approval_of_swap (err e) = err (of_swap e)

abbrev pub approval_of_exit : {A : Type 0} → Result ExitError A → Result ApprovalError A
approval_of_exit (ok a) = ok a
approval_of_exit (err e) = err (of_exit e)

abbrev pub approval_of_calldata :
    {A : Type 0} → Result EntryApprovalError A → Result ApprovalError A
approval_of_calldata (ok a) = ok a
approval_of_calldata (err e) = err (of_calldata e)

unfoldable pub assert_exact_approval_amount : ℕ → Result ApprovalError (Unit {0})
assert_exact_approval_amount amount = do
  throw_if (amount == 0) amount_must_be_positive
  throw_if (amount == erc20_max_uint256) infinite_allowance_forbidden

unfoldable pub classify_canary_approval_allowance :
    ℕ → ℕ → Result ApprovalError AllowanceDisposition
unfolding assert_exact_approval_amount
classify_canary_approval_allowance current required = do
  assert_exact_approval_amount required
  ok (if current == 0 then approve_exact else blocked_dirty_allowance)

module _ (platform : Platform) (coder : ApprovalCoder) where
  abbrev pub approval_address : Text → Result ApprovalError Text
  approval_address a = approval_of_swap (get_address platform a)

  -- The parameters are the fields of an intent that it reads.
  unfoldable pub derive_canary_approval_action_id : CanaryApprovalIntent → Result ApprovalError Text
  unfolding assert_exact_approval_amount
  derive_canary_approval_action_id p = do
    throw_if
        (is_empty p.parent_buy_action_id
          || is_empty p.parent_exit_action_id
          || is_empty p.launch_id
          || is_empty p.baseline_id)
        identity_required
    assert_exact_approval_amount p.amount
    spender ← approval_address p.spender
    throw_if (not (text_eq spender (ink_swap_router_02 platform)))
        (spender_must_equal_router spender)
    owner ← approval_address p.owner
    token ← approval_address p.token
    ok (
        sha256_hex platform.digest (
          obj (
            field (codes "kind") (str canary_e0_approval_r0) (
              field (codes "parentBuyActionId") (str p.parent_buy_action_id) (
                field (codes "parentExitActionId") (str p.parent_exit_action_id) (
                  field (codes "launchId") (str p.launch_id) (
                    field (codes "baselineId") (str p.baseline_id) (
                      field (codes "owner") (str owner) (
                        field (codes "token") (str token) (
                          field (codes "spender") (str spender) (
                            field (codes "amount") (bigint p.amount) (
                              field (codes "notionalUsdMicros")
                                (bigint canary_primary_notional_usd_micros) end))))))))))))

  unfoldable pub assert_canonical_parent_buy : CanarySwapIntent → Result ApprovalError (Unit {0})
  assert_canonical_parent_buy intent = do
    throw_if (not (text_eq intent.version canary_sniper_r0)) parent_version_invalid
    throw_if (not (intent.notional_usd_micros == canary_primary_notional_usd_micros))
        parent_notional_invalid
    throw_if (not (intent.value == 0)) parent_value_invalid
    router ← approval_address intent.router
    throw_if (not (text_eq router (ink_swap_router_02 platform)))
        (parent_router_invalid intent.router)
    throw_if (is_empty intent.action_id || is_empty intent.launch_id || is_empty intent.baseline_id)
        parent_identity_missing

  -- The first half of `buildCanaryApprovalIntent`: all of the intent but its identity.
  unfoldable pub exit_approval_fields :
      CanarySwapIntent → ℕ → Result ApprovalError CanaryApprovalIntent
  unfolding assert_canonical_parent_buy assert_exact_approval_amount
  exit_approval_fields buy acquired = do
    assert_canonical_parent_buy buy
    assert_exact_approval_amount acquired
    expected ← approval_of_swap (derive_canary_action_id platform buy.launch_id buy.baseline_id)
    throw_if (not (text_eq buy.action_id expected)) parent_buy_identity_drift
    owner ← approval_address buy.recipient
    token ← approval_address buy.token_out
    spender ← approval_address buy.router
    throw_if (not (text_eq spender (ink_swap_router_02 platform)))
        (spender_must_equal_router spender)
    parent_exit_action_id ←
        approval_of_exit
          (derive_canary_exit_action_id platform buy.action_id buy.launch_id buy.baseline_id)
    ok (record {
      version = canary_e0_approval_r0;
      action_id = [];
      parent_buy_action_id = buy.action_id;
      parent_exit_action_id = parent_exit_action_id;
      launch_id = buy.launch_id;
      baseline_id = buy.baseline_id;
      owner = owner;
      token = token;
      spender = spender;
      amount = acquired;
      calldata = coder.encode_approve spender acquired;
    })

  unfoldable pub build_canary_approval_intent :
      CanarySwapIntent → ℕ → Result ApprovalError CanaryApprovalIntent
  unfolding exit_approval_fields derive_canary_approval_action_id
  build_canary_approval_intent buy acquired = do
    intent ← exit_approval_fields buy acquired
    action_id ← derive_canary_approval_action_id intent
    throw_if (text_eq action_id buy.action_id || text_eq action_id intent.parent_exit_action_id)
        action_id_collision
    approval_of_calldata (
        assert_canary_approval_calldata platform coder intent.spender intent.amount intent.calldata)
    ok (record intent { action_id = action_id })
