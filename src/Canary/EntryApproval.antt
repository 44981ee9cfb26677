-- ===== src/Canary/EntryApproval.antt =====
-- src/canary/entryApproval.ts, with the calldata check of src/canary/approval.ts: the exact approval
-- that a canary signs before its buy. viem's coder is a parameter beside those of the swap intent.
pub mod Bound
pub mod Tests
use sentry_forensic_gate.Base.{
  ℕ, ◌-◌, ◌^◌, ◌||◌, not, [], ◌∷◌, Text, codes, is_empty, ltb, ◌==◌, text_eq, to_lower_case,
}
use sentry_forensic_gate.Base.Result.{Result, ok, err, ◌>>=◌, ◌>>◌, throw_if}
use sentry_forensic_gate.Evidence.Canonical.{Json, num, bigint, str, obj, end, field, sha256_hex}
use sentry_forensic_gate.Canary.Types.{CanarySwapIntent, CanaryError}
use sentry_forensic_gate.Canary.SwapIntent.{
  Platform, get_address, ink_swap_router_02, derive_canary_action_id, canary_sniper_r0,
  canary_primary_notional_usd_micros,
}

abbrev pub canary_e0_entry_approval_r0 : Text
canary_e0_entry_approval_r0 = codes "CANARY_E0_ENTRY_APPROVAL_R0"

unfoldable pub erc20_max_uint256 : ℕ
erc20_max_uint256 = 2 ^ 256 - 1

-- `weth` of src/authority/executableInfraAuthority.ts
unfoldable pub weth9 : Text
weth9 = codes "0x4200000000000000000000000000000000000006"

-- What `decodeFunctionData` makes of calldata for `erc20ApprovalAbi`: it throws, it finds another
-- function, or it finds `approve`.
pub data DecodedCall : Type 0 where
  undecodable other_function : DecodedCall
  approve : Text → ℕ → DecodedCall

pub record ApprovalCoder : Type 0 where
  pub encode_approve : Text → ℕ → Text
  pub decode : Text → DecodedCall

pub record CanaryEntryApprovalIntent : Type 0 where
  pub version : Text
  pub action_id : Text
  pub parent_buy_action_id : Text
  pub launch_id : Text
  pub baseline_id : Text
  pub owner : Text
  pub token : Text
  pub buy_token_out : Text
  pub buy_fee : ℕ
  pub spender : Text
  pub amount : ℕ
  pub source_quote_block_number : ℕ
  pub source_quote_block_hash : Text
  pub notional_usd_micros : ℕ
  pub calldata : Text

-- The codes of the errors, without their prefix CANARY_ENTRY_APPROVAL_.
pub data EntryApprovalError : Type 0 where
  -- an address that viem refuses, or an error of the parent's identity
  of_parent : CanaryError → EntryApprovalError
  identity_required amount_must_be_positive infinite_allowance_forbidden : EntryApprovalError
  buy_fee_invalid : ℕ → EntryApprovalError
  token_must_equal_weth9 spender_must_equal_router : Text → EntryApprovalError
  parent_version_invalid parent_notional_invalid parent_value_invalid : EntryApprovalError
  parent_router_invalid parent_token_in_invalid parent_identity_missing : EntryApprovalError
  parent_buy_identity_drift action_id_collision : EntryApprovalError
  calldata_spender_not_canonical calldata_undecodable calldata_function_invalid : EntryApprovalError
  calldata_spender_mismatch calldata_amount_mismatch : EntryApprovalError
  version_invalid binding_action_id_mismatch binding_buy_id_mismatch : EntryApprovalError
  binding_identity_mismatch binding_owner_mismatch binding_token_mismatch : EntryApprovalError
  binding_token_out_mismatch binding_fee_mismatch binding_spender_mismatch : EntryApprovalError
  binding_amount_mismatch binding_quote_block_mismatch : EntryApprovalError
  binding_quote_hash_mismatch notional_invalid binding_calldata_mismatch : EntryApprovalError
  buy_action_id_mismatch buy_identity_mismatch buy_owner_mismatch : EntryApprovalError
  buy_token_in_mismatch buy_token_out_mismatch buy_fee_mismatch : EntryApprovalError
  buy_router_mismatch buy_amount_mismatch buy_notional_mismatch : EntryApprovalError

abbrev pub of_parent_result : {A : Type 0} → Result CanaryError A → Result EntryApprovalError A
of_parent_result (ok a) = ok a
of_parent_result (err e) = err (of_parent e)

unfoldable pub assert_entry_approval_amount : ℕ → Result EntryApprovalError (Unit {0})
assert_entry_approval_amount amount = do
  throw_if (amount == 0) amount_must_be_positive
  throw_if (amount == erc20_max_uint256) infinite_allowance_forbidden

module _ (platform : Platform) (coder : ApprovalCoder) where
  abbrev pub address : Text → Result EntryApprovalError Text
  address a = of_parent_result (get_address platform a)

  -- `getAddress(a) !== getAddress(b)`
  abbrev pub differ : Text → Text → EntryApprovalError → Result EntryApprovalError (Unit {0})
  differ a b e = do x ← address a; y ← address b; throw_if (not (text_eq x y)) e

  -- The parameters are the fields of an intent that it reads.
  unfoldable pub derive_canary_entry_approval_action_id :
      CanaryEntryApprovalIntent → Result EntryApprovalError Text
  unfolding assert_entry_approval_amount
  derive_canary_entry_approval_action_id p = do
    throw_if (is_empty p.parent_buy_action_id || is_empty p.launch_id || is_empty p.baseline_id)
        identity_required
    assert_entry_approval_amount p.amount
    throw_if (ltb 1_000_000 p.buy_fee) (buy_fee_invalid p.buy_fee)
    token ← address p.token
    weth ← address weth9
    throw_if (not (text_eq token weth)) (token_must_equal_weth9 token)
    spender ← address p.spender
    throw_if (not (text_eq spender (ink_swap_router_02 platform)))
        (spender_must_equal_router spender)
    owner ← address p.owner
    buy_token_out ← address p.buy_token_out
    ok (
        sha256_hex platform.digest (
          obj (
            field (codes "kind") (str canary_e0_entry_approval_r0) (
              field (codes "parentBuyActionId") (str p.parent_buy_action_id) (
                field (codes "launchId") (str p.launch_id) (
                  field (codes "baselineId") (str p.baseline_id) (
                    field (codes "owner") (str owner) (
                      field (codes "token") (str token) (
                        field (codes "buyTokenOut") (str buy_token_out) (
                          field (codes "buyFee") (num p.buy_fee) (
                            field (codes "spender") (str spender) (
                              field (codes "amount") (bigint p.amount) (
                                field (codes "sourceQuoteBlockNumber")
                                  (bigint p.source_quote_block_number)
                                  (field (codes "sourceQuoteBlockHash")
                                    (str (to_lower_case p.source_quote_block_hash))
                                    (field (codes "notionalUsdMicros")
                                      (bigint canary_primary_notional_usd_micros) end)))))))))))))))

  unfoldable pub assert_canonical_buy : CanarySwapIntent → Result EntryApprovalError (Unit {0})
  assert_canonical_buy intent = do
    throw_if (not (text_eq intent.version canary_sniper_r0)) parent_version_invalid
    throw_if (not (intent.notional_usd_micros == canary_primary_notional_usd_micros))
        parent_notional_invalid
    throw_if (not (intent.value == 0)) parent_value_invalid
    router ← address intent.router
    throw_if (not (text_eq router (ink_swap_router_02 platform))) parent_router_invalid
    differ intent.token_in weth9 parent_token_in_invalid
    throw_if (is_empty intent.action_id || is_empty intent.launch_id || is_empty intent.baseline_id)
        parent_identity_missing

  unfoldable pub check_decoded : Text → ℕ → DecodedCall → Result EntryApprovalError (Unit {0})
  check_decoded spender amount undecodable = err calldata_undecodable
  check_decoded spender amount other_function = err calldata_function_invalid
  check_decoded spender amount (approve decoded_spender decoded_amount) = do
    differ decoded_spender spender calldata_spender_mismatch
    throw_if (not (decoded_amount == amount)) calldata_amount_mismatch

  -- `assertCanaryApprovalCalldata` of src/canary/approval.ts, whose amount check is the same.
  unfoldable pub assert_canary_approval_calldata :
      Text → ℕ → Text → Result EntryApprovalError (Unit {0})
  unfolding check_decoded assert_entry_approval_amount
  assert_canary_approval_calldata spender amount calldata = do
    assert_entry_approval_amount amount
    canonical ← address spender
    throw_if (not (text_eq canonical (ink_swap_router_02 platform))) calldata_spender_not_canonical
    check_decoded spender amount (coder.decode calldata)

  -- The first half of `buildCanaryEntryApprovalIntent`: all of the intent but its identity.
  unfoldable pub approval_fields :
      CanarySwapIntent → Result EntryApprovalError CanaryEntryApprovalIntent
  unfolding assert_canonical_buy assert_entry_approval_amount
  approval_fields buy = do
    assert_canonical_buy buy
    expected ← of_parent_result (derive_canary_action_id platform buy.launch_id buy.baseline_id)
    throw_if (not (text_eq buy.action_id expected)) parent_buy_identity_drift
    assert_entry_approval_amount buy.amount_in
    owner ← address buy.recipient
    token ← address buy.token_in
    buy_token_out ← address buy.token_out
    spender ← address buy.router
    weth ← address weth9
    throw_if (not (text_eq token weth)) (token_must_equal_weth9 token)
    throw_if (not (text_eq spender (ink_swap_router_02 platform)))
        (spender_must_equal_router spender)
    ok (record {
      version = canary_e0_entry_approval_r0;
      action_id = [];
      parent_buy_action_id = buy.action_id;
      launch_id = buy.launch_id;
      baseline_id = buy.baseline_id;
      owner = owner;
      token = token;
      buy_token_out = buy_token_out;
      buy_fee = buy.fee;
      spender = spender;
      amount = buy.amount_in;
      source_quote_block_number = buy.quote_block_number;
      source_quote_block_hash = buy.quote_block_hash;
      notional_usd_micros = canary_primary_notional_usd_micros;
      calldata = coder.encode_approve spender buy.amount_in;
    })

  unfoldable pub build_canary_entry_approval_intent :
      CanarySwapIntent → Result EntryApprovalError CanaryEntryApprovalIntent
  unfolding approval_fields derive_canary_entry_approval_action_id assert_canary_approval_calldata
  build_canary_entry_approval_intent buy = do
    intent ← approval_fields buy
    action_id ← derive_canary_entry_approval_action_id intent
    throw_if (text_eq action_id buy.action_id) action_id_collision
    assert_canary_approval_calldata intent.spender intent.amount intent.calldata
    ok (record intent { action_id = action_id })

  unfoldable pub assert_matches_parent_buy :
      CanaryEntryApprovalIntent → CanarySwapIntent → Result EntryApprovalError (Unit {0})
  unfolding build_canary_entry_approval_intent
  assert_matches_parent_buy intent buy = do
    expected ← build_canary_entry_approval_intent buy
    throw_if (not (text_eq intent.version expected.version)) version_invalid
    throw_if (not (text_eq intent.action_id expected.action_id)) binding_action_id_mismatch
    throw_if (not (text_eq intent.parent_buy_action_id expected.parent_buy_action_id))
        binding_buy_id_mismatch
    throw_if
        (not (text_eq intent.launch_id expected.launch_id)
          || not (text_eq intent.baseline_id expected.baseline_id))
        binding_identity_mismatch
    differ intent.owner expected.owner binding_owner_mismatch
    differ intent.token expected.token binding_token_mismatch
    differ intent.buy_token_out expected.buy_token_out binding_token_out_mismatch
    throw_if (not (intent.buy_fee == expected.buy_fee)) binding_fee_mismatch
    differ intent.spender expected.spender binding_spender_mismatch
    throw_if (not (intent.amount == expected.amount)) binding_amount_mismatch
    throw_if (not (intent.source_quote_block_number == expected.source_quote_block_number))
        binding_quote_block_mismatch
    throw_if
        (not (
          text_eq (to_lower_case intent.source_quote_block_hash)
            (to_lower_case expected.source_quote_block_hash)))
        binding_quote_hash_mismatch
    throw_if (not (intent.notional_usd_micros == canary_primary_notional_usd_micros))
        notional_invalid
    throw_if (not (text_eq (to_lower_case intent.calldata) (to_lower_case expected.calldata)))
        binding_calldata_mismatch

  unfoldable pub assert_covers_buy :
      CanaryEntryApprovalIntent → CanarySwapIntent → Result EntryApprovalError (Unit {0})
  unfolding assert_canonical_buy
  assert_covers_buy approval buy = do
    assert_canonical_buy buy
    throw_if (not (text_eq approval.parent_buy_action_id buy.action_id)) buy_action_id_mismatch
    throw_if
        (not (text_eq approval.launch_id buy.launch_id)
          || not (text_eq approval.baseline_id buy.baseline_id))
        buy_identity_mismatch
    differ approval.owner buy.recipient buy_owner_mismatch
    differ approval.token buy.token_in buy_token_in_mismatch
    differ approval.buy_token_out buy.token_out buy_token_out_mismatch
    throw_if (not (approval.buy_fee == buy.fee)) buy_fee_mismatch
    differ approval.spender buy.router buy_router_mismatch
    throw_if (not (approval.amount == buy.amount_in)) buy_amount_mismatch
    throw_if (not (approval.notional_usd_micros == buy.notional_usd_micros)) buy_notional_mismatch
