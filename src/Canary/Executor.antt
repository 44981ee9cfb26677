-- ===== src/Canary/Executor.antt =====
-- src/canary/viemCanaryExecutor.ts: its types, and the guards that read no chain. viem's codecs are
-- the parameter `Viem`, where `none` is a throw.
pub mod Preflight
pub mod Signing
pub mod Reserved
pub mod Bound
pub mod Safe
pub mod Passed
pub mod Calls
pub mod Tests
use sentry_forensic_gate.Base.{
  ℕ, ◌-◌, ◌||◌, not, Bool, false, Option, none, some, Text, codes, text_eq, to_lower_case, leb, ltb,
  ◌==◌, if◌then◌else◌, get_or_else,
}
use sentry_forensic_gate.Base.Result.{Result, ok, err, ◌>>=◌, ◌>>◌, throw_if, or_throw}
use sentry_forensic_gate.Canary.Types.{CanaryError}
use sentry_forensic_gate.Canary.SwapIntent.{
  Platform, ink_swap_router_02, canary_max_deadline_seconds, get_address,
  canary_primary_notional_usd_micros,
}
use sentry_forensic_gate.Canary.EntryApproval.{
  ApprovalCoder, EntryApprovalError, CanaryEntryApprovalIntent, canary_e0_entry_approval_r0, weth9,
  assert_canary_approval_calldata,
}
use sentry_forensic_gate.Canary.EntryApprovalStore.Record.{EntryStoreError}
use sentry_forensic_gate.Canary.Revoke.{
  CanaryEntryApprovalRevokeIntent, RevokeError, canary_e0_entry_approval_revoke_r0,
  assert_revoke_calldata,
}
use sentry_forensic_gate.Canary.RoundTrip.Approval.{
  CanaryApprovalIntent, ApprovalError, canary_e0_approval_r0,
}

abbrev pub ink_chain_id : ℕ
ink_chain_id = 57_073

abbrev pub max_safe_integer : ℕ
max_safe_integer = 9_007_199_254_740_991

pub record CanaryExecutorCaps : Type 0 where
  pub max_quote_age_blocks : ℕ
  pub max_gas : ℕ
  pub max_fee_per_gas : ℕ
  pub max_priority_fee_per_gas : ℕ

pub record CanaryApprovalPreflight : Type 0 where
  pub action_id : Text
  pub wallet : Text
  pub token : Text
  pub spender : Text
  pub amount : ℕ
  pub checked_at_block : ℕ
  pub token_balance : ℕ
  pub allowance_before : ℕ
  pub gas : ℕ
  pub max_fee_per_gas : ℕ
  pub max_priority_fee_per_gas : ℕ

pub record CanaryApprovalRevokePreflight : Type 0 where
  pub action_id : Text
  pub wallet : Text
  pub token : Text
  pub spender : Text
  pub expected_allowance : ℕ
  pub amount : ℕ
  pub checked_at_block : ℕ
  pub allowance_before : ℕ
  pub gas : ℕ
  pub max_fee_per_gas : ℕ
  pub max_priority_fee_per_gas : ℕ

pub record CanaryPreflight : Type 0 where
  pub wallet : Text
  pub checked_at_block : ℕ
  pub input_balance : ℕ
  pub input_allowance : ℕ
  pub output_balance_before : ℕ
  pub gas : ℕ
  pub max_fee_per_gas : ℕ
  pub max_priority_fee_per_gas : ℕ

pub record CanaryChainClock : Type 0 where
  pub block_number : ℕ
  pub block_hash : Text
  pub timestamp_seconds : ℕ

pub record SignedCanaryTransaction : Type 0 where
  pub action_id : Text
  pub nonce : ℕ
  pub transaction_hash : Text
  pub serialized_transaction : Text
  pub serialized_transaction_keccak256 : Text
  pub gas : ℕ
  pub max_fee_per_gas : ℕ
  pub max_priority_fee_per_gas : ℕ

-- `CanaryExactApprovalIntent`
pub data ExactApproval : Type 0 where
  for_exit : CanaryApprovalIntent → ExactApproval
  for_entry : CanaryEntryApprovalIntent → ExactApproval

abbrev pub approval_action_id : ExactApproval → Text
approval_action_id (for_exit i) = i.action_id
approval_action_id (for_entry i) = i.action_id

abbrev pub approval_token : ExactApproval → Text
approval_token (for_exit i) = i.token
approval_token (for_entry i) = i.token

abbrev pub approval_spender : ExactApproval → Text
approval_spender (for_exit i) = i.spender
approval_spender (for_entry i) = i.spender

abbrev pub approval_amount : ExactApproval → ℕ
approval_amount (for_exit i) = i.amount
approval_amount (for_entry i) = i.amount

abbrev pub approval_calldata : ExactApproval → Text
approval_calldata (for_exit i) = i.calldata
approval_calldata (for_entry i) = i.calldata

-- What `parseTransaction` finds; a missing field is `none`.
pub record ParsedTransaction : Type 0 where
  pub chain_id : Option ℕ
  pub value : Option ℕ
  pub nonce : Option ℕ
  pub gas : Option ℕ
  pub max_fee_per_gas : Option ℕ
  pub max_priority_fee_per_gas : Option ℕ
  pub to : Option Text
  pub calldata : Option Text

pub record Viem : Type 0 where
  pub keccak256 : Text → Text
  pub parse_transaction : Text → Option ParsedTransaction
  pub recover_transaction_address : Text → Option Text

-- The codes of the errors.
pub data ExecutorError : Type 0 where
  of_address : CanaryError → ExecutorError
  of_entry : EntryApprovalError → ExecutorError
  of_revoke : RevokeError → ExecutorError
  of_amount : ApprovalError → ExecutorError
  of_store : EntryStoreError → ExecutorError
  -- what viem or the chain throws
  viem_failure : Text → ExecutorError
  quote_age_out_of_range gas_out_of_range fee_caps_invalid : ExecutorError
  gas_cap_exceeded max_fee_cap_exceeded priority_fee_cap_exceeded : ℕ → ℕ → ExecutorError
  head_behind_quote quote_stale : ℕ → ℕ → ExecutorError
  chain_timestamp_invalid : ℕ → ExecutorError
  deadline_expired : ExecutorError
  deadline_exceeds_max : ℕ → ExecutorError
  signed_identity_mismatch chain_id_mismatch value_nonzero nonce_mismatch : ExecutorError
  gas_mismatch max_fee_mismatch priority_fee_mismatch signer_mismatch : ExecutorError
  signed_action_id_mismatch signed_to_mismatch signed_calldata_mismatch : ExecutorError
  owner_must_equal_wallet spender_mismatch token_mismatch notional_invalid : ExecutorError
  version_invalid preflight_action_id_mismatch preflight_wallet_mismatch : ExecutorError
  preflight_token_mismatch preflight_spender_mismatch preflight_amount_mismatch : ExecutorError
  preflight_allowance_not_zero preflight_balance_insufficient : ExecutorError
  preflight_expected_allowance_mismatch preflight_amount_nonzero : ExecutorError
  preflight_allowance_not_exact swap_broadcast_router_mismatch : ExecutorError
  broadcast_signed_authority_unknown broadcast_hash_mismatch : ExecutorError
  clock_block_identity_missing : ExecutorError
  router_mismatch recipient_must_equal_wallet router_code_missing : ExecutorError
  router_factory_drift router_weth_drift quote_block_hash_missing quote_block_reorg : ExecutorError
  input_balance_insufficient input_allowance_insufficient : ℕ → ℕ → ExecutorError
  token_code_missing simulation_result_missing simulation_false : ExecutorError
  token_balance_insufficient allowance_not_exact : ℕ → ℕ → ExecutorError
  dirty_allowance : ℕ → ExecutorError
  sign_requires_reservation_capability : ExecutorError

-- An error of a callee, as one of the executor's.
abbrev pub under : {E A : Type 0} → (E → ExecutorError) → Result E A → Result ExecutorError A
under f (ok a) = ok a
under f (err e) = err (f e)

abbrev pub is_number : ℕ → Option ℕ → Bool
is_number n none = false
is_number n (some m) = m == n

unfoldable pub validate_caps : CanaryExecutorCaps → Result ExecutorError (Unit {0})
validate_caps caps = do
  throw_if (ltb 3 caps.max_quote_age_blocks) quote_age_out_of_range
  throw_if (caps.max_gas == 0 || ltb 1_000_000 caps.max_gas) gas_out_of_range
  throw_if (caps.max_fee_per_gas == 0 || ltb caps.max_fee_per_gas caps.max_priority_fee_per_gas)
      fee_caps_invalid

unfoldable pub assert_fee_and_gas_caps :
    ℕ → ℕ → ℕ → CanaryExecutorCaps → Result ExecutorError (Unit {0})
assert_fee_and_gas_caps gas max_fee max_priority caps = do
  throw_if (gas == 0 || ltb caps.max_gas gas) (gas_cap_exceeded gas caps.max_gas)
  throw_if (max_fee == 0 || ltb caps.max_fee_per_gas max_fee)
      (max_fee_cap_exceeded max_fee caps.max_fee_per_gas)
  throw_if (ltb caps.max_priority_fee_per_gas max_priority || ltb max_fee max_priority)
      (priority_fee_cap_exceeded max_priority caps.max_priority_fee_per_gas)

unfoldable pub assert_quote_fresh : ℕ → ℕ → ℕ → Result ExecutorError (Unit {0})
assert_quote_fresh quote_block head_block max_age = do
  throw_if (ltb head_block quote_block) (head_behind_quote head_block quote_block)
  throw_if (ltb max_age (head_block - quote_block)) (quote_stale quote_block head_block)

unfoldable pub assert_deadline_against_chain_clock : ℕ → ℕ → Result ExecutorError (Unit {0})
assert_deadline_against_chain_clock deadline timestamp = do
  throw_if (timestamp == 0) (chain_timestamp_invalid timestamp)
  throw_if (leb deadline timestamp) deadline_expired
  throw_if (ltb canary_max_deadline_seconds (deadline - timestamp))
      (deadline_exceeds_max (deadline - timestamp))

unfoldable pub block_timestamp_to_number : ℕ → Result ExecutorError ℕ
block_timestamp_to_number timestamp = do
  throw_if (timestamp == 0 || ltb max_safe_integer timestamp) (chain_timestamp_invalid timestamp)
  ok timestamp

module _ (platform : Platform) (coder : ApprovalCoder) (viem : Viem) (wallet : Text) where
  -- `getAddress(a) !== getAddress(b)`
  abbrev pub differ : Text → Text → ExecutorError → Result ExecutorError (Unit {0})
  differ a b e = do
    x ← under of_address (get_address platform a)
    y ← under of_address (get_address platform b)
    throw_if (not (text_eq x y)) e

  -- `getAddress(a) !== INK_SWAP_ROUTER_02`
  abbrev pub not_router : Text → ExecutorError → Result ExecutorError (Unit {0})
  not_router a e = do
    x ← under of_address (get_address platform a)
    throw_if (not (text_eq x (ink_swap_router_02 platform))) e

  abbrev pub parse : Text → Result ExecutorError ParsedTransaction
  parse serialized = or_throw (viem.parse_transaction serialized) (viem_failure serialized)

  -- `assertSignedCanaryTransactionEnvelope`, without the caps.
  unfoldable pub assert_envelope : SignedCanaryTransaction → Result ExecutorError (Unit {0})
  assert_envelope tx = do
    let hash = to_lower_case (viem.keccak256 tx.serialized_transaction)
    throw_if
        (not (text_eq hash (to_lower_case tx.transaction_hash))
          || not (text_eq hash (to_lower_case tx.serialized_transaction_keccak256)))
        signed_identity_mismatch
    parsed ← parse tx.serialized_transaction
    throw_if (not (is_number ink_chain_id parsed.chain_id)) chain_id_mismatch
    throw_if (not (get_or_else parsed.value 0 == 0)) value_nonzero
    throw_if (not (is_number tx.nonce parsed.nonce)) nonce_mismatch
    throw_if (not (is_number tx.gas parsed.gas)) gas_mismatch
    throw_if (not (is_number tx.max_fee_per_gas parsed.max_fee_per_gas)) max_fee_mismatch
    throw_if (not (is_number tx.max_priority_fee_per_gas parsed.max_priority_fee_per_gas))
        priority_fee_mismatch

  unfoldable pub assert_signer : SignedCanaryTransaction → Result ExecutorError (Unit {0})
  assert_signer tx = do
    recovered ←
        or_throw (viem.recover_transaction_address tx.serialized_transaction)
          (viem_failure tx.serialized_transaction)
    differ recovered wallet signer_mismatch

  abbrev pub check_caps :
      Option CanaryExecutorCaps → SignedCanaryTransaction → Result ExecutorError (Unit {0})
  check_caps none tx = ok tt
  check_caps (some caps) tx =
      assert_fee_and_gas_caps tx.gas tx.max_fee_per_gas tx.max_priority_fee_per_gas caps

  unfoldable pub assert_signed_envelope :
      Option CanaryExecutorCaps → SignedCanaryTransaction → Result ExecutorError (Unit {0})
  unfolding assert_envelope assert_signer assert_fee_and_gas_caps
  assert_signed_envelope caps tx = do assert_envelope tx; check_caps caps tx; assert_signer tx

  -- The `to` and the `data` of a signed transaction are the token and the calldata.
  unfoldable pub assert_calls : Text → Text → ParsedTransaction → Result ExecutorError (Unit {0})
  assert_calls token calldata parsed = elim parsed.to [
    | none ↦ err signed_to_mismatch
    | some to ↦ do
      differ to token signed_to_mismatch
      throw_if
          (not (
            text_eq (to_lower_case (get_or_else parsed.calldata (codes "0x")))
              (to_lower_case calldata)))
          signed_calldata_mismatch
  ]

  -- `assertSignedApprovalTransaction`, and for a revoke `assertSignedEntryApprovalRevokeTransaction`
  unfoldable pub assert_signed_call :
      Text → Text → Text → SignedCanaryTransaction → Result ExecutorError (Unit {0})
  unfolding assert_signed_envelope assert_calls
  assert_signed_call action_id token calldata tx = do
    throw_if (not (text_eq tx.action_id action_id)) signed_action_id_mismatch
    assert_signed_envelope none tx
    parsed ← parse tx.serialized_transaction
    assert_calls token calldata parsed

  unfoldable pub assert_approval_authority : ExactApproval → Result ExecutorError (Unit {0})
  assert_approval_authority (for_exit i) = do
    throw_if (not (text_eq i.version canary_e0_approval_r0)) version_invalid
    differ i.owner wallet owner_must_equal_wallet
    not_router i.spender spender_mismatch
    under of_entry (assert_canary_approval_calldata platform coder i.spender i.amount i.calldata)
  assert_approval_authority (for_entry i) = do
    throw_if (not (text_eq i.version canary_e0_entry_approval_r0)) version_invalid
    differ i.owner wallet owner_must_equal_wallet
    differ i.token weth9 token_mismatch
    not_router i.spender spender_mismatch
    throw_if (not (i.notional_usd_micros == canary_primary_notional_usd_micros)) notional_invalid
    under of_entry (assert_canary_approval_calldata platform coder i.spender i.amount i.calldata)

  unfoldable pub assert_revoke_authority :
      CanaryEntryApprovalRevokeIntent → Result ExecutorError (Unit {0})
  assert_revoke_authority i = do
    throw_if (not (text_eq i.version canary_e0_entry_approval_revoke_r0)) version_invalid
    differ i.owner wallet owner_must_equal_wallet
    not_router i.spender spender_mismatch
    under of_revoke (assert_revoke_calldata platform coder i)

  unfoldable pub assert_approval_preflight_binding :
      ExactApproval → CanaryApprovalPreflight → Result ExecutorError (Unit {0})
  assert_approval_preflight_binding intent p = do
    throw_if (not (text_eq p.action_id (approval_action_id intent))) preflight_action_id_mismatch
    differ p.wallet wallet preflight_wallet_mismatch
    differ p.token (approval_token intent) preflight_token_mismatch
    differ p.spender (approval_spender intent) preflight_spender_mismatch
    throw_if (not (p.amount == approval_amount intent)) preflight_amount_mismatch
    throw_if (not (p.allowance_before == 0)) preflight_allowance_not_zero
    throw_if (ltb p.token_balance (approval_amount intent)) preflight_balance_insufficient

  unfoldable pub assert_revoke_preflight_binding :
      CanaryEntryApprovalRevokeIntent
      → CanaryApprovalRevokePreflight
      → Result ExecutorError (Unit {0})
  assert_revoke_preflight_binding intent p = do
    throw_if (not (text_eq p.action_id intent.action_id)) preflight_action_id_mismatch
    differ p.wallet wallet preflight_wallet_mismatch
    differ p.token intent.token preflight_token_mismatch
    differ p.spender intent.spender preflight_spender_mismatch
    throw_if (not (p.expected_allowance == intent.expected_allowance))
        preflight_expected_allowance_mismatch
    throw_if (not (p.amount == 0) || not (intent.amount == 0)) preflight_amount_nonzero
    throw_if (not (p.allowance_before == intent.expected_allowance)) preflight_allowance_not_exact
