-- ===== src/Canary/Executor/Safe.antt =====
-- What the executor of src/canary/viemCanaryExecutor.ts can send.
use sentry_forensic_gate.Base.{
  ◌≤◌, ◌≡◌, some, Text, codes, to_lower_case, get_or_else, All, get_key,
}
use sentry_forensic_gate.Base.Result.{ok}
use sentry_forensic_gate.Canary.SwapIntent.{Platform, ink_swap_router_02}
use sentry_forensic_gate.Canary.EntryApproval.{ApprovalCoder}
use sentry_forensic_gate.Canary.Revoke.{CanaryEntryApprovalRevokeIntent}
use sentry_forensic_gate.Canary.Executor.{
  CanaryExecutorCaps, SignedCanaryTransaction, ParsedTransaction, ExactApproval, approval_token,
  approval_calldata, Viem, ink_chain_id, assert_approval_authority, assert_revoke_authority,
}
use sentry_forensic_gate.Canary.Executor.Signing.{CanaryExecutor}

module _ (platform : Platform) (coder : ApprovalCoder) (viem : Viem) (wallet : Text)
    (caps : CanaryExecutorCaps) where
  -- The envelope of a transaction: it is parsed on the chain, without value, within the caps, and
  -- its signer is the wallet.
  pub record IsEnvelope (tx : SignedCanaryTransaction) (parsed : ParsedTransaction) : Type 0 where
    pub parses : viem.parse_transaction tx.serialized_transaction ≡ some parsed
    pub on_ink : parsed.chain_id ≡ some ink_chain_id
    pub no_value : get_or_else parsed.value 0 ≡ 0
    pub gas_limit : parsed.gas ≡ some tx.gas
    pub gas_capped : tx.gas ≤ caps.max_gas
    pub fee_limit : parsed.max_fee_per_gas ≡ some tx.max_fee_per_gas
    pub fee_capped : tx.max_fee_per_gas ≤ caps.max_fee_per_gas
    pub priority_limit : parsed.max_priority_fee_per_gas ≡ some tx.max_priority_fee_per_gas
    pub priority_capped : tx.max_priority_fee_per_gas ≤ caps.max_priority_fee_per_gas
    pub priority_below_fee : tx.max_priority_fee_per_gas ≤ tx.max_fee_per_gas
    pub signer : Text
    pub recovered : viem.recover_transaction_address tx.serialized_transaction ≡ some signer
    pub is_wallet : platform.get_address signer ≡ platform.get_address wallet

  -- It calls the token with the calldata, up to the case of its digits.
  abbrev pub IsCall : Text → Text → ParsedTransaction → Type 0
  IsCall token calldata parsed =
      (to : Text) × (parsed.to ≡ some to)
      × (platform.get_address to ≡ platform.get_address token)
      × (to_lower_case (get_or_else parsed.calldata (codes "0x")) ≡ to_lower_case calldata)

  -- What a transaction may do: call the router, make an approval or a revoke that has passed the
  -- check of its authority.
  pub data IsPermitted (parsed : ParsedTransaction) : Type 0 where
    to_router :
        (to : Text)
        → parsed.to ≡ some to
        → platform.get_address to ≡ some (ink_swap_router_02 platform)
        → IsPermitted parsed
    to_approve :
        (intent : ExactApproval)
        → assert_approval_authority platform coder viem wallet intent ≡ ok tt
        → IsCall (approval_token intent) (approval_calldata intent) parsed
        → IsPermitted parsed
    to_revoke :
        (intent : CanaryEntryApprovalRevokeIntent)
        → assert_revoke_authority platform coder viem wallet intent ≡ ok tt
        → IsCall intent.token intent.calldata parsed
        → IsPermitted parsed

  abbrev pub IsSafe : SignedCanaryTransaction → Type 0
  IsSafe tx = (parsed : ParsedTransaction) × IsEnvelope tx parsed × IsPermitted parsed

  -- The intents that wait to be sent have passed the check of their authority.
  pub record IsGuarded (e : CanaryExecutor) : Type 0 where
    pub approvals :
        (k : Text) (intent : ExactApproval)
        → get_key k e.signed_approval_intents ≡ some intent
        → assert_approval_authority platform coder viem wallet intent ≡ ok tt
    pub revokes :
        (k : Text) (intent : CanaryEntryApprovalRevokeIntent)
        → get_key k e.signed_revoke_intents ≡ some intent
        → assert_revoke_authority platform coder viem wallet intent ≡ ok tt
    pub safe : All IsSafe e.sent
