-- ===== src/Canary/Executor/Reserved.antt =====
-- `signEntryApprovalReserved` of src/canary/viemCanaryExecutor.ts: a signature under the authority
-- of the entry approval store.
use sentry_forensic_gate.Base.{Text}
use sentry_forensic_gate.Base.Result.{Result, ok, err}
use sentry_forensic_gate.Canary.Types.{CanarySwapIntent}
use sentry_forensic_gate.Canary.SwapIntent.{Platform}
use sentry_forensic_gate.Canary.EntryApproval.{
  ApprovalCoder, CanaryEntryApprovalIntent, assert_matches_parent_buy,
}
use sentry_forensic_gate.Canary.EntryApprovalStore.Record.{EntryStoreError}
use sentry_forensic_gate.Canary.EntryApprovalStore.{
  EntryStore, assert_signing_capability, get_authoritative_parent_buy_intent,
  consume_signing_authority,
}
use sentry_forensic_gate.Canary.Executor.{
  CanaryExecutorCaps, CanaryApprovalPreflight, SignedCanaryTransaction, for_entry, Viem,
  ExecutorError, of_entry, of_store, under,
}
use sentry_forensic_gate.Canary.Executor.Signing.{CanaryExecutor, SigningChain, sign_approval_bound}

module _ (platform : Platform) (coder : ApprovalCoder) (viem : Viem) (wallet : Text)
    (caps : CanaryExecutorCaps) where
  abbrev matches :
      CanaryEntryApprovalIntent
      → Result EntryStoreError CanarySwapIntent
      → Result ExecutorError (Unit {0})
  matches intent (err x) = err (of_store x)
  matches intent (ok buy) = under of_entry (assert_matches_parent_buy platform coder intent buy)

  -- `beforeSign`: the authority is consumed, and the intent is compared with its buy again.
  unfoldable pub consume_and_match :
      CanaryEntryApprovalIntent → Text → EntryStore → Result ExecutorError (Unit {0}) × EntryStore
  consume_and_match intent capability s =
      let (r, s') =
        consume_signing_authority platform coder viem.keccak256 intent.action_id capability s in
      (matches intent r, s')

  -- What is checked before: the capability, and the intent against its parent buy.
  unfoldable pub check_reserved :
      CanaryEntryApprovalIntent → Text → EntryStore → Result ExecutorError (Unit {0})
  check_reserved intent capability s =
      elim (assert_signing_capability intent.action_id capability s).0 [
        | err x ↦ err (of_store x)
        | ok u ↦
            matches intent
              (get_authoritative_parent_buy_intent platform coder viem.keccak256 intent.action_id
                s).0
      ]

  unfoldable pub sign_entry_approval_reserved :
      SigningChain
      → CanaryEntryApprovalIntent
      → CanaryApprovalPreflight
      → Text
      → EntryStore
      → CanaryExecutor
      → Result ExecutorError SignedCanaryTransaction × EntryStore × CanaryExecutor
  unfolding consume_and_match check_reserved
  sign_entry_approval_reserved chain intent p capability s e =
      elim (check_reserved intent capability s) [
        | err x ↦ (err x, s, e)
        | ok u ↦
            sign_approval_bound platform coder viem wallet caps
              (consume_and_match intent capability) chain (for_entry intent) p s e
      ]
