-- ===== src/Canary/EntryApprovalRuntime.antt =====
-- src/canary/entryApprovalRuntime.ts: the approval of a buy, over the entry approval store and the
-- executor. The state is both; what the chain answers, the clock, the fresh capability and the text
-- of an error are parameters.
pub mod Execute
pub mod Ready
mod Tests
use sentry_forensic_gate.Base.{
  ℕ, ◌++◌, Bool, true, false, ◌&&◌, not, Option, none, some, List, [], ◌∷◌, Text, codes, take,
  is_empty, to_decimal, ◌==◌, if◌then◌else◌,
}
use sentry_forensic_gate.Base.Result.{Result, ok, err}
use sentry_forensic_gate.Base.Exec.{Exec, pure, lift, gets, catch_with, ◌>>=◌, ◌>>◌}
use sentry_forensic_gate.Canary.Types.{
  CanarySwapIntent, CanaryActionState, skipped, reserved, included, reverted, state_eq,
}
use sentry_forensic_gate.Canary.SwapIntent.{Platform}
use sentry_forensic_gate.Canary.Store.{SignedTransaction, max_error_length}
use sentry_forensic_gate.Canary.EntryApproval.{
  ApprovalCoder, CanaryEntryApprovalIntent, EntryApprovalError, build_canary_entry_approval_intent,
  assert_covers_buy,
}
use sentry_forensic_gate.Canary.Reconcile.{ReceiptStatus, success, failure, known_hash}
use sentry_forensic_gate.Canary.EntryApprovalStore.Record.{EntryRecord, EntryStoreError}
use sentry_forensic_gate.Canary.EntryApprovalStore.{
  EntryStore, EntryAction, EntryInsertResult, inserted, duplicate, entry_slot_taken,
  insert_reserved, mark_signed, mark_submitted, mark_safe_halt, mark_included, mark_reverted,
  get_committed, list_unresolved,
}
use sentry_forensic_gate.Canary.Executor.{
  CanaryExecutorCaps, CanaryApprovalPreflight, SignedCanaryTransaction, for_entry, Viem,
  ExecutorError,
}
use sentry_forensic_gate.Canary.Executor.Preflight.{PreflightChain, preflight_approval}
use sentry_forensic_gate.Canary.Executor.Signing.{CanaryExecutor, SigningChain, broadcast_exact}
use sentry_forensic_gate.Canary.Executor.Reserved.{sign_entry_approval_reserved}

pub data RuntimeActionName : Type 0 where
  entry_approval_included entry_approval_submitted ready_to_buy : RuntimeActionName
  blocked_unresolved blocked_setup : RuntimeActionName

pub record RuntimeReport : Type 0 where
  pub action : RuntimeActionName
  pub buy_action_id : Text
  pub entry_approval_action_id : Option Text
  pub transaction_hash : Option Text
  pub reason : Option Text

pub data RuntimeError : Type 0 where
  of_approval : EntryApprovalError → RuntimeError
  of_store : EntryStoreError → RuntimeError
  of_executor : ExecutorError → RuntimeError

pub record World : Type 0 where
  pub store : EntryStore
  pub executor : CanaryExecutor

-- What the chain answers within one call; an `err` is a throw.
pub record EntryChain : Type 0 where
  pub preflight : PreflightChain
  pub signing : SigningChain
  pub network : Text → Result ExecutorError Text
  pub receipt : Text → Result ExecutorError (Option ReceiptStatus)
  pub token_allowance : Text → Text → Result ExecutorError ℕ

-- The parameters of the runtime: viem, the wallet, the clock, and what an error prints as.
pub record Runtime : Type 0 where
  pub platform : Platform
  pub coder : ApprovalCoder
  pub viem : Viem
  pub wallet : Text
  pub caps : CanaryExecutorCaps
  pub chain : EntryChain
  pub now : ℕ
  pub fresh : Text
  pub message : RuntimeError → Text
  pub le_text : Text → Text → Bool

abbrev pub RuntimeStep : Type 0 → Type 0
RuntimeStep A = Exec RuntimeError World A

abbrev pub under : {E A : Type 0} → (E → RuntimeError) → Result E A → Result RuntimeError A
under f (ok a) = ok a
under f (err e) = err (f e)

abbrev pub on_store : {A : Type 0} → EntryAction A → RuntimeStep A
on_store f w = let (r, s) = f w.store in (under of_store r, record w { store = s })

module _ (run : Runtime) where
  abbrev pub stable_error : RuntimeError → Text
  stable_error e = take max_error_length (run.message e)

  abbrev pub report :
      Text → RuntimeActionName → Option Text → Option Text → Option Text → RuntimeReport
  report buy action approval hash reason = record {
    action = action;
    buy_action_id = buy;
    entry_approval_action_id = approval;
    transaction_hash = hash;
    reason = reason;
  }

  abbrev pub ask : {A : Type 0} → Result ExecutorError A → RuntimeStep A
  ask r = lift (under of_executor r)

  abbrev pub included_step : Text → ℕ → RuntimeStep (Unit {0})
  included_step id allowance =
      on_store (mark_included run.platform run.coder run.viem.keccak256 id allowance run.now)

  abbrev pub reverted_step : Text → RuntimeStep (Unit {0})
  reverted_step id = on_store (mark_reverted run.platform run.coder run.viem.keccak256 id run.now)

  abbrev pub halt_step : Text → Text → RuntimeStep (Unit {0})
  halt_step id error = on_store (mark_safe_halt id error run.now)

  -- What `reconcileEntryApproval` answers: an action, a hash and a reason, or null.
  abbrev pub Outcome : Type 0
  Outcome = RuntimeActionName × Option Text × Option Text

  abbrev pub halt_outcome : Text → Text → RuntimeStep (Option Outcome)
  halt_outcome id reason =
      halt_step id reason >> pure (some (blocked_unresolved, none, some reason))

  -- The branches on the receipt of the transaction.
  unfoldable pub settle_receipt :
      EntryRecord → Text → Option ReceiptStatus → RuntimeStep (Option Outcome)
  settle_receipt a hash none = pure (
      some (
        blocked_unresolved,
        some hash,
        some (codes "CANARY_E0_ENTRY_APPROVAL_TX_NOT_YET_OBSERVED_NO_RETRY"),
      ))
  settle_receipt a hash (some failure) =
      reverted_step a.action_id
      >> pure (some (blocked_setup, some hash, some (codes "CANARY_E0_ENTRY_APPROVAL_REVERTED")))
  settle_receipt a hash (some success) = do
    allowance ← ask (run.chain.token_allowance a.payload.intent.token a.payload.intent.spender)
    included_step a.action_id allowance
    pure (some (entry_approval_included, some hash, none))

  unfoldable pub reconcile_signed :
      EntryRecord → Option Text → Option Text → RuntimeStep (Option Outcome)
  unfolding settle_receipt
  reconcile_signed a (some hash) (some serialized) = do
    receipt ← ask (run.chain.receipt hash)
    settle_receipt a hash receipt
  reconcile_signed a (some hash) none =
      halt_outcome a.action_id (codes "CANARY_E0_ENTRY_APPROVAL_SIGNED_IDENTITY_INCOMPLETE")
  reconcile_signed a none serialized =
      if state_eq a.state reserved
      then halt_outcome a.action_id
          (codes "CANARY_E0_RESTART_AFTER_ENTRY_APPROVAL_RESERVATION_NO_RETRY")
      else halt_outcome a.action_id (codes "CANARY_E0_ENTRY_APPROVAL_SIGNED_IDENTITY_INCOMPLETE")

  unfoldable pub reconcile_entry_approval : EntryRecord → RuntimeStep (Option Outcome)
  unfolding reconcile_signed
  reconcile_entry_approval a =
      if state_eq a.state included
      then pure none
      else reconcile_signed a (known_hash a.transaction_hash) (known_hash a.serialized_transaction)

  -- The report of an outcome, for a buy and an approval.
  abbrev pub report_of : Text → Text → Outcome → RuntimeReport
  report_of buy approval (action, hash, reason) = report buy action (some approval) hash reason

  unfoldable pub reconcile_all : List EntryRecord → RuntimeStep (Option RuntimeReport)
  unfolding reconcile_entry_approval
  reconcile_all [] = pure none
  reconcile_all (a ∷ []) = do
    outcome ← reconcile_entry_approval a
    elim outcome [
      | none ↦ pure none
      | some o ↦ pure (some (report_of a.payload.parent_buy_action_id a.action_id o))
    ]
  reconcile_all (a ∷ b ∷ rest) = pure (
      some (
        report a.payload.parent_buy_action_id blocked_setup (some a.action_id) none
          (some (codes "CANARY_E0_MULTIPLE_UNRESOLVED_ENTRY_APPROVALS_INVARIANT_BROKEN"))))

  unfoldable pub reconcile_canary_e0_entry_approval : RuntimeStep (Option RuntimeReport)
  unfolding reconcile_all
  reconcile_canary_e0_entry_approval = do
    unresolved ← gets (λ (w : World). list_unresolved run.le_text w.store)
    reconcile_all unresolved
