-- ===== src/Canary/EntryApprovalRuntime/Execute.antt =====
-- src/canary/entryApprovalRuntime.ts: the execution of an approval, and what a call of the runtime
-- does next for a buy.
use sentry_forensic_gate.Base.{
  ◌++◌, not, Option, none, some, Text, codes, to_decimal, ◌==◌, if◌then◌else◌,
}
use sentry_forensic_gate.Base.Result.{Result, ok, err}
use sentry_forensic_gate.Base.Exec.{pure, gets, catch_with, ◌>>=◌, ◌>>◌}
use sentry_forensic_gate.Canary.Types.{
  CanarySwapIntent, skipped, reserved, included, reverted, state_eq,
}
use sentry_forensic_gate.Canary.EntryApproval.{
  CanaryEntryApprovalIntent, build_canary_entry_approval_intent, assert_covers_buy,
}
use sentry_forensic_gate.Canary.Reconcile.{ReceiptStatus, success, failure}
use sentry_forensic_gate.Canary.EntryApprovalStore.Record.{EntryRecord}
use sentry_forensic_gate.Canary.EntryApprovalStore.{
  EntryInsertResult, inserted, duplicate, entry_slot_taken, insert_reserved, mark_signed,
  mark_submitted, get_committed,
}
use sentry_forensic_gate.Canary.Executor.{
  CanaryApprovalPreflight, SignedCanaryTransaction, for_entry,
}
use sentry_forensic_gate.Canary.Executor.Preflight.{preflight_approval}
use sentry_forensic_gate.Canary.Executor.Signing.{broadcast_exact}
use sentry_forensic_gate.Canary.Executor.Reserved.{sign_entry_approval_reserved}
use sentry_forensic_gate.Canary.EntryApprovalRuntime.{
  Runtime, RuntimeStep, RuntimeReport, RuntimeError, of_approval, of_executor, World,
  entry_approval_included, entry_approval_submitted, ready_to_buy, blocked_unresolved,
  blocked_setup, under, on_store, stable_error, report, ask, included_step, reverted_step,
  halt_step, report_of, reconcile_entry_approval,
}

module _ (run : Runtime) where
  -- The record of a reservation.
  abbrev pub reservation_of : CanaryEntryApprovalIntent → CanaryApprovalPreflight → EntryRecord
  reservation_of intent preflight = record {
    action_id = intent.action_id;
    state = reserved;
    nonce = none;
    transaction_hash = none;
    serialized_transaction = none;
    last_error = none;
    created_at_ms = run.now;
    updated_at_ms = run.now;
    payload = record {
      parent_buy_action_id = intent.parent_buy_action_id;
      launch_id = intent.launch_id;
      baseline_id = intent.baseline_id;
      intent = intent;
      observed_allowance_before = preflight.allowance_before;
      observed_allowance_after = none;
    };
  }

  -- The intent and its preflight, or what either throws.
  unfoldable pub prepare :
      CanarySwapIntent → Result RuntimeError (CanaryEntryApprovalIntent × CanaryApprovalPreflight)
  prepare buy = elim (build_canary_entry_approval_intent run.platform run.coder buy) [
    | err e ↦ err (of_approval e)
    | ok intent ↦
        elim (preflight_approval run.platform run.coder run.viem run.wallet run.caps
          run.chain.preflight (for_entry intent)) [
            | err e ↦ err (of_executor e)
            | ok preflight ↦ ok (intent, preflight)
          ]
  ]

  abbrev pub sign_step :
      CanaryEntryApprovalIntent
      → CanaryApprovalPreflight
      → Text
      → RuntimeStep SignedCanaryTransaction
  sign_step intent preflight capability w =
      let (r, s, e) =
        sign_entry_approval_reserved run.platform run.coder run.viem run.wallet run.caps
          run.chain.signing intent preflight capability w.store w.executor in
      (under of_executor r, record { store = s; executor = e })

  -- The first `try`: the signature, and its record in the store.
  unfoldable pub sign_and_mark :
      CanaryEntryApprovalIntent
      → CanaryApprovalPreflight
      → Text
      → RuntimeStep SignedCanaryTransaction
  sign_and_mark intent preflight capability = do
    signed ← sign_step intent preflight capability
    on_store (
        mark_signed run.platform run.coder run.viem.keccak256 intent.action_id
          (record {
            nonce = signed.nonce;
            transaction_hash = signed.transaction_hash;
            serialized_transaction = signed.serialized_transaction;
          })
          run.now)
    pure signed

  abbrev pub broadcast_step : SignedCanaryTransaction → RuntimeStep Text
  broadcast_step signed w =
      let (r, e) =
        broadcast_exact run.platform run.coder run.viem run.wallet run.caps run.chain.network signed
          w.executor in
      (under of_executor r, record w { executor = e })

  -- The branches on the receipt of what was sent.
  unfoldable pub report_receipt :
      CanarySwapIntent
      → CanaryEntryApprovalIntent
      → Text
      → Option ReceiptStatus
      → RuntimeStep RuntimeReport
  report_receipt buy intent hash none =
      pure
        (report run buy.action_id entry_approval_submitted (some intent.action_id) (some hash) none)
  report_receipt buy intent hash (some failure) =
      reverted_step run intent.action_id
      >> pure (
          report run buy.action_id blocked_setup (some intent.action_id) (some hash)
            (some (codes "CANARY_E0_ENTRY_APPROVAL_REVERTED")))
  report_receipt buy intent hash (some success) = do
    allowance ← ask run (run.chain.token_allowance intent.token intent.spender)
    included_step run intent.action_id allowance
    pure (report run buy.action_id entry_approval_included (some intent.action_id) (some hash) none)

  -- The second `try`: the broadcast, and what the chain says of it.
  unfoldable pub send_and_settle :
      CanarySwapIntent
      → CanaryEntryApprovalIntent
      → SignedCanaryTransaction
      → RuntimeStep RuntimeReport
  unfolding report_receipt
  send_and_settle buy intent signed = do
    hash ← broadcast_step signed
    on_store (mark_submitted intent.action_id run.now)
    receipt ← ask run (run.chain.receipt hash)
    report_receipt buy intent hash receipt

  -- What either `catch` does.
  abbrev pub halt_and_report :
      CanarySwapIntent
      → CanaryEntryApprovalIntent
      → Option Text
      → RuntimeError
      → RuntimeStep RuntimeReport
  halt_and_report buy intent hash e =
      halt_step run intent.action_id (stable_error run e)
      >> pure (
          report run buy.action_id blocked_unresolved (some intent.action_id) hash
            (some (stable_error run e)))

  unfoldable pub after_reservation :
      CanarySwapIntent
      → CanaryEntryApprovalIntent
      → CanaryApprovalPreflight
      → EntryInsertResult
      → RuntimeStep RuntimeReport
  unfolding sign_and_mark send_and_settle
  after_reservation buy intent preflight duplicate w =
      pure
        (report run buy.action_id blocked_unresolved (some intent.action_id) none
          (some (codes "CANARY_E0_ENTRY_APPROVAL_RESERVATION_DUPLICATE_NO_SIGN")))
        w
  after_reservation buy intent preflight entry_slot_taken w =
      pure
        (report run buy.action_id blocked_unresolved (some intent.action_id) none
          (some (codes "CANARY_E0_ENTRY_APPROVAL_SLOT_TAKEN")))
        w
  after_reservation buy intent preflight (inserted capability) w =
      let (r, w') = sign_and_mark intent preflight capability w in
      elim r [
        | err e ↦ halt_and_report buy intent none e w'
        | ok signed ↦
            catch_with (send_and_settle buy intent signed)
              (halt_and_report buy intent (some signed.transaction_hash)) w'
      ]

  unfoldable pub execute_entry_approval : CanarySwapIntent → RuntimeStep RuntimeReport
  unfolding prepare after_reservation
  execute_entry_approval buy = elim (prepare buy) [
    | err e ↦ pure (report run buy.action_id blocked_setup none none (some (stable_error run e)))
    | ok (intent, preflight) ↦ do
      result ← on_store (
          insert_reserved run.platform run.coder run.viem.keccak256 run.fresh
            (reservation_of intent preflight) buy)
      after_reservation buy intent preflight result
  ]

  -- The end of `advanceCanaryE0EntryApproval`: the row is read again, and its live allowance.
  unfoldable pub check_ready :
      CanarySwapIntent → Text → Option EntryRecord → RuntimeStep RuntimeReport
  check_ready buy id none = pure (
      report run buy.action_id blocked_unresolved none none
        (some (codes "CANARY_E0_ENTRY_APPROVAL_NOT_INCLUDED_AFTER_RECONCILE")))
  check_ready buy id (some a) =
      if not (state_eq a.state included)
      then pure (
          report run buy.action_id blocked_unresolved (some a.action_id) none
            (some (codes "CANARY_E0_ENTRY_APPROVAL_NOT_INCLUDED_AFTER_RECONCILE")))
      else do
        allowance ←
            ask run (run.chain.token_allowance a.payload.intent.token a.payload.intent.spender)
        pure (
            if allowance == a.payload.intent.amount
            then report run buy.action_id ready_to_buy (some a.action_id) none none
            else report run buy.action_id blocked_setup (some a.action_id) none (
                some (
                  codes "CANARY_E0_ENTRY_APPROVAL_LIVE_ALLOWANCE_NOT_EXACT:"
                  ++ (to_decimal allowance ++ (codes ":" ++ to_decimal a.payload.intent.amount)))))

  unfoldable pub advance_committed : CanarySwapIntent → EntryRecord → RuntimeStep RuntimeReport
  unfolding check_ready reconcile_entry_approval
  advance_committed buy a = do
    outcome ← reconcile_entry_approval run a
    elim outcome [
      | some o ↦ pure (report_of run buy.action_id a.action_id o)
      | none ↦ do
        again ← gets (λ (w : World). get_committed w.store)
        check_ready buy a.action_id again
    ]

  unfoldable pub advance_covered : CanarySwapIntent → EntryRecord → RuntimeStep RuntimeReport
  unfolding advance_committed
  advance_covered buy a =
      if state_eq a.state reverted
      then pure (
          report run buy.action_id blocked_setup (some a.action_id) a.transaction_hash
            (some (codes "CANARY_E0_ENTRY_APPROVAL_REVERTED")))
      else (if state_eq a.state skipped
          then pure (
              report run buy.action_id blocked_setup (some a.action_id) none
                (some (codes "CANARY_E0_ENTRY_APPROVAL_STATE_INVALID:SKIPPED")))
          else advance_committed buy a)

  unfoldable pub advance_canary_e0_entry_approval : CanarySwapIntent → RuntimeStep RuntimeReport
  unfolding execute_entry_approval advance_covered
  advance_canary_e0_entry_approval buy w = elim (get_committed w.store) [
    | none ↦ execute_entry_approval buy w
    | some a ↦ elim (assert_covers_buy run.platform run.coder a.payload.intent buy) [
      | err e ↦ (
        ok (
            report run buy.action_id blocked_setup (some a.action_id) none
              (some (stable_error run (of_approval e)))),
        w,
      )
      | ok u ↦ advance_covered buy a w
    ]
  ]
