-- ===== src/Canary/Reconcile.antt =====
-- The reconciliation of src/canary/cycle.ts: what a cycle does with an action that is unresolved. The
-- executor of src/canary/viemCanaryExecutor.ts is an interface of the two calls that it makes.
pub mod Settled
mod Tests
use sentry_forensic_gate.Base.{
  ℕ, ◌≤◌, ◌≡◌, ◌∙◌, ap, ◌⊎◌, inl, inr, refl, Bool, true, false, ◌&&◌, Option, none, some, List, [],
  ◌∷◌, arith, Text, codes, is_empty, Option-cases, Bool-cases, is_some, not, if◌then◌else◌,
}
use sentry_forensic_gate.Base.Result.{Result, ok, err, Result-cases}
use sentry_forensic_gate.Canary.Types.{
  CanarySwapIntent, CanaryActionRecord, CanaryActionState, reserved, state_eq, CanaryError,
}
use sentry_forensic_gate.Canary.Store.{
  Rows, Action, mark_safe_halt, mark_included, mark_reverted, Call, halts, includes, reverts, after,
}
use sentry_forensic_gate.Canary.Store.Constraints.{IsKeyed}
use sentry_forensic_gate.Canary.Store.OneBuy.{after-IsKeyed}

pub data ReceiptStatus : Type 0 where
  success failure : ReceiptStatus

-- What the chain says of a transaction and of a token, or the throw of the provider.
pub record CanaryExecutor : Type 0 where
  pub get_receipt_if_present : Text → Result CanaryError (Option ReceiptStatus)
  pub get_token_balance : Text → Result CanaryError ℕ

-- The actions of a report that a reconciliation gives.
pub data CycleAction : Type 0 where
  blocked_unresolved blocked_setup included_buy : CycleAction

pub record ReconcileReport : Type 0 where
  pub action : CycleAction
  pub launch_id : Text
  pub transaction_hash : Option Text
  pub reason : Option Text

abbrev then_report :
    Result CanaryError (Unit {0}) × Rows
    → ReconcileReport
    → Result CanaryError ReconcileReport × Rows
then_report (ok u, rows) report = (ok report, rows)
then_report (err e, rows) report = (err e, rows)

-- `!hash` of a hash that can be null
abbrev pub known_hash : Option Text → Option Text
known_hash none = none
known_hash (some h) = if is_empty h then none else some h

abbrev blocked : CanaryActionRecord → Option Text → Text → ReconcileReport
blocked a hash reason = record {
  action = blocked_unresolved;
  launch_id = a.launch_id;
  transaction_hash = hash;
  reason = some reason;
}

module _ (now : ℕ) where
  unfoldable pub halt_with : CanaryActionRecord → Text → Action ReconcileReport
  halt_with a reason rows =
      then_report (mark_safe_halt a.action_id reason now rows) (blocked a none reason)

  -- The branches on the receipt of the transaction.
  unfoldable pub settle :
      CanaryExecutor
      → CanaryActionRecord
      → Text
      → CanarySwapIntent
      → Option ReceiptStatus
      → Action ReconcileReport
  settle executor a hash intent none rows =
      (ok (blocked a (some hash) (codes "CANARY_TX_NOT_YET_OBSERVED_NO_RETRY")), rows)
  settle executor a hash intent (some success) rows =
      elim (executor.get_token_balance intent.token_out) [
        | err e ↦ (err e, rows)
        | ok balance ↦ then_report (mark_included a.action_id balance now rows) (record {
          action = included_buy;
          launch_id = a.launch_id;
          transaction_hash = some hash;
          reason = none;
        })
      ]
  settle executor a hash intent (some failure) rows =
      then_report (mark_reverted a.action_id now rows) (record {
        action = blocked_setup;
        launch_id = a.launch_id;
        transaction_hash = some hash;
        reason = some (codes "CANARY_TRANSACTION_REVERTED");
      })

  -- With an executor: the identity that a receipt can be asked for, or a halt.
  unfoldable pub reconcile_with :
      CanaryExecutor
      → CanaryActionRecord
      → Option Text
      → Option CanarySwapIntent
      → Action ReconcileReport
  unfolding halt_with settle
  reconcile_with executor a (some hash) (some intent) rows =
      elim (executor.get_receipt_if_present hash) [
        | err e ↦ (err e, rows)
        | ok receipt ↦ settle executor a hash intent receipt rows
      ]
  reconcile_with executor a (some hash) none rows =
      halt_with a (codes "CANARY_UNRESOLVED_IDENTITY_INCOMPLETE") rows
  reconcile_with executor a none intent rows =
      if state_eq a.state reserved
      then halt_with a (codes "CANARY_RESTART_AFTER_RESERVATION_NO_RETRY") rows
      else halt_with a (codes "CANARY_UNRESOLVED_IDENTITY_INCOMPLETE") rows

  unfoldable pub reconcile_one : CanaryActionRecord → Option CanaryExecutor → Action ReconcileReport
  unfolding reconcile_with
  reconcile_one a none rows = (
    ok (blocked a (known_hash a.transaction_hash) (codes "CANARY_UNRESOLVED_REQUIRES_EXECUTOR")),
    rows,
  )
  reconcile_one a (some executor) rows =
      reconcile_with executor a (known_hash a.transaction_hash) a.intent rows
