-- ===== src/Canary/EntryApprovalRuntime/Ready.antt =====
-- When a call of src/canary/entryApprovalRuntime.ts reports that a buy may be made.
use sentry_forensic_gate.Base.{
  ◌≡◌, inl, inr, refl, arith, Bool, true, false, Option, none, some, Text, Bool-cases, Option-cases,
  if◌then◌else◌,
}
use sentry_forensic_gate.Base.Result.{Result, ok, err, Result-cases}
use sentry_forensic_gate.Base.Exec.{◌>>=◌, recover}
use sentry_forensic_gate.Canary.Types.{
  CanarySwapIntent, skipped, reserved, included, reverted, state_eq,
}
use sentry_forensic_gate.Canary.EntryApproval.{assert_covers_buy}
use sentry_forensic_gate.Canary.Reconcile.{ReceiptStatus, success, failure, known_hash}
use sentry_forensic_gate.Canary.EntryApprovalStore.Record.{EntryRecord}
use sentry_forensic_gate.Canary.EntryApprovalStore.{
  get_committed, mark_submitted, insert_reserved, EntryInsertResult, inserted, duplicate,
  entry_slot_taken,
}
use sentry_forensic_gate.Canary.EntryApproval.{CanaryEntryApprovalIntent}
use sentry_forensic_gate.Canary.Executor.{CanaryApprovalPreflight, SignedCanaryTransaction}
use sentry_forensic_gate.Canary.EntryApprovalRuntime.{
  RuntimeStep, Runtime, RuntimeReport, RuntimeActionName, ready_to_buy, entry_approval_included,
  entry_approval_submitted, blocked_unresolved, blocked_setup, RuntimeError, World,
  reconcile_entry_approval, reconcile_signed, settle_receipt, halt_outcome, halt_step,
  included_step, reverted_step, stable_error, on_store, ask,
}
use sentry_forensic_gate.Canary.EntryApprovalRuntime.Execute.{
  advance_canary_e0_entry_approval, advance_covered, advance_committed, check_ready,
  execute_entry_approval, after_reservation, sign_and_mark, send_and_settle, report_receipt,
  prepare, halt_and_report, broadcast_step, reservation_of,
}

abbrev pub is_ready : RuntimeActionName → Bool
is_ready ready_to_buy = true
is_ready _ = false

-- A result that is a report of READY_TO_BUY.
abbrev pub says_ready : Result RuntimeError RuntimeReport → Bool
says_ready (ok r) = is_ready r.action
says_ready (err e) = false

-- An outcome of a reconciliation that settles the approval for now.
abbrev settles : Result RuntimeError (Option (RuntimeActionName × Option Text × Option Text)) → Bool
settles (ok none) = false
settles (ok (some (action, hash, reason))) = if is_ready action then false else true
settles (err e) = true

module _ (run : Runtime) where
  settle_lem :
      (a : EntryRecord) (hash : Text) (receipt : Option ReceiptStatus) (w : World)
      → settles (settle_receipt run a hash receipt w).0 ≡ true
  unfolding settle_receipt
  settle_lem a hash none w = refl
  settle_lem a hash (some failure) w = elim (Result-cases (reverted_step run a.action_id w).0) [
    | inr (e, q) ↦ ground (arith, q)
    | inl (u, q) ↦ ground (arith, q)
  ]
  settle_lem a hash (some success) w =
      elim (Result-cases
        (run.chain.token_allowance a.payload.intent.token a.payload.intent.spender)) [
          | inr (e, t) ↦ ground (arith, t)
          | inl (n, t) ↦ elim (Result-cases (included_step run a.action_id n w).0) [
            | inr (e, q) ↦ ground (arith, t, q)
            | inl (u, q) ↦ ground (arith, t, q)
          ]
        ]

  halt_lem : (id reason : Text) (w : World) → settles (halt_outcome run id reason w).0 ≡ true
  halt_lem id reason w = elim (Result-cases (halt_step run id reason w).0) [
    | inr (e, q) ↦ ground (arith, q)
    | inl (u, q) ↦ ground (arith, q)
  ]

  signed_lem :
      (a : EntryRecord) (hash serialized : Option Text) (w : World)
      → settles (reconcile_signed run a hash serialized w).0 ≡ true
  unfolding reconcile_signed
  signed_lem a (some hash) (some serialized) w = elim (Result-cases (run.chain.receipt hash)) [
    | inr (e, q) ↦ ground (arith, q)
    | inl (r, q) ↦ ground (arith, q, settle_lem a hash r w)
  ]
  signed_lem a (some hash) none w = halt_lem a.action_id _ w
  signed_lem a none serialized w = elim (Bool-cases (state_eq a.state reserved)) [
    | inl q ↦ rw q (halt_lem a.action_id _ w)
    | inr q ↦ rw q (halt_lem a.action_id _ w)
  ]

  halted_lem :
      (buy : CanarySwapIntent) (intent : CanaryEntryApprovalIntent) (hash : Option Text)
      (e : RuntimeError) (w : World)
      → says_ready (halt_and_report run buy intent hash e w).0 ≡ false
  halted_lem buy intent hash e w =
      elim (Result-cases (halt_step run intent.action_id (stable_error run e) w).0) [
        | inr (x, q) ↦ ground (arith, q)
        | inl (u, q) ↦ ground (arith, q)
      ]

  receipt_lem :
      (buy : CanarySwapIntent) (intent : CanaryEntryApprovalIntent) (hash : Text)
      (receipt : Option ReceiptStatus) (w : World)
      → says_ready (report_receipt run buy intent hash receipt w).0 ≡ false
  unfolding report_receipt
  receipt_lem buy intent hash none w = refl
  receipt_lem buy intent hash (some failure) w =
      elim (Result-cases (reverted_step run intent.action_id w).0) [
        | inr (e, q) ↦ ground (arith, q)
        | inl (u, q) ↦ ground (arith, q)
      ]
  receipt_lem buy intent hash (some success) w =
      elim (Result-cases (run.chain.token_allowance intent.token intent.spender)) [
        | inr (e, t) ↦ ground (arith, t)
        | inl (n, t) ↦ elim (Result-cases (included_step run intent.action_id n w).0) [
          | inr (e, q) ↦ ground (arith, t, q)
          | inl (u, q) ↦ ground (arith, t, q)
        ]
      ]

  -- A run of two effects says what the second says.
  bind_lem :
      {A : Type 0} (m : RuntimeStep A) (f : A → RuntimeStep RuntimeReport)
      → ((a : A) (w : World) → says_ready (f a w).0 ≡ false)
      → (w : World) → says_ready ((m >>= f) w).0 ≡ false
  bind_lem m f h w = elim (Result-cases (m w).0) [
    | inr (e, q) ↦ rw q refl
    | inl (a, q) ↦ rw q (h a _)
  ]

  send_lem :
      (buy : CanarySwapIntent) (intent : CanaryEntryApprovalIntent)
      (signed : SignedCanaryTransaction) (w : World)
      → says_ready (send_and_settle run buy intent signed w).0 ≡ false
  unfolding send_and_settle
  send_lem buy intent signed w =
      bind_lem (broadcast_step run signed) _
        (λ hash. bind_lem (on_store (mark_submitted intent.action_id run.now)) _ (λ u.
          bind_lem (ask run (run.chain.receipt hash)) _
            (λ receipt. receipt_lem buy intent hash receipt)))
        w

  caught_lem :
      (r : Result RuntimeError RuntimeReport) (handler : RuntimeError → RuntimeStep RuntimeReport)
      (w : World)
      → says_ready r ≡ false
      → ((e : RuntimeError) → says_ready (handler e w).0 ≡ false)
      → says_ready (recover r handler w).0 ≡ false
  caught_lem (ok a) handler w h k = h
  caught_lem (err e) handler w h k = k e

  reserved_lem :
      (buy : CanarySwapIntent) (intent : CanaryEntryApprovalIntent)
      (preflight : CanaryApprovalPreflight) (result : EntryInsertResult) (w : World)
      → says_ready (after_reservation run buy intent preflight result w).0 ≡ false
  unfolding after_reservation
  reserved_lem buy intent preflight duplicate w = refl
  reserved_lem buy intent preflight entry_slot_taken w = refl
  reserved_lem buy intent preflight (inserted capability) w =
      elim (Result-cases (sign_and_mark run intent preflight capability w).0) [
        | inr (e, q) ↦ rw (q, after_reservation) (halted_lem buy intent none e _)
        | inl (signed, q) ↦
            rw (q, after_reservation)
              (caught_lem _ (halt_and_report run buy intent (some signed.transaction_hash)) _
                (send_lem buy intent signed _)
                (λ e. halted_lem buy intent (some signed.transaction_hash) e _))
      ]

  execute_lem :
      (buy : CanarySwapIntent) (w : World) → says_ready (execute_entry_approval run buy w).0 ≡ false
  unfolding execute_entry_approval
  execute_lem buy w = elim (Result-cases (prepare run buy)) [
    | inr (e, q) ↦ rw (q, execute_entry_approval) refl
    | inl ((intent, preflight), q) ↦
        rw (q, execute_entry_approval)
          (bind_lem
            (on_store (
              insert_reserved run.platform run.coder run.viem.keccak256 run.fresh
                (reservation_of run intent preflight) buy))
            _ (λ result. reserved_lem buy intent preflight result) w)
  ]

  -- What a report of READY_TO_BUY rests on.
  abbrev pub IsCovered : CanarySwapIntent → World → EntryRecord → Type 0
  IsCovered buy w a =
      (get_committed w.store ≡ some a)
      × (state_eq a.state included ≡ true)
      × (assert_covers_buy run.platform run.coder a.payload.intent buy ≡ ok tt)
      × (run.chain.token_allowance a.payload.intent.token a.payload.intent.spender
          ≡ ok a.payload.intent.amount)

  -- An approval that is not INCLUDED yet is not reported READY_TO_BUY in the call that settles it.
  unsettled_lem :
      (buy : CanarySwapIntent) (a : EntryRecord) (w : World)
      → state_eq a.state included ≡ false
      → says_ready (advance_committed run buy a w).0 ≡ false
  unfolding advance_committed reconcile_entry_approval
  unsettled_lem buy a w i =
      let s =
        signed_lem a (known_hash a.transaction_hash) (known_hash a.serialized_transaction) w in
      elim (Result-cases
        (reconcile_signed run a (known_hash a.transaction_hash)
          (known_hash a.serialized_transaction) w).0) [
            | inr (e, q) ↦ rw (i, q, advance_committed) refl
            | inl (none, q) ↦ ground (arith, s, q)
            | inl (some (ready_to_buy, hash, reason), q) ↦ ground (arith, s, q)
            | inl (some (entry_approval_included, hash, reason), q) ↦
                rw (i, q, advance_committed) refl
            | inl (some (entry_approval_submitted, hash, reason), q) ↦
                rw (i, q, advance_committed) refl
            | inl (some (blocked_unresolved, hash, reason), q) ↦ rw (i, q, advance_committed) refl
            | inl (some (blocked_setup, hash, reason), q) ↦ rw (i, q, advance_committed) refl
          ]

  included_lem :
      (buy : CanarySwapIntent) (a : EntryRecord) (w : World)
      → get_committed w.store ≡ some a
      → state_eq a.state included ≡ true
      → says_ready (advance_committed run buy a w).0 ≡ true
      → (run.chain.token_allowance a.payload.intent.token a.payload.intent.spender
          ≡ ok a.payload.intent.amount)
        × ((advance_committed run buy a w).1 ≡ w)
  unfolding advance_committed reconcile_entry_approval check_ready
  included_lem buy a w g i h =
      elim (Result-cases
        (run.chain.token_allowance a.payload.intent.token a.payload.intent.spender)) [
          | inr (e, t) ↦ ground (arith, g, i, t, h)
          | inl (n, t) ↦ ground (arith, g, i, t, h)
        ]

  -- A call that reports READY_TO_BUY changes nothing, and does so only if an approval is committed
  -- that is INCLUDED, that covers the buy, and whose live allowance is exactly its amount.
  pub advance-IsCovered :
      (buy : CanarySwapIntent) (w : World)
      → says_ready (advance_canary_e0_entry_approval run buy w).0 ≡ true
      → (a : EntryRecord) × IsCovered buy w a × ((advance_canary_e0_entry_approval run buy w).1 ≡ w)
  unfolding advance_canary_e0_entry_approval advance_covered
  advance-IsCovered buy w h = elim (Option-cases (get_committed w.store)) [
    | inl g ↦ ground (arith, g, h, execute_lem buy w)
    | inr (a, g) ↦
        elim (Result-cases (assert_covers_buy run.platform run.coder a.payload.intent buy)) [
          | inr (e, c) ↦ ground (arith, g, c, h)
          | inl (u, c) ↦ elim (Bool-cases (state_eq a.state included)) [
            | inr i ↦ ground (arith, g, c, i, h, unsettled_lem buy a w)
            | inl i ↦ elim (Bool-cases (state_eq a.state reverted)) [
              | inl r ↦ ground (arith, g, c, r, h)
              | inr r ↦ elim (Bool-cases (state_eq a.state skipped)) [
                | inl k ↦ ground (arith, g, c, r, k, h)
                | inr k ↦ ground (arith, g, c, i, r, k, h, included_lem buy a w)
              ]
            ]
          ]
        ]
  ]
