-- ===== src/Canary/EntryApprovalStore/Cleanup.antt =====
-- `markCleanupTerminal` of src/canary/entryApprovalStore.ts, called again.
use sentry_forensic_gate.Base.{
  ℕ, ◌≡◌, refl, inl, inr, ◌&&◌, Text, text_eq_iff, arith, find, some, Option-cases, Bool-cases,
  find_holds,
}
use sentry_forensic_gate.Base.Result.{ok}
use sentry_forensic_gate.Canary.Types.{included, state_eq}
use sentry_forensic_gate.Canary.Actions.{has_id, clean_included}
use sentry_forensic_gate.Canary.Actions.Lifecycle.{find-update_where}
use sentry_forensic_gate.Canary.EntryApprovalStore.Record.{EntryRow, StoredColumns}
use sentry_forensic_gate.Canary.EntryApprovalStore.{
  EntryStore, mark_cleanup_terminal, check_cleaned_up, clean_up, terminal_reason,
}

-- A cleanup that succeeds succeeds again with the same reason, at whatever time, and then changes
-- nothing.
pub mark_cleanup_terminal-IsIdempotent :
    (id reason : Text) (now later : ℕ) (s : EntryStore)
    → (mark_cleanup_terminal id reason now s).0 ≡ ok tt
    → mark_cleanup_terminal id reason later (mark_cleanup_terminal id reason now s).1
      ≡ (ok tt, (mark_cleanup_terminal id reason now s).1)
unfolding mark_cleanup_terminal check_cleaned_up
mark_cleanup_terminal-IsIdempotent id reason now later s h =
    elim (Option-cases (find (has_id id) s.rows)) [
      | inl q ↦ ground (arith, q, h)
      | inr (row, q) ↦ ground (
        arith,
        q,
        h,
        find-update_where id (λ (r : EntryRow). has_id id r && state_eq r.state included)
            (clean_up reason now) s.rows row (λ (x : EntryRow). refl),
        find_holds (has_id id) s.rows row q,
        text_eq_iff (terminal_reason reason) (terminal_reason reason),
      )
    ]

zero_after : StoredColumns → StoredColumns
zero_after p =
    let columns = p.columns in
    record p { columns = record columns { observed_allowance_after = some 0 } }

-- What a cleanup does to the rows is the cleanup of the action tables, whatever it answers.
mark_cleanup_terminal-clean_included :
    (id reason : Text) (now : ℕ) (s : EntryStore)
    → (mark_cleanup_terminal id reason now s).1.rows
      ≡ clean_included zero_after id (terminal_reason reason) now s.rows
unfolding mark_cleanup_terminal clean_included zero_after
mark_cleanup_terminal-clean_included id reason now s =
    elim (Option-cases (find (has_id id) s.rows)) [
      | inl q ↦ rw (q, mark_cleanup_terminal, clean_included) refl
      | inr (row, q) ↦ elim (Bool-cases (state_eq row.state included)) [
        | inl t ↦ ground (arith, q, t)
        | inr t ↦ ground (arith, q, t)
      ]
    ]
