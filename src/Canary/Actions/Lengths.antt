-- ===== src/Canary/Actions/Lengths.antt =====
-- The calls of the action tables of src/canary that change a row neither add one nor delete one.
use sentry_forensic_gate.Base.{
  ℕ, ◌≡◌, refl, ◌&&◌, List, Text, to_lower_case, arith, length, find, length-update_where,
  Bool-cases, Option-cases, inl, inr,
}
use sentry_forensic_gate.Base.Result.{Result, ◌>>=◌, Result-cases}
use sentry_forensic_gate.Canary.Types.{reserved, signed, state_eq}
use sentry_forensic_gate.Canary.Store.{SignedTransaction, is_reconcilable}
use sentry_forensic_gate.Canary.Actions.{
  ActionRow, ActionError, has_id, patch_signed, submit, halt, include, revert, transition,
  mark_signed, mark_submitted, mark_safe_halt, mark_included, mark_reverted, hash_taken,
  check_provenance, check_signed,
}

module _ {P : Type 0} where
  pub length-mark_submitted :
      (id : Text) (now : ℕ) (rows : List (ActionRow P))
      → length (mark_submitted id now rows).1 ≡ length rows
  unfolding mark_submitted transition
  length-mark_submitted id now rows =
      length-update_where (λ r. has_id id r && state_eq r.state signed) (submit now) rows

  pub length-mark_safe_halt :
      (id error : Text) (now : ℕ) (rows : List (ActionRow P))
      → length (mark_safe_halt id error now rows).1 ≡ length rows
  unfolding mark_safe_halt
  length-mark_safe_halt id error now rows =
      ground (arith, length-update_where (has_id id) (halt error now) rows)

  pub length-mark_signed :
      (keccak256 : Text → Text) (id : Text) (tx : SignedTransaction) (now : ℕ)
      (rows : List (ActionRow P))
      → length (mark_signed keccak256 id tx now rows).1 ≡ length rows
  unfolding mark_signed transition
  length-mark_signed keccak256 id tx now rows =
      let k =
        length-update_where (λ (r : ActionRow P). has_id id r && state_eq r.state reserved)
          (patch_signed tx now) rows in
      elim (Result-cases (check_signed keccak256 tx)) [
        | inr (x, q) ↦ rw (q, mark_signed) refl
        | inl (u, q) ↦ elim (Bool-cases (hash_taken id (to_lower_case tx.transaction_hash) rows)) [
          | inl t ↦ rw (q, t, mark_signed) refl
          | inr t ↦ rw (q, t, mark_signed) k
        ]
      ]

  pub length-mark_included :
      (keccak256 : Text → Text) (accepts : P → ℕ → Result ActionError P) (id : Text)
      (observed now : ℕ) (rows : List (ActionRow P))
      → length (mark_included keccak256 accepts id observed now rows).1 ≡ length rows
  unfolding mark_included
  length-mark_included keccak256 accepts id observed now rows =
      elim (Option-cases (find (has_id id) rows)) [
        | inl q ↦ rw (q, mark_included) refl
        | inr (row, q) ↦ elim (Bool-cases (is_reconcilable row.state)) [
          | inr t ↦ rw (q, t, mark_included) refl
          | inl t ↦
              elim (Result-cases (
                check_provenance keccak256 id row.transaction_hash row.serialized_transaction
                >>= λ u. accepts row.payload observed)) [
                  | inr (x, c) ↦ rw (q, t, c, mark_included) refl
                  | inl (payload, c) ↦
                      rw (q, t, c, mark_included)
                        (length-update_where (has_id id) (include payload now) rows)
                ]
        ]
      ]

  pub length-mark_reverted :
      (keccak256 : Text → Text) (id : Text) (now : ℕ) (rows : List (ActionRow P))
      → length (mark_reverted keccak256 id now rows).1 ≡ length rows
  unfolding mark_reverted
  length-mark_reverted keccak256 id now rows =
      ground (arith, length-update_where (has_id id) (revert now) rows)
