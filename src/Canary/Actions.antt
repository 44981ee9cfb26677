-- ===== src/Canary/Actions.antt =====
-- What the action tables of src/canary share: entryApprovalStore.ts, entryApprovalRevokeStore.ts,
-- approvalStore.ts and exitStore.ts write their rows by the same methods, and differ in the columns
-- of their actions (`P`), in the columns that are UNIQUE, and in what they take for an inclusion.
pub mod Lengths
pub mod Lifecycle
mod Tests
use sentry_forensic_gate.Base.{
  ℕ, ◌-◌, ◌^◌, Bool, true, false, ◌&&◌, ◌||◌, not, Option, none, some, List, [], ◌∷◌, ◌++◌, Text,
  text_eq, to_lower_case, is_empty, leb, ltb, ◌==◌, if◌then◌else◌, any, find, select, count,
  update_where, take, sort_by,
}
use sentry_forensic_gate.Base.Result.{Result, ok, err, ◌>>=◌, ◌>>◌, throw_if}
use sentry_forensic_gate.Canary.Types.{
  CanaryActionState, skipped, reserved, signed, submitted, included, reverted, safe_halt, state_eq,
}
use sentry_forensic_gate.Canary.Store.{
  SignedTransaction, is_unresolved, is_reconcilable, same_hash, max_error_length,
}

-- A row: the columns of its transaction, and the others.
pub record ActionRow (P : Type 0) : Type 0 where
  pub action_id : Text
  pub state : CanaryActionState
  pub nonce : Option ℕ
  pub transaction_hash : Option Text
  pub serialized_transaction : Option Text
  pub last_error : Option Text
  pub created_at_ms : ℕ
  pub updated_at_ms : ℕ
  pub payload : P

-- The codes of the errors, without the prefix of their store.
pub data ActionError : Type 0 where
  nonce_invalid : ℕ → ActionError
  signed_identity_mismatch : ActionError
  state_transition_failed : Text → CanaryActionState → CanaryActionState → ActionError
  action_missing : Text → ActionError
  safe_halt_invalid_state : CanaryActionState → ActionError
  included_invalid_state reverted_invalid_state : Option CanaryActionState → ActionError
  signed_provenance_missing reconcile_identity_mismatch : Text → ActionError
  -- what an inclusion must have observed
  allowance_not_exact : ℕ → ℕ → ActionError
  allowance_not_zero : ℕ → ActionError
  output_balance_before_missing : ActionError
  output_balance_did_not_increase : ℕ → ℕ → ActionError
  -- what SQLite throws at an UPDATE that breaks a UNIQUE column
  unique_constraint_failed : ActionError

abbrev pub max_safe_integer : ℕ
max_safe_integer = 9_007_199_254_740_991

module _ {P : Type 0} where
  abbrev pub has_id : Text → ActionRow P → Bool
  has_id action_id r = text_eq r.action_id action_id

  -- PRIMARY KEY(action_id), UNIQUE(transaction_hash) and the UNIQUE columns of the store.
  unfoldable pub collides : (P → P → Bool) → ActionRow P → ActionRow P → Bool
  collides unique a b =
      text_eq a.action_id b.action_id
      || same_hash a.transaction_hash b.transaction_hash
      || unique a.payload b.payload

  -- INSERT OR IGNORE: `none` is a row that was ignored.
  unfoldable pub insert_or_ignore :
      (P → P → Bool) → ActionRow P → List (ActionRow P) → Option (List (ActionRow P))
  unfolding collides
  insert_or_ignore unique r rows =
      if any (λ row. collides unique row r) rows then none else some (rows ++ r ∷ [])

  -- The rows whose state is unresolved, ORDER BY created_at_ms, action_id.
  unfoldable pub list_unresolved : (Text → Text → Bool) → List (ActionRow P) → List (ActionRow P)
  list_unresolved le_text rows =
      sort_by
        (λ a b.
          if a.created_at_ms == b.created_at_ms
          then le_text a.action_id b.action_id
          else leb a.created_at_ms b.created_at_ms)
        (select (λ r. is_unresolved r.state) rows)

  abbrev pub patch_signed : SignedTransaction → ℕ → ActionRow P → ActionRow P
  patch_signed tx now r = record r {
    state = signed;
    nonce = some tx.nonce;
    transaction_hash = some (to_lower_case tx.transaction_hash);
    serialized_transaction = some tx.serialized_transaction;
    updated_at_ms = now;
  }

  abbrev pub submit : ℕ → ActionRow P → ActionRow P
  submit now r = record r { state = submitted; updated_at_ms = now }

  abbrev pub halt : Text → ℕ → ActionRow P → ActionRow P
  halt error now r = record r {
    state = safe_halt;
    last_error = some (take max_error_length error);
    updated_at_ms = now;
  }

  abbrev pub include : P → ℕ → ActionRow P → ActionRow P
  include payload now r = record r { state = included; payload = payload; updated_at_ms = now }

  abbrev pub revert : ℕ → ActionRow P → ActionRow P
  revert now r = record r { state = reverted; updated_at_ms = now }

  -- `zeroed` writes an allowance of 0 among the other columns.
  abbrev pub clean : (P → P) → Text → ℕ → ActionRow P → ActionRow P
  clean zeroed error now r = record r {
    state = skipped;
    payload = zeroed r.payload;
    last_error = some error;
    updated_at_ms = now;
  }

  -- What `markCleanupTerminal` of entryApprovalStore.ts, which that table alone has, writes.
  unfoldable pub clean_included :
      (P → P) → Text → Text → ℕ → List (ActionRow P) → List (ActionRow P)
  clean_included zeroed action_id error now rows = elim (find (has_id action_id) rows) [
    | none ↦ rows
    | some row ↦
        if state_eq row.state included
        then update_where (λ r. has_id action_id r && state_eq r.state included)
            (clean zeroed error now) rows
        else rows
  ]

  -- UPDATE … WHERE action_id = ? AND state = ?, which throws if it changed no row.
  unfoldable pub transition :
      Text
      → CanaryActionState
      → CanaryActionState
      → (ActionRow P → ActionRow P)
      → List (ActionRow P)
      → Result ActionError (Unit {0}) × List (ActionRow P)
  transition action_id expected next patch rows =
      let matches = λ (r : ActionRow P). has_id action_id r && state_eq r.state expected in
      (
        if count matches rows == 1
            then ok tt
            else err (state_transition_failed action_id expected next),
        update_where matches patch rows,
      )

  unfoldable pub mark_submitted :
      Text → ℕ → List (ActionRow P) → Result ActionError (Unit {0}) × List (ActionRow P)
  unfolding transition
  mark_submitted action_id now = transition action_id signed submitted (submit now)

  unfoldable pub mark_safe_halt :
      Text → Text → ℕ → List (ActionRow P) → Result ActionError (Unit {0}) × List (ActionRow P)
  mark_safe_halt action_id error now rows = elim (find (has_id action_id) rows) [
    | none ↦ (err (action_missing action_id), rows)
    | some row ↦
        if is_unresolved row.state
        then (ok tt, update_where (has_id action_id) (halt error now) rows)
        else (err (safe_halt_invalid_state row.state), rows)
  ]

-- Whether the UPDATE of `markSigned` would give its transaction hash to a second row.
abbrev pub hash_taken : {P : Type 0} → Text → Text → List (ActionRow P) → Bool
hash_taken action_id hash rows =
    any (λ r. has_id action_id r && state_eq r.state reserved) rows
    && any
        (λ r.
          not (has_id action_id r && state_eq r.state reserved)
          && same_hash r.transaction_hash (some hash))
        rows

-- The methods that check a transaction's identity by `keccak256` of viem.
module _ (keccak256 : Text → Text) where
  -- `derivedHash.toLowerCase() !== transactionHash.toLowerCase()`, negated
  unfoldable pub matches_keccak : Text → Text → Bool
  matches_keccak serialized hash =
      text_eq (to_lower_case (keccak256 serialized)) (to_lower_case hash)

  unfoldable pub check_signed : SignedTransaction → Result ActionError (Unit {0})
  unfolding matches_keccak
  check_signed tx = do
    throw_if (not (leb tx.nonce max_safe_integer)) (nonce_invalid tx.nonce)
    throw_if (not (matches_keccak tx.serialized_transaction tx.transaction_hash))
        signed_identity_mismatch

  -- `assertSignedProvenance`: a NULL and an empty column are both missing.
  unfoldable pub check_provenance : Text → Option Text → Option Text → Result ActionError (Unit {0})
  unfolding matches_keccak
  check_provenance action_id (some hash) (some serialized) = do
    throw_if (is_empty hash || is_empty serialized) (signed_provenance_missing action_id)
    throw_if (not (matches_keccak serialized hash)) (reconcile_identity_mismatch action_id)
  check_provenance action_id _ _ = err (signed_provenance_missing action_id)

  module _ {P : Type 0} where
    unfoldable pub mark_signed :
        Text
        → SignedTransaction
        → ℕ
        → List (ActionRow P)
        → Result ActionError (Unit {0}) × List (ActionRow P)
    unfolding check_signed transition
    mark_signed action_id tx now rows = elim (check_signed tx) [
      | err e ↦ (err e, rows)
      | ok u ↦
          if hash_taken action_id (to_lower_case tx.transaction_hash) rows
          then (err unique_constraint_failed, rows)
          else transition action_id reserved signed (patch_signed tx now) rows
    ]

    -- `accepts` makes the columns of an inclusion from what was observed, or refuses it.
    unfoldable pub mark_included :
        (P → ℕ → Result ActionError P)
        → Text
        → ℕ
        → ℕ
        → List (ActionRow P)
        → Result ActionError (Unit {0}) × List (ActionRow P)
    unfolding check_provenance
    mark_included accepts action_id observed now rows = elim (find (has_id action_id) rows) [
      | none ↦ (err (included_invalid_state none), rows)
      | some row ↦
          if not (is_reconcilable row.state)
          then (err (included_invalid_state (some row.state)), rows)
          else elim (check_provenance action_id row.transaction_hash row.serialized_transaction
              >>= λ u. accepts row.payload observed) [
                | err e ↦ (err e, rows)
                | ok payload ↦ (ok tt, update_where (has_id action_id) (include payload now) rows)
              ]
    ]

    unfoldable pub mark_reverted :
        Text → ℕ → List (ActionRow P) → Result ActionError (Unit {0}) × List (ActionRow P)
    unfolding check_provenance
    mark_reverted action_id now rows = elim (find (has_id action_id) rows) [
      | none ↦ (err (reverted_invalid_state none), rows)
      | some row ↦
          if not (is_reconcilable row.state)
          then (err (reverted_invalid_state (some row.state)), rows)
          else elim (check_provenance action_id row.transaction_hash row.serialized_transaction) [
            | err e ↦ (err e, rows)
            | ok u ↦ (ok tt, update_where (has_id action_id) (revert now) rows)
          ]
    ]
