-- ===== src/Canary/EntryApprovalStore.antt =====
-- src/canary/entryApprovalStore.ts: the table `canary_entry_approval_actions`, whose singleton key
-- leaves room for one row, with the capabilities that the process holds in memory. A fresh
-- capability, the clock and viem's `keccak256` are arguments.
pub mod Record
pub mod Once
pub mod Tests
pub mod Life
pub mod Cleanup
use sentry_forensic_gate.Base.{
  ℕ, Bool, true, false, ◌&&◌, ◌||◌, not, Option, none, some, List, [], ◌∷◌, ◌++◌, Text, codes,
  is_empty, text_eq, ◌==◌, if◌then◌else◌, find, count, update_where, take, map, get_key, set_key,
  delete_key, has_member, add_member, delete_member, is_some,
}
use sentry_forensic_gate.Base.Result.{Result, ok, err}
use sentry_forensic_gate.Base.Exec.{Exec, pure, throw, lift, gets, modify, throw_when, ◌>>=◌, ◌>>◌}
use sentry_forensic_gate.Evidence.Canonical.{Json}
use sentry_forensic_gate.Canary.Types.{
  CanarySwapIntent, CanaryActionState, skipped, reserved, included, state_eq,
}
use sentry_forensic_gate.Canary.SwapIntent.{Platform}
use sentry_forensic_gate.Canary.Store.{SignedTransaction, max_error_length}
use sentry_forensic_gate.Canary.EntryApproval.{ApprovalCoder}
use sentry_forensic_gate.Canary.Actions.{ActionRow, ActionError, has_id, insert_or_ignore}
use sentry_forensic_gate.Canary.Actions
use sentry_forensic_gate.Canary.EntryApprovalStore.Record.{
  EntryColumns, StoredColumns, EntryRecord, EntryRow, from_row, to_row, EntryStoreError, of_action,
  insert_rejected, parent_buy_authority_missing, parent_buy_digest_mismatch,
  parent_buy_digest_drift, action_missing, signing_capability_invalid,
  signing_authority_not_consumed, sign_state_invalid, cleanup_invalid_state,
  cleanup_terminal_allowance_not_zero, cleanup_terminal_reason_drift,
  cleanup_terminal_transition_failed, buy_digest, accept_exact, check_insertion,
}

pub record EntryStore : Type 0 where
  pub rows : List EntryRow
  pub signing_capabilities : List (Text × Text)
  pub consumed_signing_actions : List Text

abbrev pub EntryAction : Type 0 → Type 0
EntryAction A = Exec EntryStoreError EntryStore A

pub data EntryInsertResult : Type 0 where
  inserted : Text → EntryInsertResult
  duplicate entry_slot_taken : EntryInsertResult

-- UNIQUE(singleton_key): any two rows collide.
abbrev pub unique : StoredColumns → StoredColumns → Bool
unique _ _ = true

abbrev pub of_action_result : {A : Type 0} → Result ActionError A → Result EntryStoreError A
of_action_result (ok a) = ok a
of_action_result (err e) = err (of_action e)

abbrev pub first_row : List EntryRow → Option EntryRow
first_row [] = none
first_row (r ∷ rows) = some r

-- A method that the tables share.
abbrev pub on_rows :
    {A : Type 0} → (List EntryRow → Result ActionError A × List EntryRow) → EntryAction A
on_rows f s = let (r, rows) = f s.rows in (of_action_result r, record s { rows = rows })

abbrev pub get_or_empty : Option Text → Text
get_or_empty none = []
get_or_empty (some t) = t

abbrev pub holds_text : Option Text → Bool
holds_text none = false
holds_text (some t) = not (is_empty t)

-- The second half of `insertReserved`, after INSERT OR IGNORE has changed nothing.
unfoldable pub classify_ignored :
    EntryRecord → Text → List EntryRow → Result EntryStoreError EntryInsertResult
classify_ignored r digest rows = elim (first_row rows) [
  | none ↦ err insert_rejected
  | some x ↦
      let c = x.payload.columns in
      if text_eq x.action_id r.action_id
        && text_eq c.parent_buy_action_id r.payload.parent_buy_action_id
        && text_eq c.launch_id r.payload.launch_id
        && text_eq c.baseline_id r.payload.baseline_id
      then (if not (holds_text x.payload.parent_buy_digest)
            || not (is_some x.payload.parent_buy_intent)
          then err parent_buy_authority_missing
          else (if not (text_eq (get_or_empty x.payload.parent_buy_digest) digest)
              then err parent_buy_digest_mismatch
              else ok duplicate))
      else ok entry_slot_taken
]

unfoldable pub assert_signing_capability : Text → Text → EntryAction (Unit {0})
assert_signing_capability action_id capability s = elim (get_key action_id s.signing_capabilities) [
  | none ↦ (err (signing_capability_invalid action_id), s)
  | some expected ↦
      if is_empty expected || not (text_eq capability expected)
      then (err (signing_capability_invalid action_id), s)
      else (ok tt, s)
]

module _ (platform : Platform) (coder : ApprovalCoder) (keccak256 : Text → Text) where
  -- `randomBytes(32)` made `fresh`.
  unfoldable pub insert_reserved :
      Text → EntryRecord → CanarySwapIntent → EntryAction EntryInsertResult
  unfolding classify_ignored
  insert_reserved fresh r buy = do
    lift (check_insertion platform coder r buy)
    let digest = buy_digest platform.digest buy
    s ← gets (λ s. s)
    elim (insert_or_ignore unique (to_row digest buy r) s.rows) [
      | none ↦ lift (classify_ignored r digest s.rows)
      | some rows ↦
          modify (λ s. record s {
            rows = rows;
            signing_capabilities = set_key r.action_id fresh s.signing_capabilities;
          })
          >> pure (inserted fresh)
    ]

  -- A row whose digest or whose intent is missing is refused, and so is an intent of another digest.
  unfoldable pub check_authority :
      Option Text → Option CanarySwapIntent → Result EntryStoreError CanarySwapIntent
  check_authority none _ = err parent_buy_authority_missing
  check_authority (some digest) none = err parent_buy_authority_missing
  check_authority (some digest) (some buy) =
      if is_empty digest
      then err parent_buy_authority_missing
      else (if text_eq (buy_digest platform.digest buy) digest
          then ok buy
          else err parent_buy_digest_drift)

  unfoldable pub get_authoritative_parent_buy_intent : Text → EntryAction CanarySwapIntent
  unfolding check_authority
  get_authoritative_parent_buy_intent action_id s = elim (find (has_id action_id) s.rows) [
    | none ↦ (err (action_missing action_id), s)
    | some row ↦
        if not (state_eq row.state reserved)
        then (err (sign_state_invalid row.state), s)
        else (check_authority row.payload.parent_buy_digest row.payload.parent_buy_intent, s)
  ]

  -- The capability is deleted before the authority is read.
  unfoldable pub consume_signing_authority : Text → Text → EntryAction CanarySwapIntent
  unfolding assert_signing_capability get_authoritative_parent_buy_intent
  consume_signing_authority action_id capability = do
    assert_signing_capability action_id capability
    modify (λ s. record s { signing_capabilities = delete_key action_id s.signing_capabilities })
    buy ← get_authoritative_parent_buy_intent action_id
    modify (λ s. record s {
      consumed_signing_actions = add_member action_id s.consumed_signing_actions;
    })
    pure buy

  unfoldable pub mark_signed : Text → SignedTransaction → ℕ → EntryAction (Unit {0})
  mark_signed action_id tx now = do
    s ← gets (λ s. s)
    throw_when (not (has_member action_id s.consumed_signing_actions))
        (signing_authority_not_consumed action_id)
    on_rows (Actions.mark_signed keccak256 action_id tx now)
    modify (λ s. record s {
      consumed_signing_actions = delete_member action_id s.consumed_signing_actions;
    })

  unfoldable pub mark_included : Text → ℕ → ℕ → EntryAction (Unit {0})
  mark_included action_id observed now =
      on_rows (Actions.mark_included keccak256 accept_exact action_id observed now)

  unfoldable pub mark_reverted : Text → ℕ → EntryAction (Unit {0})
  mark_reverted action_id now = on_rows (Actions.mark_reverted keccak256 action_id now)

unfoldable pub mark_submitted : Text → ℕ → EntryAction (Unit {0})
mark_submitted action_id now = on_rows (Actions.mark_submitted action_id now)

unfoldable pub mark_safe_halt : Text → Text → ℕ → EntryAction (Unit {0})
mark_safe_halt action_id error now = do
  on_rows (Actions.mark_safe_halt action_id error now)
  modify (λ s. record s {
    signing_capabilities = delete_key action_id s.signing_capabilities;
    consumed_signing_actions = delete_member action_id s.consumed_signing_actions;
  })

abbrev pub terminal_reason : Text → Text
terminal_reason reason =
    take max_error_length (codes "CANARY_E0_ENTRY_APPROVAL_CLEANUP_TERMINAL:" ++ reason)

-- The row of a buy that will not be made, once its allowance is revoked.
abbrev pub clean_up : Text → ℕ → EntryRow → EntryRow
clean_up reason now r =
    let p = r.payload in
    let columns = p.columns in
    record r {
      state = skipped;
      payload = record p { columns = record columns { observed_allowance_after = some 0 } };
      last_error = some (terminal_reason reason);
      updated_at_ms = now;
    }

abbrev pub is_zero : Option ℕ → Bool
is_zero none = false
is_zero (some n) = n == 0

abbrev pub is_text : Text → Option Text → Bool
is_text t none = false
is_text t (some e) = text_eq e t

-- What it answers for a row that was cleaned up before.
unfoldable pub check_cleaned_up : Text → EntryRow → Result EntryStoreError (Unit {0})
check_cleaned_up reason r =
    let after = r.payload.columns.observed_allowance_after in
    if not (is_zero after)
    then err (cleanup_terminal_allowance_not_zero after)
    else (if not (is_text (terminal_reason reason) r.last_error)
        then err cleanup_terminal_reason_drift
        else ok tt)

unfoldable pub mark_cleanup_terminal : Text → Text → ℕ → EntryAction (Unit {0})
unfolding check_cleaned_up
mark_cleanup_terminal action_id reason now s = elim (find (has_id action_id) s.rows) [
  | none ↦ (err (action_missing action_id), s)
  | some row ↦
      if state_eq row.state skipped
      then (check_cleaned_up reason row, s)
      else (if not (state_eq row.state included)
          then (err (cleanup_invalid_state row.state), s)
          else (
            if count (λ r. has_id action_id r && state_eq r.state included) s.rows == 1
                then ok tt
                else err (cleanup_terminal_transition_failed action_id),
            record s {
              rows =
                  update_where (λ r. has_id action_id r && state_eq r.state included)
                    (clean_up reason now) s.rows;
            },
          ))
]

unfoldable pub get_by_parent_buy_action_id : Text → EntryStore → Option EntryRecord
get_by_parent_buy_action_id id s =
    elim (find (λ (r : EntryRow). text_eq r.payload.columns.parent_buy_action_id id) s.rows) [
      | none ↦ none
      | some r ↦ some (from_row r)
    ]

unfoldable pub get_committed : EntryStore → Option EntryRecord
get_committed s = elim (first_row s.rows) [ none ↦ none | some r ↦ some (from_row r) ]

unfoldable pub list_unresolved : (Text → Text → Bool) → EntryStore → List EntryRecord
list_unresolved le_text s = map from_row (Actions.list_unresolved le_text s.rows)

-- `close`, and the next process: the rows stay.
abbrev pub reopen : EntryStore → EntryStore
reopen s = record s { signing_capabilities = []; consumed_signing_actions = [] }
