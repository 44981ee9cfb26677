-- ===== src/Canary/Store.antt =====
-- src/canary/store.ts: the table `canary_actions`, its UNIQUE columns and its partial UNIQUE index.
-- The rows stand in the order of their insertion. A call that throws gives the rows back too, since
-- a write that was made stays. The JSON columns hold the values that they print and parse.
pub mod Constraints
pub mod OneBuy
mod Tests
pub mod Insertion
pub mod History
pub mod Lifecycle
use sentry_forensic_gate.Base.{
  ℕ, suc, Bool, true, false, ◌&&◌, ◌||◌, not, Option, none, some, List, [], ◌∷◌, ◌++◌, map, Text,
  text_eq, to_lower_case, leb, ◌==◌, if◌then◌else◌, any, find, select, count, update_where, take,
  get_or_else,
}
use sentry_forensic_gate.Base.Result.{Result, ok, err}
use sentry_forensic_gate.Canary.Types.{
  FastVetDecision, pass, CanaryActionState, skipped, reserved, signed, submitted, included,
  reverted, safe_halt, state_eq, decision_eq, CanaryActionRecord, CanaryError,
  action_identity_conflict, action_insert_rejected, action_missing, state_transition_failed,
  safe_halt_invalid_state, included_invalid_state, reverted_invalid_state,
  multiple_committed_buys_invariant_broken, unique_constraint_failed,
}

abbrev pub Rows : Type 0
Rows = List CanaryActionRecord

-- What a call does to the table.
abbrev pub Action : Type 0 → Type 0
Action A = Rows → Result CanaryError A × Rows

pub data CanaryInsertResult : Type 0 where
  inserted duplicate buy_limit : CanaryInsertResult

-- `decision = 'PASS' AND state <> 'SKIPPED'`: the rows of the index of committed buys.
unfoldable pub is_committed_buy : CanaryActionRecord → Bool
is_committed_buy r = decision_eq r.decision pass && not (state_eq r.state skipped)

-- `state IN ('RESERVED', 'SIGNED', 'SUBMITTED', 'SAFE_HALT')`
abbrev pub is_unresolved : CanaryActionState → Bool
is_unresolved reserved = true
is_unresolved signed = true
is_unresolved submitted = true
is_unresolved safe_halt = true
is_unresolved _ = false

-- `['SIGNED', 'SUBMITTED', 'SAFE_HALT'].includes(state)`
abbrev pub is_reconcilable : CanaryActionState → Bool
is_reconcilable signed = true
is_reconcilable submitted = true
is_reconcilable safe_halt = true
is_reconcilable _ = false

-- In a UNIQUE column NULLs are distinct.
unfoldable pub same_hash : Option Text → Option Text → Bool
same_hash (some a) (some b) = text_eq a b
same_hash _ _ = false

-- Two rows that the table's constraints keep apart: PRIMARY KEY(action_id), UNIQUE(launch_id),
-- UNIQUE(transaction_hash), and the index of committed buys.
unfoldable pub collides : CanaryActionRecord → CanaryActionRecord → Bool
collides a b =
    text_eq a.action_id b.action_id
    || text_eq a.launch_id b.launch_id
    || same_hash a.transaction_hash b.transaction_hash
    || is_committed_buy a && is_committed_buy b

abbrev pub has_id : Text → CanaryActionRecord → Bool
has_id action_id r = text_eq r.action_id action_id

unfoldable pub count_committed_buys : Rows → ℕ
count_committed_buys rows = count is_committed_buy rows

unfoldable pub get_action : Text → Rows → Option CanaryActionRecord
get_action action_id rows = find (has_id action_id) rows

-- ORDER BY created_at_ms, action_id, where the texts compare by `le_text`.
module _ (le_text : Text → Text → Bool) where
  abbrev before : CanaryActionRecord → CanaryActionRecord → Bool
  before a b =
      if a.created_at_ms == b.created_at_ms
      then le_text a.action_id b.action_id
      else leb a.created_at_ms b.created_at_ms

  insert_row : CanaryActionRecord → Rows → Rows
  insert_row r [] = r ∷ []
  insert_row r (x ∷ xs) = if before r x then r ∷ x ∷ xs else x ∷ insert_row r xs

  order_rows : Rows → Rows
  unfolding insert_row
  order_rows [] = []
  order_rows (x ∷ xs) = insert_row x (order_rows xs)

  unfoldable pub list_unresolved_actions : Rows → Rows
  unfolding order_rows
  list_unresolved_actions rows = order_rows (select (λ r. is_unresolved r.state) rows)

  the_only_row : Rows → Result CanaryError (Option CanaryActionRecord)
  the_only_row [] = ok none
  the_only_row (r ∷ []) = ok (some r)
  the_only_row (r ∷ s ∷ rest) = err multiple_committed_buys_invariant_broken

  unfoldable pub get_committed_buy : Rows → Result CanaryError (Option CanaryActionRecord)
  unfolding order_rows the_only_row
  get_committed_buy rows = the_only_row (take 2 (order_rows (select is_committed_buy rows)))

-- The row as `insert` stores it.
abbrev pub stored : CanaryActionRecord → CanaryActionRecord
stored r = record r { origin_decision_block_hash = to_lower_case r.origin_decision_block_hash }

-- The second half of `insert`, after INSERT OR IGNORE has changed nothing.
unfoldable pub classify_ignored : CanaryActionRecord → Rows → Result CanaryError CanaryInsertResult
unfolding count_committed_buys
classify_ignored r rows =
    elim (find (λ row. has_id r.action_id row || text_eq row.launch_id r.launch_id) rows) [
      | some existing ↦
          if text_eq existing.action_id r.action_id && text_eq existing.baseline_id r.baseline_id
          then ok duplicate
          else err (action_identity_conflict r.launch_id)
      | none ↦
          if is_committed_buy r && leb 1 (count_committed_buys rows)
          then ok buy_limit
          else err (action_insert_rejected r.launch_id)
    ]

unfoldable pub insert : CanaryActionRecord → Action CanaryInsertResult
unfolding collides classify_ignored
insert r rows =
    if any (λ row. collides row (stored r)) rows
    then (classify_ignored r rows, rows)
    else (ok inserted, rows ++ stored r ∷ [])

-- The columns that `transition` patches.
pub record SignedTransaction : Type 0 where
  pub nonce : ℕ
  pub transaction_hash : Text
  pub serialized_transaction : Text

-- UPDATE … WHERE action_id = ? AND state = ?, which throws if it changed no row.
unfoldable pub transition :
    Text
    → CanaryActionState
    → CanaryActionState
    → (CanaryActionRecord → CanaryActionRecord)
    → Action (Unit {0})
transition action_id expected next patch rows =
    let matches = λ (r : CanaryActionRecord). has_id action_id r && state_eq r.state expected in
    (
      if count matches rows == 1
          then ok tt
          else err (state_transition_failed action_id expected next),
      update_where matches (λ r. record (patch r) { state = next }) rows,
    )

abbrev pub patch_signed : SignedTransaction → ℕ → CanaryActionRecord → CanaryActionRecord
patch_signed tx now r = record r {
  nonce = some tx.nonce;
  transaction_hash = some (to_lower_case tx.transaction_hash);
  serialized_transaction = some tx.serialized_transaction;
  updated_at_ms = now;
}

-- Whether the UPDATE of `markSigned` would give its transaction hash to a second row.
abbrev pub hash_taken : Text → Text → Rows → Bool
hash_taken action_id hash rows =
    any (λ r. has_id action_id r && state_eq r.state reserved) rows
    && any
        (λ r.
          not (has_id action_id r && state_eq r.state reserved)
          && same_hash r.transaction_hash (some hash))
        rows

unfoldable pub mark_signed : Text → SignedTransaction → ℕ → Action (Unit {0})
unfolding transition
mark_signed action_id tx now rows =
    if hash_taken action_id (to_lower_case tx.transaction_hash) rows
    then (err unique_constraint_failed, rows)
    else transition action_id reserved signed (patch_signed tx now) rows

unfoldable pub mark_submitted : Text → ℕ → Action (Unit {0})
unfolding transition
mark_submitted action_id now =
    transition action_id signed submitted (λ r. record r { updated_at_ms = now })

-- `error.slice(0, 512)`
abbrev pub max_error_length : ℕ
max_error_length = 512

-- The rows as the calls below leave them.
abbrev pub signed_with : SignedTransaction → ℕ → CanaryActionRecord → CanaryActionRecord
signed_with tx now r = record (patch_signed tx now r) { state = signed }

abbrev pub halted : Text → ℕ → CanaryActionRecord → CanaryActionRecord
halted error now r = record r {
  state = safe_halt;
  last_error = some (take max_error_length error);
  updated_at_ms = now;
}

abbrev pub included_with : ℕ → ℕ → CanaryActionRecord → CanaryActionRecord
included_with balance now r = record r {
  state = included;
  output_balance_after = some balance;
  updated_at_ms = now;
}

abbrev pub reverted_at : ℕ → CanaryActionRecord → CanaryActionRecord
reverted_at now r = record r { state = reverted; updated_at_ms = now }

unfoldable pub mark_safe_halt : Text → Text → ℕ → Action (Unit {0})
unfolding get_action
mark_safe_halt action_id error now rows = elim (get_action action_id rows) [
  | none ↦ (err (action_missing action_id), rows)
  | some row ↦
      if is_unresolved row.state
      then (ok tt, update_where (has_id action_id) (halted error now) rows)
      else (err (safe_halt_invalid_state row.state), rows)
]

unfoldable pub mark_included : Text → ℕ → ℕ → Action (Unit {0})
unfolding get_action
mark_included action_id output_balance_after now rows = elim (get_action action_id rows) [
  | none ↦ (err (included_invalid_state none), rows)
  | some row ↦
      if is_reconcilable row.state
      then (ok tt, update_where (has_id action_id) (included_with output_balance_after now) rows)
      else (err (included_invalid_state (some row.state)), rows)
]

unfoldable pub mark_reverted : Text → ℕ → Action (Unit {0})
unfolding get_action
mark_reverted action_id now rows = elim (get_action action_id rows) [
  | none ↦ (err (reverted_invalid_state none), rows)
  | some row ↦
      if is_reconcilable row.state
      then (ok tt, update_where (has_id action_id) (reverted_at now) rows)
      else (err (reverted_invalid_state (some row.state)), rows)
]

-- The calls that write the table.
pub data Call : Type 0 where
  inserts : CanaryActionRecord → Call
  signs : Text → SignedTransaction → ℕ → Call
  submits : Text → ℕ → Call
  halts : Text → Text → ℕ → Call
  includes : Text → ℕ → ℕ → Call
  reverts : Text → ℕ → Call

unfoldable pub after : Call → Rows → Rows
after (inserts r) rows = (insert r rows).1
after (signs id tx now) rows = (mark_signed id tx now rows).1
after (submits id now) rows = (mark_submitted id now rows).1
after (halts id error now) rows = (mark_safe_halt id error now rows).1
after (includes id balance now) rows = (mark_included id balance now rows).1
after (reverts id now) rows = (mark_reverted id now rows).1

unfoldable pub after_all : List Call → Rows → Rows
after_all [] rows = rows
after_all (c ∷ cs) rows = after_all cs (after c rows)
