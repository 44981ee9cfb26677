-- ===== src/Canary/RoundTrip/ApprovalStore.antt =====
-- src/canary/approvalStore.ts: the table `canary_approval_actions`, with the capabilities that the
-- process holds in memory. A fresh capability is an argument.
use sentry_forensic_gate.Base.{
  ℕ, Bool, false, ◌&&◌, ◌||◌, not, Option, none, some, List, Text, is_empty, text_eq, ◌==◌,
  if◌then◌else◌, find, get_key, set_key, delete_key,
}
use sentry_forensic_gate.Base.Result.{Result, ok, err, ◌>>=◌, ◌>>◌, throw_if}
use sentry_forensic_gate.Canary.Types.{
  CanaryActionState, CanaryActionRecord, CanarySwapIntent, CanaryError, reserved, state_eq,
}
use sentry_forensic_gate.Canary.SwapIntent.{
  Platform, ink_swap_router_02, derive_canary_action_id, get_address,
}
use sentry_forensic_gate.Canary.Store.{Rows, SignedTransaction}
use sentry_forensic_gate.Canary.EntryApproval.{
  ApprovalCoder, EntryApprovalError, assert_canary_approval_calldata,
}
use sentry_forensic_gate.Canary.Actions.{
  ActionRow, ActionError, allowance_not_exact, has_id, insert_or_ignore, mark_included,
}
use sentry_forensic_gate.Canary.Actions
use sentry_forensic_gate.Canary.RoundTrip.{ExitError, derive_canary_exit_action_id}
use sentry_forensic_gate.Canary.RoundTrip.Approval.{
  CanaryApprovalIntent, ApprovalError, canary_e0_approval_r0, derive_canary_approval_action_id,
}
use sentry_forensic_gate.Canary.RoundTrip.Acquired.{ParentError, included_parent, check_acquired}

-- `CanaryApprovalActionRecord`, less the columns of `ActionRow`.
pub record ApprovalColumns : Type 0 where
  pub parent_buy_action_id : Text
  pub parent_exit_action_id : Text
  pub launch_id : Text
  pub baseline_id : Text
  pub intent : CanaryApprovalIntent
  pub observed_allowance_before : ℕ
  pub observed_allowance_after : Option ℕ

abbrev pub ApprovalRecord : Type 0
ApprovalRecord = ActionRow ApprovalColumns

pub record ApprovalStore : Type 0 where
  pub rows : List ApprovalRecord
  pub signing_capabilities : List (Text × Text)

pub data ApprovalInsertResult : Type 0 where
  inserted : Text → ApprovalInsertResult
  duplicate : ApprovalInsertResult

-- The codes of the errors, without their prefix CANARY_APPROVAL_.
pub data ApprovalStoreError : Type 0 where
  of_parent : ParentError → ApprovalStoreError
  of_swap : CanaryError → ApprovalStoreError
  of_exit : ExitError → ApprovalStoreError
  of_approval : ApprovalError → ApprovalStoreError
  of_calldata : EntryApprovalError → ApprovalStoreError
  of_action : ActionError → ApprovalStoreError
  initial_state_invalid : CanaryActionState → ApprovalStoreError
  dirty_allowance : ℕ → ApprovalStoreError
  version_invalid intent_action_id_mismatch parent_buy_id_mismatch : ApprovalStoreError
  parent_exit_id_mismatch intent_identity_mismatch spender_not_canonical : ApprovalStoreError
  parent_buy_identity_drift parent_exit_identity_drift : ApprovalStoreError
  action_identity_drift persisted_parent_identity_invalid : ApprovalStoreError
  persisted_parent_router_invalid persisted_parent_intent_binding_mismatch : ApprovalStoreError
  identity_conflict signing_capability_invalid : Text → ApprovalStoreError

-- An error of a callee, as one of the store's.
abbrev pub under :
    {E A : Type 0} → (E → ApprovalStoreError) → Result E A → Result ApprovalStoreError A
under f (ok a) = ok a
under f (err e) = err (f e)

-- UNIQUE(parent_buy_action_id), UNIQUE(parent_exit_action_id), UNIQUE(launch_id)
unfoldable pub unique : ApprovalColumns → ApprovalColumns → Bool
unique a b =
    text_eq a.parent_buy_action_id b.parent_buy_action_id
    || text_eq a.parent_exit_action_id b.parent_exit_action_id
    || text_eq a.launch_id b.launch_id

unfoldable pub assert_record_intent_identity : ApprovalRecord → Result ApprovalStoreError (Unit {0})
assert_record_intent_identity r = do
  let p = r.payload
  let intent = p.intent
  throw_if (not (text_eq intent.version canary_e0_approval_r0)) version_invalid
  throw_if (not (text_eq intent.action_id r.action_id)) intent_action_id_mismatch
  throw_if (not (text_eq intent.parent_buy_action_id p.parent_buy_action_id)) parent_buy_id_mismatch
  throw_if (not (text_eq intent.parent_exit_action_id p.parent_exit_action_id))
      parent_exit_id_mismatch
  throw_if
      (not (text_eq intent.launch_id p.launch_id) || not (text_eq intent.baseline_id p.baseline_id))
      intent_identity_mismatch

module _ (platform : Platform) (coder : ApprovalCoder) where
  abbrev pub store_address : Text → Result ApprovalStoreError Text
  store_address a = under of_swap (get_address platform a)

  -- What `insertReserved` throws before its transaction.
  unfoldable pub check_record : ApprovalRecord → Result ApprovalStoreError (Unit {0})
  unfolding assert_record_intent_identity
  check_record r = do
    let p = r.payload
    let intent = p.intent
    throw_if (not (state_eq r.state reserved)) (initial_state_invalid r.state)
    throw_if (not (p.observed_allowance_before == 0)) (dirty_allowance p.observed_allowance_before)
    assert_record_intent_identity r
    under of_calldata (
        assert_canary_approval_calldata platform coder intent.spender intent.amount intent.calldata)
    spender ← store_address intent.spender
    throw_if (not (text_eq spender (ink_swap_router_02 platform))) spender_not_canonical
    expected_buy ← under of_swap (derive_canary_action_id platform p.launch_id p.baseline_id)
    throw_if (not (text_eq p.parent_buy_action_id expected_buy)) parent_buy_identity_drift
    expected_exit ←
        under of_exit
          (derive_canary_exit_action_id platform p.parent_buy_action_id p.launch_id p.baseline_id)
    throw_if (not (text_eq p.parent_exit_action_id expected_exit)) parent_exit_identity_drift
    expected ← under of_approval (
        derive_canary_approval_action_id platform coder (record intent {
          parent_buy_action_id = p.parent_buy_action_id;
          parent_exit_action_id = p.parent_exit_action_id;
          launch_id = p.launch_id;
          baseline_id = p.baseline_id;
        }))
    throw_if (not (text_eq r.action_id expected)) action_identity_drift

  -- The binding to the intent of the persisted parent.
  unfoldable pub check_bound :
      CanaryApprovalIntent
      → CanaryActionRecord
      → CanarySwapIntent
      → Result ApprovalStoreError (Unit {0})
  check_bound intent parent buy = do
    throw_if
        (not (text_eq buy.action_id parent.action_id)
          || not (text_eq buy.launch_id parent.launch_id)
          || not (text_eq buy.baseline_id parent.baseline_id))
        persisted_parent_identity_invalid
    router ← store_address buy.router
    throw_if (not (text_eq router (ink_swap_router_02 platform))) persisted_parent_router_invalid
    owner ← store_address intent.owner
    recipient ← store_address buy.recipient
    throw_if (not (text_eq owner recipient)) persisted_parent_intent_binding_mismatch
    token ← store_address intent.token
    token_out ← store_address buy.token_out
    throw_if (not (text_eq token token_out)) persisted_parent_intent_binding_mismatch
    spender ← store_address intent.spender
    throw_if (not (text_eq spender router)) persisted_parent_intent_binding_mismatch

  -- What its transaction throws before the INSERT.
  unfoldable pub check_parent : Rows → ApprovalRecord → Result ApprovalStoreError (Unit {0})
  unfolding check_bound
  check_parent buys r = do
    let p = r.payload
    found ← under of_parent (included_parent p.parent_buy_action_id p.launch_id p.baseline_id buys)
    under of_parent (check_acquired p.intent.amount found.0)
    check_bound p.intent found.0 found.1

-- The second half of the transaction, after INSERT OR IGNORE has changed nothing.
unfoldable pub classify_ignored_approval :
    ApprovalRecord → List ApprovalRecord → Result ApprovalStoreError ApprovalInsertResult
classify_ignored_approval r rows =
    elim (find
      (λ (x : ApprovalRecord).
        has_id r.action_id x
        || text_eq x.payload.parent_buy_action_id r.payload.parent_buy_action_id
        || text_eq x.payload.parent_exit_action_id r.payload.parent_exit_action_id
        || text_eq x.payload.launch_id r.payload.launch_id)
      rows) [
        | none ↦ err (identity_conflict r.payload.launch_id)
        | some x ↦
            if text_eq x.action_id r.action_id
              && text_eq x.payload.parent_buy_action_id r.payload.parent_buy_action_id
              && text_eq x.payload.parent_exit_action_id r.payload.parent_exit_action_id
              && text_eq x.payload.launch_id r.payload.launch_id
              && text_eq x.payload.baseline_id r.payload.baseline_id
            then ok duplicate
            else err (identity_conflict r.payload.launch_id)
      ]

-- `randomBytes(32)` made `fresh`.
unfoldable pub insert_reserved_approval :
    Platform
    → ApprovalCoder
    → Rows
    → Text
    → ApprovalRecord
    → ApprovalStore
    → Result ApprovalStoreError ApprovalInsertResult × ApprovalStore
unfolding check_record check_parent classify_ignored_approval
insert_reserved_approval platform coder buys fresh r s =
    elim (check_record platform coder r >>= λ u. check_parent platform coder buys r) [
      | err e ↦ (err e, s)
      | ok u ↦ elim (insert_or_ignore unique r s.rows) [
        | none ↦ (classify_ignored_approval r s.rows, s)
        | some grown ↦ (
          ok (inserted fresh),
          record {
            rows = grown;
            signing_capabilities = set_key r.action_id fresh s.signing_capabilities;
          },
        )
      ]
    ]

abbrev pub has_capability : Text → Text → ApprovalStore → Bool
has_capability action_id capability s = elim (get_key action_id s.signing_capabilities) [
  | none ↦ false
  | some expected ↦ not (is_empty expected) && text_eq capability expected
]

-- The capability is deleted once the signature is recorded.
unfoldable pub mark_approval_signed :
    (Text → Text)
    → Text
    → Text
    → SignedTransaction
    → ℕ
    → ApprovalStore
    → Result ApprovalStoreError (Unit {0}) × ApprovalStore
mark_approval_signed keccak256 action_id capability tx now s =
    if not (has_capability action_id capability s)
    then (err (signing_capability_invalid action_id), s)
    else let (r, rows) = Actions.mark_signed keccak256 action_id tx now s.rows in
      elim r [
        | err e ↦ (err (of_action e), record s { rows = rows })
        | ok u ↦ (
          ok tt,
          record {
            rows = rows;
            signing_capabilities = delete_key action_id s.signing_capabilities;
          },
        )
      ]

-- What an inclusion must have observed.
unfoldable pub accept_exact_approval : ApprovalColumns → ℕ → Result ActionError ApprovalColumns
accept_exact_approval p observed = do
  throw_if (not (observed == p.intent.amount)) (allowance_not_exact observed p.intent.amount)
  ok (record p { observed_allowance_after = some observed })

unfoldable pub mark_approval_included :
    (Text → Text)
    → Text
    → ℕ
    → ℕ
    → List ApprovalRecord
    → Result ActionError (Unit {0}) × List ApprovalRecord
unfolding accept_exact_approval
mark_approval_included keccak256 action_id observed now =
    mark_included keccak256 accept_exact_approval action_id observed now

unfoldable pub get_approval_by_parent : Text → List ApprovalRecord → Option ApprovalRecord
get_approval_by_parent id rows =
    find (λ (x : ApprovalRecord). text_eq x.payload.parent_buy_action_id id) rows
