-- ===== src/Canary/RoundTrip/ExitStore.antt =====
-- src/canary/exitStore.ts: the table `canary_exit_actions`.
use sentry_forensic_gate.Base.{
  ℕ, Bool, ◌&&◌, ◌||◌, not, Option, none, some, List, [], ◌∷◌, Text, text_eq, same_hex, leb, ltb,
  ◌==◌, if◌then◌else◌, find,
}
use sentry_forensic_gate.Base.Result.{Result, ok, err, ◌>>=◌, ◌>>◌, throw_if, or_throw}
use sentry_forensic_gate.Canary.Types.{
  CanaryActionState, CanaryActionRecord, CanarySwapIntent, reserved, state_eq,
}
use sentry_forensic_gate.Canary.SwapIntent.{
  Platform, canary_sniper_r0, canary_primary_notional_usd_micros, canary_max_slippage_bps,
  ink_swap_router_02, minimum_out,
}
use sentry_forensic_gate.Canary.Store.{Rows}
use sentry_forensic_gate.Canary.Actions.{
  ActionRow, ActionError, output_balance_before_missing, output_balance_did_not_increase, has_id,
  insert_or_ignore, mark_included,
}
use sentry_forensic_gate.Canary.RoundTrip.{CanaryExitIntent, canary_e0_roundtrip_r0, exit_leg}
use sentry_forensic_gate.Canary.RoundTrip.Acquired.{ParentError, included_parent, check_acquired}

-- `CanaryExitActionRecord`, less the columns of `ActionRow`.
pub record ExitColumns : Type 0 where
  pub parent_buy_action_id : Text
  pub launch_id : Text
  pub baseline_id : Text
  pub intent : CanaryExitIntent
  pub output_balance_before : Option ℕ
  pub output_balance_after : Option ℕ

abbrev pub ExitRecord : Type 0
ExitRecord = ActionRow ExitColumns

pub data ExitInsertResult : Type 0 where
  inserted duplicate : ExitInsertResult

-- The codes of the errors, without their prefix CANARY_EXIT_.
pub data ExitStoreError : Type 0 where
  of_parent : ParentError → ExitStoreError
  initial_state_invalid : CanaryActionState → ExitStoreError
  intent_action_id_mismatch parent_action_id_mismatch intent_identity_mismatch : ExitStoreError
  version_or_leg_invalid swap_version_invalid router_invalid notional_invalid : ExitStoreError
  value_invalid fee_invalid quote_invalid slippage_invalid min_out_invalid : ExitStoreError
  deadline_invalid calldata_mismatch encoding_failed : ExitStoreError
  persisted_parent_intent_identity_drift : ExitStoreError
  persisted_parent_intent_binding_mismatch : ExitStoreError
  identity_conflict : Text → ExitStoreError

abbrev pub exit_of_parent : {A : Type 0} → Result ParentError A → Result ExitStoreError A
exit_of_parent (ok a) = ok a
exit_of_parent (err e) = err (of_parent e)

-- UNIQUE(parent_buy_action_id), UNIQUE(launch_id)
unfoldable pub unique : ExitColumns → ExitColumns → Bool
unique a b =
    text_eq a.parent_buy_action_id b.parent_buy_action_id || text_eq a.launch_id b.launch_id

unfoldable pub assert_exit_calldata : Platform → CanaryExitIntent → Result ExitStoreError (Unit {0})
assert_exit_calldata platform exit = do
  let swap = exit.swap
  throw_if
      (not (text_eq exit.round_trip_version canary_e0_roundtrip_r0)
        || not (text_eq exit.leg exit_leg))
      version_or_leg_invalid
  throw_if (not (text_eq swap.version canary_sniper_r0)) swap_version_invalid
  throw_if (not (same_hex swap.router (ink_swap_router_02 platform))) router_invalid
  throw_if (not (swap.notional_usd_micros == canary_primary_notional_usd_micros)) notional_invalid
  throw_if (not (swap.value == 0)) value_invalid
  throw_if (ltb 1_000_000 swap.fee) fee_invalid
  throw_if (swap.amount_in == 0 || swap.quoted_amount_out == 0) quote_invalid
  throw_if (ltb swap.slippage_bps 1 || ltb canary_max_slippage_bps swap.slippage_bps)
      slippage_invalid
  let expected_minimum = minimum_out swap.quoted_amount_out swap.slippage_bps
  throw_if (expected_minimum == 0 || not (swap.amount_out_minimum == expected_minimum))
      min_out_invalid
  throw_if (swap.deadline_epoch_seconds == 0) deadline_invalid
  exact_input_calldata ←
      or_throw
        (platform.encode_exact_input_single (record {
          token_in = swap.token_in;
          token_out = swap.token_out;
          fee = swap.fee;
          recipient = swap.recipient;
          amount_in = swap.amount_in;
          amount_out_minimum = swap.amount_out_minimum;
          sqrt_price_limit_x96 = 0;
        }))
        encoding_failed
  expected_calldata ←
      or_throw (platform.encode_multicall swap.deadline_epoch_seconds (exact_input_calldata ∷ []))
        encoding_failed
  throw_if (not (same_hex swap.calldata expected_calldata)) calldata_mismatch

unfoldable pub assert_exit_bound :
    CanaryExitIntent → CanaryActionRecord → CanarySwapIntent → Result ExitStoreError (Unit {0})
assert_exit_bound exit parent buy = do
  throw_if
      (not (text_eq buy.action_id parent.action_id)
        || not (text_eq buy.launch_id parent.launch_id)
        || not (text_eq buy.baseline_id parent.baseline_id))
      persisted_parent_intent_identity_drift
  throw_if
      (not (
        same_hex exit.swap.router buy.router
        && same_hex exit.swap.token_in buy.token_out
        && same_hex exit.swap.token_out buy.token_in
        && exit.swap.fee == buy.fee
        && same_hex exit.swap.recipient buy.recipient
        && exit.swap.notional_usd_micros == buy.notional_usd_micros))
      persisted_parent_intent_binding_mismatch

-- The throws of `insertReserved` before its INSERT.
unfoldable pub check_exit_insertion :
    Platform → Rows → ExitRecord → Result ExitStoreError (Unit {0})
unfolding assert_exit_calldata assert_exit_bound
check_exit_insertion platform buys r = do
  let p = r.payload
  let intent = p.intent
  throw_if (not (state_eq r.state reserved)) (initial_state_invalid r.state)
  throw_if (not (text_eq intent.swap.action_id r.action_id)) intent_action_id_mismatch
  throw_if (not (text_eq intent.parent_buy_action_id p.parent_buy_action_id))
      parent_action_id_mismatch
  throw_if
      (not (text_eq intent.swap.launch_id p.launch_id)
        || not (text_eq intent.swap.baseline_id p.baseline_id))
      intent_identity_mismatch
  assert_exit_calldata platform intent
  found ← exit_of_parent (included_parent p.parent_buy_action_id p.launch_id p.baseline_id buys)
  let parent = found.0
  assert_exit_bound intent parent found.1
  exit_of_parent (check_acquired intent.swap.amount_in parent)

-- The second half of `insertReserved`, after INSERT OR IGNORE has changed nothing.
unfoldable pub classify_ignored_exit :
    ExitRecord → List ExitRecord → Result ExitStoreError ExitInsertResult
classify_ignored_exit r rows =
    elim (find
      (λ (x : ExitRecord).
        has_id r.action_id x
        || text_eq x.payload.parent_buy_action_id r.payload.parent_buy_action_id
        || text_eq x.payload.launch_id r.payload.launch_id)
      rows) [
        | none ↦ err (identity_conflict r.payload.launch_id)
        | some x ↦
            if text_eq x.action_id r.action_id
              && text_eq x.payload.parent_buy_action_id r.payload.parent_buy_action_id
              && text_eq x.payload.launch_id r.payload.launch_id
              && text_eq x.payload.baseline_id r.payload.baseline_id
            then ok duplicate
            else err (identity_conflict r.payload.launch_id)
      ]

unfoldable pub insert_reserved_exit :
    Platform
    → Rows
    → ExitRecord
    → List ExitRecord
    → Result ExitStoreError ExitInsertResult × List ExitRecord
unfolding check_exit_insertion classify_ignored_exit
insert_reserved_exit platform buys r rows = elim (check_exit_insertion platform buys r) [
  | err e ↦ (err e, rows)
  | ok u ↦ elim (insert_or_ignore unique r rows) [
    | none ↦ (classify_ignored_exit r rows, rows)
    | some grown ↦ (ok inserted, grown)
  ]
]

-- What an inclusion must have observed.
unfoldable pub accept_increase : ExitColumns → ℕ → Result ActionError ExitColumns
accept_increase p after = elim p.output_balance_before [
  | none ↦ err output_balance_before_missing
  | some before ↦
      if leb after before
      then err (output_balance_did_not_increase before after)
      else ok (record p { output_balance_after = some after })
]

unfoldable pub mark_exit_included :
    (Text → Text) → Text → ℕ → ℕ → List ExitRecord → Result ActionError (Unit {0}) × List ExitRecord
unfolding accept_increase
mark_exit_included keccak256 action_id output_balance_after now =
    mark_included keccak256 accept_increase action_id output_balance_after now

unfoldable pub get_exit_by_parent : Text → List ExitRecord → Option ExitRecord
get_exit_by_parent id rows =
    find (λ (x : ExitRecord). text_eq x.payload.parent_buy_action_id id) rows
