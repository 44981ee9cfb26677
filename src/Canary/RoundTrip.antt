-- ===== src/Canary/RoundTrip.antt =====
-- src/canary/roundTrip.ts: the intent of the exit from a buy.
pub mod Approval
pub mod Acquired
pub mod ExitStore
pub mod ApprovalStore
mod Tests
pub mod Insertable
pub mod SameAmount
use sentry_forensic_gate.Base.{ℕ, ◌||◌, not, Text, codes, is_empty, ◌==◌, text_eq}
use sentry_forensic_gate.Base.Result.{Result, ok, err, ◌>>=◌, ◌>>◌, throw_if}
use sentry_forensic_gate.Evidence.Canonical.{bigint, str, obj, end, field, sha256_hex}
use sentry_forensic_gate.Canary.Types.{CanarySwapIntent, CanaryError}
use sentry_forensic_gate.Canary.SwapIntent.{
  Platform, CanarySwapIntentInput, canary_sniper_r0, canary_primary_notional_usd_micros,
  derive_canary_action_id, build_canary_swap_intent,
}

abbrev pub canary_e0_roundtrip_r0 : Text
canary_e0_roundtrip_r0 = codes "CANARY_E0_ROUNDTRIP_R0"

abbrev pub canary_e0_exit_r0 : Text
canary_e0_exit_r0 = codes "CANARY_E0_EXIT_R0"

abbrev pub exit_leg : Text
exit_leg = codes "EXIT"

-- `swap` holds the fields that a `CanaryExitIntent` has from `CanarySwapIntent`.
pub record CanaryExitIntent : Type 0 where
  pub swap : CanarySwapIntent
  pub round_trip_version : Text
  pub leg : Text
  pub parent_buy_action_id : Text

pub record CanaryExitIntentInput : Type 0 where
  pub buy_intent : CanarySwapIntent
  pub quote_block_number : ℕ
  pub quote_block_hash : Text
  pub amount_in : ℕ
  pub quoted_amount_out : ℕ
  pub slippage_bps : ℕ
  pub chain_timestamp_seconds : ℕ
  pub deadline_seconds : ℕ

-- The codes of the errors, without their prefix CANARY_EXIT_.
pub data ExitError : Type 0 where
  of_swap : CanaryError → ExitError
  identity_required amount_in_must_be_positive : ExitError
  quoted_amount_out_must_be_positive parent_buy_identity_drift : ExitError
  action_id_collision parent_version_invalid parent_notional_invalid : ExitError
  parent_value_invalid parent_identity_missing : ExitError

abbrev pub of_swap_result : {A : Type 0} → Result CanaryError A → Result ExitError A
of_swap_result (ok a) = ok a
of_swap_result (err e) = err (of_swap e)

unfoldable pub assert_canonical_buy_intent : CanarySwapIntent → Result ExitError (Unit {0})
assert_canonical_buy_intent intent = do
  throw_if (not (text_eq intent.version canary_sniper_r0)) parent_version_invalid
  throw_if (not (intent.notional_usd_micros == canary_primary_notional_usd_micros))
      parent_notional_invalid
  throw_if (not (intent.value == 0)) parent_value_invalid
  throw_if (is_empty intent.launch_id || is_empty intent.baseline_id || is_empty intent.action_id)
      parent_identity_missing

module _ (platform : Platform) where
  unfoldable pub derive_canary_exit_action_id : Text → Text → Text → Result ExitError Text
  derive_canary_exit_action_id parent_buy_action_id launch_id baseline_id = do
    throw_if (is_empty parent_buy_action_id || is_empty launch_id || is_empty baseline_id)
        identity_required
    ok (
        sha256_hex platform.digest (
          obj (
            field (codes "kind") (str canary_e0_exit_r0) (
              field (codes "parentBuyActionId") (str parent_buy_action_id) (
                field (codes "launchId") (str launch_id) (
                  field (codes "baselineId") (str baseline_id) (
                    field (codes "notionalUsdMicros") (bigint canary_primary_notional_usd_micros)
                      end)))))))

  -- The swap of the exit: the tokens of the buy, in the other direction.
  abbrev pub exit_input : CanaryExitIntentInput → CanarySwapIntentInput
  exit_input input = record {
    launch_id = input.buy_intent.launch_id;
    baseline_id = input.buy_intent.baseline_id;
    quote_block_number = input.quote_block_number;
    quote_block_hash = input.quote_block_hash;
    token_in = input.buy_intent.token_out;
    token_out = input.buy_intent.token_in;
    fee = input.buy_intent.fee;
    recipient = input.buy_intent.recipient;
    notional_usd_micros = canary_primary_notional_usd_micros;
    amount_in = input.amount_in;
    quoted_amount_out = input.quoted_amount_out;
    slippage_bps = input.slippage_bps;
    chain_timestamp_seconds = input.chain_timestamp_seconds;
    deadline_seconds = input.deadline_seconds;
  }

  unfoldable pub build_canary_exit_intent :
      CanaryExitIntentInput → Result ExitError CanaryExitIntent
  unfolding assert_canonical_buy_intent derive_canary_exit_action_id
  build_canary_exit_intent input = do
    let buy = input.buy_intent
    assert_canonical_buy_intent buy
    throw_if (input.amount_in == 0) amount_in_must_be_positive
    throw_if (input.quoted_amount_out == 0) quoted_amount_out_must_be_positive
    expected ← of_swap_result (derive_canary_action_id platform buy.launch_id buy.baseline_id)
    throw_if (not (text_eq buy.action_id expected)) parent_buy_identity_drift
    generic_exit ← of_swap_result (build_canary_swap_intent platform (exit_input input))
    action_id ← derive_canary_exit_action_id buy.action_id buy.launch_id buy.baseline_id
    throw_if (text_eq action_id buy.action_id) action_id_collision
    ok (record {
      swap = record generic_exit { action_id = action_id };
      round_trip_version = canary_e0_roundtrip_r0;
      leg = exit_leg;
      parent_buy_action_id = buy.action_id;
    })
