-- ===== src/Canary/SwapIntent.antt =====
-- src/canary/swapIntent.ts: the swap that a canary buy signs, built from a fresh quote.
-- Numbers and bigints of an input are taken as naturals, so `Number.isInteger` and `< 0` cannot
-- fail. `getAddress` and `encodeFunctionData` of viem are parameters.
pub mod Limits
mod Tests
use sentry_forensic_gate.Base.{
  ℕ, ◌+◌, ◌-◌, ◌*◌, ◌/◌, ◌||◌, Option, List, [], ◌∷◌, Text, codes, is_empty, ltb, ◌==◌, text_eq,
  not, get_or_else, to_lower_case, ◌≡◌, some, true, false, if◌then◌else◌,
}
use sentry_forensic_gate.Base.Result.{Result, ok, err, ◌>>=◌, ◌>>◌, throw_if, or_throw}
use sentry_forensic_gate.Evidence.Canonical.{Json, bigint, str, obj, end, field, sha256_hex}
use sentry_forensic_gate.Canary.Types.{
  CanarySwapIntent, CanaryError, identity_required, quote_must_be_positive, chain_timestamp_invalid,
  token_identity_invalid, min_out_rounds_to_zero, notional_must_be_one_dollar, invalid_fee,
  slippage_bps_out_of_range, deadline_seconds_out_of_range, invalid_address, encoding_failed,
}

abbrev pub canary_sniper_r0 : Text
canary_sniper_r0 = codes "CANARY_SNIPER_R0"

abbrev pub canary_primary_notional_usd_micros : ℕ
canary_primary_notional_usd_micros = 1_000_000

abbrev pub canary_max_slippage_bps : ℕ
canary_max_slippage_bps = 2_000

abbrev pub canary_max_deadline_seconds : ℕ
canary_max_deadline_seconds = 120

pub record ExactInputSingle : Type 0 where
  pub token_in : Text
  pub token_out : Text
  pub fee : ℕ
  pub recipient : Text
  pub amount_in : ℕ
  pub amount_out_minimum : ℕ
  pub sqrt_price_limit_x96 : ℕ

-- What the module calls in other packages: `none` is an address that `getAddress` refuses, or an
-- argument that `encodeFunctionData` refuses, and `digest` is the parameter of `sha256Hex`.
pub record Platform : Type 0 where
  pub get_address : Text → Option Text
  pub encode_exact_input_single : ExactInputSingle → Option Text
  pub encode_multicall : ℕ → List Text → Option Text
  pub digest : Json → Text

pub record CanarySwapIntentInput : Type 0 where
  pub launch_id : Text
  pub baseline_id : Text
  pub quote_block_number : ℕ
  pub quote_block_hash : Text
  pub token_in : Text
  pub token_out : Text
  pub fee : ℕ
  pub recipient : Text
  pub notional_usd_micros : ℕ
  pub amount_in : ℕ
  pub quoted_amount_out : ℕ
  pub slippage_bps : ℕ
  pub chain_timestamp_seconds : ℕ
  pub deadline_seconds : ℕ

-- The guards at the head of `buildCanarySwapIntent`.
unfoldable pub check_swap_intent_input : CanarySwapIntentInput → Result CanaryError (Unit {0})
check_swap_intent_input input = do
  throw_if (is_empty input.launch_id || is_empty input.baseline_id) identity_required
  throw_if (not (input.notional_usd_micros == canary_primary_notional_usd_micros))
      (notional_must_be_one_dollar input.notional_usd_micros)
  throw_if (ltb 1_000_000 input.fee) (invalid_fee input.fee)
  throw_if (input.amount_in == 0 || input.quoted_amount_out == 0) quote_must_be_positive
  throw_if (ltb input.slippage_bps 1 || ltb canary_max_slippage_bps input.slippage_bps)
      (slippage_bps_out_of_range input.slippage_bps)
  throw_if (input.chain_timestamp_seconds == 0) chain_timestamp_invalid
  throw_if (ltb input.deadline_seconds 1 || ltb canary_max_deadline_seconds input.deadline_seconds)
      (deadline_seconds_out_of_range input.deadline_seconds)

-- `(quotedAmountOut * BigInt(10_000 - slippageBps)) / 10_000n`
unfoldable pub minimum_out : ℕ → ℕ → ℕ
minimum_out quoted_amount_out slippage_bps = quoted_amount_out * (10_000 - slippage_bps) / 10_000

module _ (platform : Platform) where
  abbrev pub get_address : Text → Result CanaryError Text
  get_address a = or_throw (platform.get_address a) (invalid_address a)

  -- `getAddress` of a literal, which is in the form that `getAddress` gives.
  unfoldable pub ink_swap_router_02 : Text
  ink_swap_router_02 =
      let literal = codes "0x177778F19E89dD1012BdBe603F144088A95C4B53" in
      get_or_else (platform.get_address literal) literal

  unfoldable pub derive_canary_action_id : Text → Text → Result CanaryError Text
  derive_canary_action_id launch_id baseline_id = do
    throw_if (is_empty launch_id || is_empty baseline_id) identity_required
    ok (
        sha256_hex platform.digest (
          obj (
            field (codes "kind") (str canary_sniper_r0) (
              field (codes "launchId") (str launch_id) (
                field (codes "baselineId") (str baseline_id) (
                  field (codes "notionalUsdMicros") (bigint canary_primary_notional_usd_micros)
                    end))))))

  unfoldable pub build_canary_swap_intent :
      CanarySwapIntentInput → Result CanaryError CanarySwapIntent
  unfolding check_swap_intent_input derive_canary_action_id minimum_out
  build_canary_swap_intent input = do
    check_swap_intent_input input
    token_in ← get_address input.token_in
    token_out ← get_address input.token_out
    recipient ← get_address input.recipient
    throw_if (text_eq token_in token_out) token_identity_invalid
    let amount_out_minimum = minimum_out input.quoted_amount_out input.slippage_bps
    throw_if (amount_out_minimum == 0) min_out_rounds_to_zero
    let deadline_epoch_seconds = input.chain_timestamp_seconds + input.deadline_seconds
    exact_input_calldata ←
        or_throw
          (platform.encode_exact_input_single (record {
            token_in = token_in;
            token_out = token_out;
            fee = input.fee;
            recipient = recipient;
            amount_in = input.amount_in;
            amount_out_minimum = amount_out_minimum;
            sqrt_price_limit_x96 = 0;
          }))
          encoding_failed
    calldata ←
        or_throw (platform.encode_multicall deadline_epoch_seconds (exact_input_calldata ∷ []))
          encoding_failed
    action_id ← derive_canary_action_id input.launch_id input.baseline_id
    ok (record {
      version = canary_sniper_r0;
      action_id = action_id;
      launch_id = input.launch_id;
      baseline_id = input.baseline_id;
      router = ink_swap_router_02;
      quote_block_number = input.quote_block_number;
      quote_block_hash = to_lower_case input.quote_block_hash;
      token_in = token_in;
      token_out = token_out;
      fee = input.fee;
      recipient = recipient;
      notional_usd_micros = canary_primary_notional_usd_micros;
      amount_in = input.amount_in;
      quoted_amount_out = input.quoted_amount_out;
      amount_out_minimum = amount_out_minimum;
      slippage_bps = input.slippage_bps;
      deadline_epoch_seconds = deadline_epoch_seconds;
      calldata = calldata;
      value = 0;
    })
