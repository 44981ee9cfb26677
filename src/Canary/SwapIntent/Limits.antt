-- ===== src/Canary/SwapIntent/Limits.antt =====
-- What a swap intent of src/canary/swapIntent.ts can be at most: one dollar, bounded slippage and
-- a near deadline; and exactly which inputs give one.
use native.Mathlib.Nat.{mul-le-mul_left}
use sentry_forensic_gate.Base.{
  ℕ, ◌+◌, ◌-◌, ◌*◌, ◌/◌, ◌^◌, ◌≤◌, ◌<◌, ◌≡◌, ◌≢◌, [], ◌∷◌, arith, Text, text_eq_iff, some, is_empty,
  false, true,
}
use sentry_forensic_gate.Base.Result.{ok, is_ok}
use sentry_forensic_gate.Canary.Types.{CanarySwapIntent}
use sentry_forensic_gate.Canary.SwapIntent.{
  Platform, ExactInputSingle, CanarySwapIntentInput, build_canary_swap_intent,
  derive_canary_action_id, minimum_out, ink_swap_router_02,
}

-- Every intent keeps the canary's limits.
pub record IsWithinLimits (platform : Platform) (intent : CanarySwapIntent) : Type 0 where
  pub one_dollar : intent.notional_usd_micros ≡ 1_000_000
  pub no_value : intent.value ≡ 0
  pub canonical_router : intent.router ≡ ink_swap_router_02 platform
  pub distinct_tokens : intent.token_in ≢ intent.token_out
  pub positive_minimum : 0 < intent.amount_out_minimum
  pub minimum_below_quote : intent.amount_out_minimum ≤ intent.quoted_amount_out
  pub bounded_slippage : intent.quoted_amount_out * 8_000 / 10_000 ≤ intent.amount_out_minimum

-- What the intent takes from its input.
pub record IsBoundTo (platform : Platform) (input : CanarySwapIntentInput)
    (intent : CanarySwapIntent) : Type 0 where
  pub action :
      derive_canary_action_id platform input.launch_id input.baseline_id ≡ ok intent.action_id
  pub launch : intent.launch_id ≡ input.launch_id
  pub baseline : intent.baseline_id ≡ input.baseline_id
  pub spends : intent.amount_in ≡ input.amount_in
  pub paid_to : platform.get_address input.recipient ≡ some intent.recipient
  pub deadline_after : input.chain_timestamp_seconds < intent.deadline_epoch_seconds
  pub deadline_near : intent.deadline_epoch_seconds ≤ input.chain_timestamp_seconds + 120

minimum_out_le : (q s : ℕ) → minimum_out q s ≤ q
unfolding minimum_out
minimum_out_le q s = omega (arith, mul-le-mul_left q (the_share s))
  where
    the_share : (s : ℕ) → 10_000 - s ≤ 10_000
    the_share s = omega arith

le_minimum_out : (q s : ℕ) → s ≤ 2_000 → q * 8_000 / 10_000 ≤ minimum_out q s
unfolding minimum_out
le_minimum_out q s h = omega (arith, mul-le-mul_left q (the_share s h))
  where
    the_share : (s : ℕ) → s ≤ 2_000 → 8_000 ≤ 10_000 - s
    the_share s h = omega arith

module _ (platform : Platform) where
  -- An intent that is built is for one dollar, with no value, to the canonical router, between two
  -- tokens, for a minimum between 80% of the quote and the quote, not 0; and it carries the input's
  -- identities, amount and recipient, and a deadline within 120 seconds after the chain's time.
  pub build_canary_swap_intent-IsWithinLimits :
      (input : CanarySwapIntentInput) (intent : CanarySwapIntent)
      → build_canary_swap_intent platform input ≡ ok intent
      → IsWithinLimits platform intent × IsBoundTo platform input intent
  unfolding build_canary_swap_intent
  build_canary_swap_intent-IsWithinLimits input intent h = ground (
    arith,
    text_eq_iff intent.token_in intent.token_out,
    le_minimum_out input.quoted_amount_out input.slippage_bps,
    minimum_out_le input.quoted_amount_out input.slippage_bps,
  )

-- The inputs that the guards let pass, with amounts that a uint256 holds and a deadline that a
-- number of JavaScript holds.
pub record IsAcceptable (input : CanarySwapIntentInput) : Type 0 where
  pub has_launch : is_empty input.launch_id ≡ false
  pub has_baseline : is_empty input.baseline_id ≡ false
  pub one_dollar : input.notional_usd_micros ≡ 1_000_000
  pub fee_in_range : input.fee ≤ 1_000_000
  pub some_in : 0 < input.amount_in
  pub amount_fits : input.amount_in < 2 ^ 256
  pub some_out : 0 < input.quoted_amount_out
  pub quote_fits : input.quoted_amount_out < 2 ^ 256
  pub some_slippage : 0 < input.slippage_bps
  pub slippage_in_range : input.slippage_bps ≤ 2_000
  pub has_time : 0 < input.chain_timestamp_seconds
  pub some_delay : 0 < input.deadline_seconds
  pub delay_in_range : input.deadline_seconds ≤ 120
  pub time_is_safe : input.chain_timestamp_seconds + input.deadline_seconds < 2 ^ 53
  pub minimum_stays : 0 < minimum_out input.quoted_amount_out input.slippage_bps

-- What `encodeFunctionData` of viem encodes: an `exactInputSingle` between addresses that
-- `getAddress` has given, with numbers that the types of its fields hold, and a `multicall` of what
-- it has encoded.
pub record Encodes (platform : Platform) : Type 0 where
  pub exact_input_single :
      (p : ExactInputSingle) (a b c : Text)
      → platform.get_address a ≡ some p.token_in
      → platform.get_address b ≡ some p.token_out
      → platform.get_address c ≡ some p.recipient
      → p.fee < 2 ^ 24
      → p.amount_in < 2 ^ 256
      → p.amount_out_minimum < 2 ^ 256
      → p.sqrt_price_limit_x96 < 2 ^ 160
      → (code : Text) × (platform.encode_exact_input_single p ≡ some code)
  pub multicall :
      (deadline : ℕ) (p : ExactInputSingle) (code : Text)
      → deadline < 2 ^ 256
      → platform.encode_exact_input_single p ≡ some code
      → (calldata : Text) × (platform.encode_multicall deadline (code ∷ []) ≡ some calldata)

-- An acceptable input with three addresses that parse and two distinct tokens gives an intent, on
-- a codec that encodes what its types hold.
pub build_canary_swap_intent_total :
    (platform : Platform) (input : CanarySwapIntentInput) (a b c : Text)
    → Encodes platform
    → IsAcceptable input
    → platform.get_address input.token_in ≡ some a
    → platform.get_address input.token_out ≡ some b
    → platform.get_address input.recipient ≡ some c
    → a ≢ b
    → is_ok (build_canary_swap_intent platform input) ≡ true
unfolding build_canary_swap_intent
build_canary_swap_intent_total platform input a b c codec v ha hb hc ne =
    let p : ExactInputSingle = record {
      token_in = a;
      token_out = b;
      fee = input.fee;
      recipient = c;
      amount_in = input.amount_in;
      amount_out_minimum = minimum_out input.quoted_amount_out input.slippage_bps;
      sqrt_price_limit_x96 = 0;
    } in
    let (code, e) =
      codec.exact_input_single p input.token_in input.token_out input.recipient ha hb hc
        (omega arith) (omega arith)
        (omega (arith, minimum_out_le input.quoted_amount_out input.slippage_bps)) (omega arith) in
    let (calldata, m) =
      codec.multicall (input.chain_timestamp_seconds + input.deadline_seconds) p code (omega arith)
        e in
    ground (arith, e, m, text_eq_iff a b)
