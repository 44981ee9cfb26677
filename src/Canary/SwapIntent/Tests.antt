-- ===== src/Canary/SwapIntent/Tests.antt =====
-- src/canary/swapIntent.ts on a quote of 12345 units, with stand-ins for viem and the digest.
use sentry_forensic_gate.Evidence.Canonical.{sha256_hex, normalize}
use sentry_forensic_gate.Base.{◌≡◌, refl, true, some, [], ◌∷◌, arith, codes, text_eq, to_lower_case}
use sentry_forensic_gate.Base.Result.{ok, is_ok}
use sentry_forensic_gate.Canary.Types.{CanarySwapIntent}
use sentry_forensic_gate.Canary.SwapIntent.{
  ink_swap_router_02, Platform, CanarySwapIntentInput, build_canary_swap_intent, minimum_out,
}
use sentry_forensic_gate.Canary.SwapIntent.Limits.{
  IsWithinLimits, IsBoundTo, build_canary_swap_intent-IsWithinLimits,
  build_canary_swap_intent_total,
}

abbrev platform : Platform
platform = record {
  get_address = λ a. some a;
  encode_exact_input_single = λ p. some (p.token_in);
  encode_multicall = λ deadline calls. some (deadline ∷ []);
  digest = λ value. 7 ∷ [];
}

abbrev input : CanarySwapIntentInput
input = record {
  launch_id = 1 ∷ [];
  baseline_id = 2 ∷ [];
  quote_block_number = 100;
  quote_block_hash = 3 ∷ [];
  token_in = 4 ∷ [];
  token_out = 5 ∷ [];
  fee = 3000;
  recipient = 6 ∷ [];
  notional_usd_micros = 1_000_000;
  amount_in = 400;
  quoted_amount_out = 12_345;
  slippage_bps = 100;
  chain_timestamp_seconds = 1_700_000_000;
  deadline_seconds = 60;
}

-- 1% below the quote, rounded down.
minimum_out_run : minimum_out 12_345 100 ≡ 12_221
unfolding minimum_out
minimum_out_run = refl

abbrev intent : CanarySwapIntent
intent = record {
  version = codes "CANARY_SNIPER_R0";
  action_id = 7 ∷ [];
  launch_id = 1 ∷ [];
  baseline_id = 2 ∷ [];
  router = codes "0x177778F19E89dD1012BdBe603F144088A95C4B53";
  quote_block_number = 100;
  quote_block_hash = 3 ∷ [];
  token_in = 4 ∷ [];
  token_out = 5 ∷ [];
  fee = 3000;
  recipient = 6 ∷ [];
  notional_usd_micros = 1_000_000;
  amount_in = 400;
  quoted_amount_out = 12_345;
  amount_out_minimum = 12_221;
  slippage_bps = 100;
  deadline_epoch_seconds = 1_700_000_060;
  calldata = 1_700_000_060 ∷ [];
  value = 0;
}

build_run : build_canary_swap_intent platform input ≡ ok intent
unfolding build_canary_swap_intent ink_swap_router_02 sha256_hex normalize text_eq to_lower_case
build_run = refl

build_canary_swap_intent-IsWithinLimits_example :
    IsWithinLimits platform intent × IsBoundTo platform input intent
build_canary_swap_intent-IsWithinLimits_example =
    build_canary_swap_intent-IsWithinLimits platform input intent build_run

build_canary_swap_intent_total_example : is_ok (build_canary_swap_intent platform input) ≡ true
unfolding minimum_out
build_canary_swap_intent_total_example =
    build_canary_swap_intent_total platform input (4 ∷ []) (5 ∷ []) (6 ∷ [])
      (record {
        exact_input_single = λ p a b c ha hb hc fee amount minimum limit. (p.token_in, refl);
        multicall = λ deadline p code h e. (deadline ∷ [], refl);
      })
      (ground arith) refl refl refl (λ e. ground arith)
