-- ===== src/Shadow/Baseline.antt =====
-- src/shadow/baselineTypes.ts: the evidence of an executable baseline, and its arithmetic.
use sentry_forensic_gate.Base.{
  ℕ, ◌+◌, ◌*◌, ◌/◌, ◌^◌, Bool, Option, none, some, List, [], ◌∷◌, Text, ltb, leb, ◌==◌,
}
use sentry_forensic_gate.Base.Result.{Result, ok, ◌>>◌, throw_if}
use sentry_forensic_gate.Domain.{LaunchObserved}

pub data BaselinePolicyVersion : Type 0 where
  executable_baseline_r1 historical_executable_baseline_redstone_asof_r1 : BaselinePolicyVersion

pub data BaselineStatus : Type 0 where
  complete unverified : BaselineStatus

pub data BaselineQuoteKind : Type 0 where
  usd_calibration entry_quote independent_reverse_exit : BaselineQuoteKind

pub data QuoteMode : Type 0 where
  exact_input exact_output : QuoteMode

pub record LaunchMarket : Type 0 where
  pub launch_id : Text
  pub launched_token : Text
  pub base_token : Text
  pub token0 : Text
  pub token1 : Text
  pub fee : ℕ
  pub pool : Text
  pub position_liquidity : ℕ
  pub active_liquidity : ℕ
  pub sqrt_price_x96_before : ℕ

pub record BaselineQuoteReceipt : Type 0 where
  pub quote_id : Text
  pub launch_id : Text
  pub block_number : ℕ
  pub block_hash : Text
  pub observed_at_ms : ℕ
  pub kind : BaselineQuoteKind
  pub mode : QuoteMode
  pub notional_usd_micros : ℕ
  pub pool : Text
  pub token_in : Text
  pub token_out : Text
  pub fee : ℕ
  pub amount_in : ℕ
  pub amount_out : ℕ
  pub executable : Bool
  pub failure_reason : Option Text
  pub sqrt_price_x96_after : Option ℕ
  pub initialized_ticks_crossed : Option ℕ
  pub gas_estimate : Option ℕ

pub record HistoricalOracleEvidence : Type 0 where
  pub oracle : Text
  pub answer : ℕ
  pub decimals : ℕ
  pub description : Text
  pub version : ℕ
  pub updated_at : ℕ
  pub decision_block_timestamp : ℕ
  pub age_seconds : ℕ

pub data UsdCalibrationKind : Type 0 where
  usdt0_nominal_peg_v0 weth_usdt0_exact_output_v0 weth_redstone_eth_usd_asof_v1 : UsdCalibrationKind

pub record UsdCalibration : Type 0 where
  pub kind : UsdCalibrationKind
  pub notional_usd_micros : ℕ
  pub base_token : Text
  pub base_amount : ℕ
  pub base_decimals : ℕ
  pub quote : Option BaselineQuoteReceipt
  pub oracle_evidence : Option HistoricalOracleEvidence

pub record BaselineLeg : Type 0 where
  pub notional_usd_micros : ℕ
  pub calibration : UsdCalibration
  pub entry : BaselineQuoteReceipt
  pub reverse : Option BaselineQuoteReceipt
  pub independent_reverse_recovery_bps : Option ℕ

-- `reverseSemantics` has one value and is left out.
pub record ExecutableBaselineBatch : Type 0 where
  pub baseline_id : Text
  pub authority_digest : Text
  pub launch_id : Text
  pub policy_version : BaselinePolicyVersion
  pub decision_block : ℕ
  pub decision_block_hash : Text
  pub observed_at_ms : ℕ
  pub status : BaselineStatus
  pub reason : Option Text
  pub market : Option LaunchMarket
  pub legs : List BaselineLeg

pub data BaselineError : Type 0 where
  usd_micros_not_positive entry_amount_in_not_positive : BaselineError
  invalid_token_decimals : ℕ → BaselineError
  usd_notional_rounds_to_zero : ℕ → ℕ → BaselineError

unfoldable pub scale_usd_micros_to_token_units : ℕ → ℕ → Result BaselineError ℕ
scale_usd_micros_to_token_units usd_micros decimals = do
  throw_if (usd_micros == 0) usd_micros_not_positive
  throw_if (ltb 36 decimals) (invalid_token_decimals decimals)
  let scale = 10 ^ decimals
  let amount = usd_micros * scale / 1_000_000
  throw_if (amount == 0) (usd_notional_rounds_to_zero usd_micros decimals)
  ok amount

unfoldable pub independent_recovery_bps : ℕ → ℕ → Result BaselineError ℕ
independent_recovery_bps entry_amount_in reverse_amount_out = do
  throw_if (entry_amount_in == 0) entry_amount_in_not_positive
  ok (reverse_amount_out * 10_000 / entry_amount_in)

-- `if (quote) quotes.push(quote);`
abbrev pub push_some {ℓ} : {A : Type ℓ} → Option A → List A → List A
push_some none rest = rest
push_some (some a) rest = a ∷ rest

flatten_legs : List BaselineLeg → List BaselineQuoteReceipt
flatten_legs [] = []
flatten_legs (leg ∷ legs) =
    push_some leg.calibration.quote (leg.entry ∷ push_some leg.reverse (flatten_legs legs))

unfoldable pub flatten_baseline_quotes : ExecutableBaselineBatch → List BaselineQuoteReceipt
unfolding flatten_legs
flatten_baseline_quotes batch = flatten_legs batch.legs

unfoldable pub is_launch_eligible_for_decision : LaunchObserved → ℕ → ℕ → ℕ → Bool
is_launch_eligible_for_decision launch head_block decision_delay_blocks confirmations =
    leb (launch.block_number + decision_delay_blocks + confirmations) head_block
