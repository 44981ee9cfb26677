-- ===== src/Evaluation/FastVet/Tests.antt =====
-- src/evaluation/fastVet.ts on a candidate that may be bought.
use sentry_forensic_gate.Base.{true, false, none, some, [], ◌∷◌, ◌≡◌, ◌↔◌, refl, text_eq}
use sentry_forensic_gate.Forensic.Feature
use sentry_forensic_gate.Forensic.Feature.{CreatorOutcomeFeatureReceipt}
use sentry_forensic_gate.Shadow.Baseline.{
  ExecutableBaselineBatch, BaselineLeg, BaselineQuoteReceipt, complete, executable_baseline_r1,
  entry_quote, exact_input, usdt0_nominal_peg_v0,
}
use sentry_forensic_gate.Evaluation.FastVet.{evaluate_fast_vet, is_mismatched}
use sentry_forensic_gate.Evaluation.FastVet.Decisions.{
  IsAnswer, passes, Eligible, evaluate_fast_vet-passes, evaluate_fast_vet-IsAnswer,
}

abbrev quote : BaselineQuoteReceipt
quote = record {
  quote_id = 1 ∷ [];
  launch_id = 1 ∷ [];
  block_number = 7;
  block_hash = 2 ∷ [];
  observed_at_ms = 0;
  kind = entry_quote;
  mode = exact_input;
  notional_usd_micros = 1_000_000;
  pool = 3 ∷ [];
  token_in = 4 ∷ [];
  token_out = 5 ∷ [];
  fee = 3000;
  amount_in = 10;
  amount_out = 20;
  executable = true;
  failure_reason = none;
  sqrt_price_x96_after = none;
  initialized_ticks_crossed = none;
  gas_estimate = none;
}

abbrev leg : BaselineLeg
leg = record {
  notional_usd_micros = 1_000_000;
  calibration = record {
    kind = usdt0_nominal_peg_v0;
    notional_usd_micros = 1_000_000;
    base_token = 4 ∷ [];
    base_amount = 10;
    base_decimals = 6;
    quote = none;
    oracle_evidence = none;
  };
  entry = quote;
  reverse = some quote;
  independent_reverse_recovery_bps = some 9_900;
}

abbrev baseline : ExecutableBaselineBatch
baseline = record {
  baseline_id = 8 ∷ [];
  authority_digest = 9 ∷ [];
  launch_id = 1 ∷ [];
  policy_version = executable_baseline_r1;
  decision_block = 7;
  decision_block_hash = 2 ∷ [];
  observed_at_ms = 0;
  status = complete;
  reason = none;
  market = none;
  legs = leg ∷ [];
}

abbrev feature : CreatorOutcomeFeatureReceipt
feature = record {
  receipt_id = [];
  chain_id = 57_073;
  launch_id = 1 ∷ [];
  creator = 6 ∷ [];
  baseline_id = 8 ∷ [];
  decision_block = 7;
  decision_block_hash = 2 ∷ [];
  horizon_ms = 86_400_000;
  coverage = Feature.no_history;
  prior_launch_count = 0;
  outcome_receipt_count = 0;
  classified_outcome_count = 0;
  unresolved_outcome_count = 0;
  unsellable_outcome_count = 0;
  catastrophic_loss_count = 0;
  exit_failure_count = 0;
  liquidity_collapse_count = 0;
  normal_loss_count = 0;
  normal_win_count = 0;
  fat_tail_win_count = 0;
  source_fact_ids = [];
  source_outcome_ids = [];
}

passes_run : passes (evaluate_fast_vet (some baseline) (some feature)) ≡ true
unfolding evaluate_fast_vet text_eq
passes_run = refl

partial_run :
    passes
      (evaluate_fast_vet (some baseline) (some (record feature { coverage = Feature.partial })))
    ≡ false
unfolding evaluate_fast_vet text_eq
partial_run = refl

evaluate_fast_vet-passes_example :
    (passes (evaluate_fast_vet (some baseline) (some feature)) ≡ true)
    ↔ Eligible (some baseline) (some feature)
evaluate_fast_vet-passes_example = evaluate_fast_vet-passes (some baseline) (some feature)

evaluate_fast_vet-IsAnswer_example :
    IsAnswer (is_mismatched baseline none) (evaluate_fast_vet (some baseline) none)
evaluate_fast_vet-IsAnswer_example = evaluate_fast_vet-IsAnswer baseline none
