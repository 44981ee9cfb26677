-- ===== src/Canary/Seed/Tests.antt =====
-- src/canary/historicalCreatorSeed.ts for a creator of the table with adverse outcomes.
use sentry_forensic_gate.Base.{◌≤◌, ◌≡◌, refl, [], ◌∷◌, Text, codes, text_eq, to_lower_case, arith}
use sentry_forensic_gate.Forensic.Feature
use sentry_forensic_gate.Forensic.Feature.{
  CreatorOutcomeFeatureReceipt, adverse_creator_count, coverage_of,
}
use sentry_forensic_gate.Canary.Seed.{
  apply_historical_creator_seed, add_seed, canary_historical_creator_seed, seed_row, is_inherited,
  counted, not_a_number,
}
use sentry_forensic_gate.Canary.Seed.Consistency.{
  IsConsistent, apply_historical_creator_seed-IsConsistent,
}

abbrev feature : CreatorOutcomeFeatureReceipt
feature = record {
  receipt_id = [];
  chain_id = 57_073;
  launch_id = 1 ∷ [];
  creator = 6 ∷ [];
  baseline_id = 8 ∷ [];
  decision_block = 7;
  decision_block_hash = 2 ∷ [];
  horizon_ms = 86_400_000;
  coverage = Feature.partial;
  prior_launch_count = 3;
  outcome_receipt_count = 2;
  classified_outcome_count = 1;
  unresolved_outcome_count = 2;
  unsellable_outcome_count = 0;
  catastrophic_loss_count = 0;
  exit_failure_count = 0;
  liquidity_collapse_count = 0;
  normal_loss_count = 0;
  normal_win_count = 1;
  fat_tail_win_count = 0;
  source_fact_ids = [];
  source_outcome_ids = [];
}

abbrev creator : Text
creator = codes "0xFE22991deaecdbf580710d05ad7db648050d0231"

adverse_run :
    apply_historical_creator_seed feature creator
    ≡ counted (add_seed feature (seed_row 4 3 0 0 0 1 0))
unfolding apply_historical_creator_seed canary_historical_creator_seed text_eq to_lower_case
adverse_run = refl

-- A name that is not an address.
inherited_run : apply_historical_creator_seed feature (codes "Constructor") ≡ not_a_number
unfolding apply_historical_creator_seed canary_historical_creator_seed text_eq to_lower_case
inherited_run = refl

apply_historical_creator_seed-IsConsistent_example :
    (g : CreatorOutcomeFeatureReceipt) × (apply_historical_creator_seed feature creator ≡ counted g)
    × IsConsistent g
    × (feature.prior_launch_count ≤ g.prior_launch_count)
    × (adverse_creator_count feature ≤ adverse_creator_count g)
    × (g.unresolved_outcome_count ≡ feature.unresolved_outcome_count)
unfolding coverage_of is_inherited to_lower_case text_eq
apply_historical_creator_seed-IsConsistent_example =
    apply_historical_creator_seed-IsConsistent feature creator refl (ground arith)
