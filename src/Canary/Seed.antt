-- ===== src/Canary/Seed.antt =====
-- src/canary/historicalCreatorSeed.ts: the frozen history of creators, joined to a live feature.
pub mod Consistency
mod Tests
use sentry_forensic_gate.Base.{
  ℕ, ◌+◌, ◌-◌, ◌||◌, Bool, Option, none, some, List, [], ◌∷◌, Text, codes, text_eq, to_lower_case,
  length, select, ltb, if◌then◌else◌, ◌≡◌, refl,
}
use sentry_forensic_gate.Forensic.Feature.{CreatorOutcomeFeatureReceipt, coverage_of}

pub record HistoricalCreatorSeedRow : Type 0 where
  pub launch_count : ℕ
  pub catastrophic_loss_count : ℕ
  pub exit_failure_count : ℕ
  pub liquidity_collapse_count : ℕ
  pub normal_loss_count : ℕ
  pub normal_win_count : ℕ
  pub fat_tail_win_count : ℕ

-- The fields of a row in their order.
abbrev pub seed_row : ℕ → ℕ → ℕ → ℕ → ℕ → ℕ → ℕ → HistoricalCreatorSeedRow
seed_row launches catastrophic exit collapse loss win fat = record {
  launch_count = launches;
  catastrophic_loss_count = catastrophic;
  exit_failure_count = exit;
  liquidity_collapse_count = collapse;
  normal_loss_count = loss;
  normal_win_count = win;
  fat_tail_win_count = fat;
}

abbrev pub Seed : Type 0
Seed = List (Text × HistoricalCreatorSeedRow)

unfoldable pub canary_historical_creator_seed : Seed
canary_historical_creator_seed =
    (codes "0x0ac3805f575af9c28e2cdb1e388d66e75be8ee7a", seed_row 2 0 0 0 1 1 0)
    ∷ (codes "0x0f15d678f14f436dc22ae3203487a0b2dc62b6de", seed_row 1 0 0 0 1 0 0)
    ∷ (codes "0x2a9f4ab0ec37a215705705896f41392e5361ef14", seed_row 1 0 0 0 1 0 0)
    ∷ (codes "0x2d9056df9f2481806e0f0d3d42706c31c83345bb", seed_row 1 0 0 0 0 1 0)
    ∷ (codes "0x2f4ebcb2cce38e6691387295a1929dad30babbd0", seed_row 1 0 0 0 1 0 0)
    ∷ (codes "0x5c33f18755df280954b0dcc9177f491662550696", seed_row 1 0 0 0 0 1 0)
    ∷ (codes "0x702da71a3073cfa5c1e46784697d0676f35e2118", seed_row 1 0 0 0 0 1 0)
    ∷ (codes "0x7171e64e979265aed6588577d1c6b60a701d7866", seed_row 1 0 0 0 1 0 0)
    ∷ (codes "0x7389a4981d5ad2b19dfcb24e8c07b0b6aadac0c8", seed_row 2 0 0 1 0 1 0)
    ∷ (codes "0x7752725803c85090d85cf3cea7b6970de952401c", seed_row 13 0 0 11 1 1 0)
    ∷ (codes "0x797dd748f4b1e28ff46f0ff4aa306ee99140b49a", seed_row 94 5 0 82 4 3 0)
    ∷ (codes "0x831d3fe561f33c88cf378f5879a081729a9e21c3", seed_row 1 0 0 0 0 1 0)
    ∷ (codes "0x93b860a8898f057a2b476c10ead04a42fc87521d", seed_row 5 1 0 1 2 1 0)
    ∷ (codes "0x95d6d69fb0fe3dd5d01869d3e15274f7c05541d7", seed_row 1 0 0 0 0 1 0)
    ∷ (codes "0x96754d7dd3b85d95faa68813ab97287683ad9fb2", seed_row 1 0 0 0 1 0 0)
    ∷ (codes "0x9f5e5dd436b8c942f6c8eb7f64fd36831359c37b", seed_row 2 0 0 1 0 1 0)
    ∷ (codes "0xa66106666ffb383abedd423c35c5b7e1a1d2cb3b", seed_row 3 1 0 2 0 0 0)
    ∷ (codes "0xac2e42af5d328510376df0ef9e0e3fec220754a6", seed_row 3 0 0 0 1 2 0)
    ∷ (codes "0xbe36405524603a845771db095b9d4213bf2894a5", seed_row 2 0 0 0 0 2 0)
    ∷ (codes "0xbf551eed83c7eaee63854a2013eb94f18600b7c5", seed_row 2 1 0 0 1 0 0)
    ∷ (codes "0xca201506a887e1199ade152d88c60f6ed4ea3e36", seed_row 1 0 0 0 0 1 0)
    ∷ (codes "0xcc4e448fb300cb168b9aa03fd58f320a67535096", seed_row 1 0 0 0 1 0 0)
    ∷ (codes "0xe25e3f56769bc7f9eb564c419c0341f930dfcad9", seed_row 2 0 0 0 1 1 0)
    ∷ (codes "0xec0720d83838f95b0f19b204d6e12b5556bcb07b", seed_row 1 0 0 0 1 0 0)
    ∷ (codes "0xfe22991deaecdbf580710d05ad7db648050d0231", seed_row 4 3 0 0 0 1 0)
    ∷ []

-- What `CANARY_HISTORICAL_CREATOR_SEED[key]` finds: nothing, a row, or what a plain object inherits
-- from Object.prototype under the key, which is truthy and has no counts.
pub data SeedLookup : Type 0 where
  absent inherited : SeedLookup
  own : HistoricalCreatorSeedRow → SeedLookup

-- The names in lower case that a plain object inherits.
unfoldable pub is_inherited : Text → Bool
is_inherited key = text_eq key (codes "constructor") || text_eq key (codes "__proto__")

unfoldable pub find_seed : Text → Seed → SeedLookup
unfolding text_eq is_inherited
find_seed creator [] = if is_inherited creator then inherited else absent
find_seed creator ((c, row) ∷ seed) = if text_eq c creator then own row else find_seed creator seed

-- The feature with a row added. A count of unresolved outcomes is a difference of two numbers of
-- which the first is never smaller, as Consistency shows.
unfoldable pub add_seed :
    CreatorOutcomeFeatureReceipt → HistoricalCreatorSeedRow → CreatorOutcomeFeatureReceipt
unfolding coverage_of
add_seed feature seed =
    let prior_launch_count = feature.prior_launch_count + seed.launch_count in
    let classified_outcome_count = feature.classified_outcome_count + seed.launch_count in
    record feature {
      coverage = coverage_of prior_launch_count classified_outcome_count;
      prior_launch_count = prior_launch_count;
      outcome_receipt_count = feature.outcome_receipt_count + seed.launch_count;
      classified_outcome_count = classified_outcome_count;
      unresolved_outcome_count = prior_launch_count - classified_outcome_count;
      catastrophic_loss_count = feature.catastrophic_loss_count + seed.catastrophic_loss_count;
      exit_failure_count = feature.exit_failure_count + seed.exit_failure_count;
      liquidity_collapse_count = feature.liquidity_collapse_count + seed.liquidity_collapse_count;
      normal_loss_count = feature.normal_loss_count + seed.normal_loss_count;
      normal_win_count = feature.normal_win_count + seed.normal_win_count;
      fat_tail_win_count = feature.fat_tail_win_count + seed.fat_tail_win_count;
    }

-- A feature with its counts, or one whose counts are all NaN, with the coverage PARTIAL.
pub data SeededFeature : Type 0 where
  counted : CreatorOutcomeFeatureReceipt → SeededFeature
  not_a_number : SeededFeature

unfoldable pub apply_historical_creator_seed : CreatorOutcomeFeatureReceipt → Text → SeededFeature
unfolding find_seed to_lower_case
apply_historical_creator_seed feature creator =
    elim (find_seed (to_lower_case creator) canary_historical_creator_seed) [
      | absent ↦ counted feature
      | inherited ↦ not_a_number
      | own seed ↦ counted (add_seed feature seed)
    ]

-- `historicalCreatorSeedSummary`: creators, launches, and creators with an adverse outcome.
abbrev sum_launches : Seed → ℕ
sum_launches [] = 0
sum_launches ((c, row) ∷ seed) = row.launch_count + sum_launches seed

abbrev is_adverse_row : Text × HistoricalCreatorSeedRow → Bool
is_adverse_row (c, row) =
    ltb 0 (row.catastrophic_loss_count + row.exit_failure_count + row.liquidity_collapse_count)

historical_creator_seed_summary : ℕ × ℕ × ℕ
unfolding canary_historical_creator_seed
historical_creator_seed_summary = (
  length canary_historical_creator_seed,
  sum_launches canary_historical_creator_seed,
  length (select is_adverse_row canary_historical_creator_seed),
)

historical_creator_seed_summary_run : historical_creator_seed_summary ≡ (25, 147, 8)
unfolding historical_creator_seed_summary
historical_creator_seed_summary_run = refl
