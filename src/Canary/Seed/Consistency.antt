-- ===== src/Canary/Seed/Consistency.antt =====
-- The join of src/canary/historicalCreatorSeed.ts keeps a feature's counts consistent, and never
-- makes a creator look better.
use sentry_forensic_gate.Base.{
  ◌+◌, ◌≤◌, ◌≡◌, ◌⊎◌, inl, inr, refl, false, [], ◌∷◌, arith, Text, text_eq, to_lower_case,
  Bool-cases,
}
use sentry_forensic_gate.Forensic.Feature.{
  CreatorOutcomeFeatureReceipt, coverage_of, adverse_creator_count,
}
use sentry_forensic_gate.Canary.Seed.{
  HistoricalCreatorSeedRow, Seed, canary_historical_creator_seed, find_seed, add_seed, absent, own,
  is_inherited, counted, apply_historical_creator_seed,
}

-- The counts of a feature fit together, as `classify` makes them.
pub record IsConsistent (f : CreatorOutcomeFeatureReceipt) : Type 0 where
  pub classes :
      f.classified_outcome_count
      ≡ f.catastrophic_loss_count + f.exit_failure_count + f.liquidity_collapse_count
        + f.normal_loss_count + f.normal_win_count + f.fat_tail_win_count
  pub receipts : f.classified_outcome_count ≤ f.outcome_receipt_count
  pub launches : f.outcome_receipt_count ≤ f.prior_launch_count
  pub unresolved : f.unresolved_outcome_count + f.classified_outcome_count ≡ f.prior_launch_count
  pub covered : f.coverage ≡ coverage_of f.prior_launch_count f.classified_outcome_count

-- The classes of a row add up to its launches.
abbrev IsBalanced : Seed → Type 0
IsBalanced [] = Unit
IsBalanced ((c, row) ∷ seed) =
    (row.launch_count
      ≡ row.catastrophic_loss_count + row.exit_failure_count + row.liquidity_collapse_count
        + row.normal_loss_count + row.normal_win_count + row.fat_tail_win_count)
    × IsBalanced seed

seed-IsBalanced : IsBalanced canary_historical_creator_seed
unfolding canary_historical_creator_seed
seed-IsBalanced = omega arith

-- Where a key that is not inherited is looked up.
found-cases :
    (creator : Text) (seed : Seed)
    → IsBalanced seed
    → is_inherited creator ≡ false
    → (find_seed creator seed ≡ absent)
      ⊎ ((row : HistoricalCreatorSeedRow) × (find_seed creator seed ≡ own row)
          × (row.launch_count
              ≡ row.catastrophic_loss_count + row.exit_failure_count + row.liquidity_collapse_count
                + row.normal_loss_count + row.normal_win_count + row.fat_tail_win_count))
unfolding find_seed
found-cases creator [] v n = inl (ground (arith, n))
found-cases creator ((c, r) ∷ seed) v n = elim (Bool-cases (text_eq c creator)) [
  | inl q ↦ inr (r, ground (arith, q), v.0)
  | inr q ↦ rw (q, find_seed) (found-cases creator seed v.1 n)
]

-- Whoever the creator is, unless its name in lower case is one that a plain object inherits (no
-- address is), the seeded feature has its counts: it is consistent if the live one is, counts at
-- least as many prior launches and at least as many adverse outcomes, and leaves as many unresolved.
pub apply_historical_creator_seed-IsConsistent :
    (f : CreatorOutcomeFeatureReceipt) (creator : Text)
    → is_inherited (to_lower_case creator) ≡ false
    → IsConsistent f
    → (g : CreatorOutcomeFeatureReceipt) × (apply_historical_creator_seed f creator ≡ counted g)
      × IsConsistent g
      × (f.prior_launch_count ≤ g.prior_launch_count)
      × (adverse_creator_count f ≤ adverse_creator_count g)
      × (g.unresolved_outcome_count ≡ f.unresolved_outcome_count)
unfolding apply_historical_creator_seed add_seed
apply_historical_creator_seed-IsConsistent f creator n v =
    elim (found-cases (to_lower_case creator) canary_historical_creator_seed seed-IsBalanced n) [
      | inl e ↦ (f, ground (arith, e), v, omega arith, omega arith, refl)
      | inr (row, e, b) ↦ (
        add_seed f row,
        ground (arith, e),
        ground (arith, b),
        omega arith,
        omega arith,
        ground (arith, b),
      )
    ]
