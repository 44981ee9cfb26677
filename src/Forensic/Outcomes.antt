-- ===== src/Forensic/Outcomes.antt =====
-- The outcomes that src/forensic/creatorOutcome.ts counts for a creator, and their classes.
-- `stringify` is JSON.stringify, `le_text` the order of `localeCompare`.
pub mod AsOf
pub mod Counts
mod Tests
use sentry_forensic_gate.Base.{
  ℕ, suc, Bool, true, false, ◌&&◌, ◌||◌, not, Option, none, some, List, [], ◌∷◌, ◌++◌, Text, codes,
  text_eq, leb, ltb, ◌==◌, if◌then◌else◌, any, select, get_key, set_key, get_or_else, has_member,
  sort_by,
}
use sentry_forensic_gate.Base.Result.{Result, ok, err, ◌>>=◌}
use sentry_forensic_gate.Domain.{
  Classification, catastrophic_loss, exit_failure, liquidity_collapse, normal_loss, normal_win,
  fat_tail_win,
}
use sentry_forensic_gate.Receipts.{OutcomeReceipt, forward_outcomes_r1}
use sentry_forensic_gate.Evidence.Canonical.{Json, canonical_json}
use sentry_forensic_gate.Ledger.Receipt.{outcome_json}
use sentry_forensic_gate.Forensic.Feature.{CreatorOutcomeCoverage, coverage_of}

abbrev pub creator_outcome_horizon_ms : ℕ
creator_outcome_horizon_ms = 86_400_000

-- CREATOR_OUTCOME_DUPLICATE_24H, with its launch
pub data OutcomeError : Type 0 where
  duplicate_24h : Text → OutcomeError

abbrev pub Candidates : Type 0
Candidates = List (Text × List OutcomeReceipt)

-- The guards of the first loop.
unfoldable pub is_candidate : List Text → ℕ → OutcomeReceipt → Bool
is_candidate prior_launch_ids decision_block outcome =
    outcome.horizon_ms == creator_outcome_horizon_ms
    && has_member outcome.launch_id prior_launch_ids
    && leb outcome.observed_block decision_block

abbrev pub push_candidate : OutcomeReceipt → Candidates → Candidates
push_candidate outcome m =
    set_key outcome.launch_id (get_or_else (get_key outcome.launch_id m) [] ++ outcome ∷ []) m

-- The first loop, from the candidates so far.
unfoldable pub collect_candidates : List Text → ℕ → List OutcomeReceipt → Candidates → Candidates
unfolding is_candidate
collect_candidates prior decision_block [] m = m
collect_candidates prior decision_block (o ∷ outcomes) m =
    let next = if is_candidate prior decision_block o then push_candidate o m else m in
    collect_candidates prior decision_block outcomes next

abbrev is_r1 : OutcomeReceipt → Bool
is_r1 o = elim o.policy_version [ none ↦ false | some p ↦ text_eq p forward_outcomes_r1 ]

abbrev is_unversioned : OutcomeReceipt → Bool
is_unversioned o = elim o.policy_version [ none ↦ true | some p ↦ false ]

abbrev is_nonempty : List OutcomeReceipt → Bool
is_nonempty [] = false
is_nonempty (x ∷ xs) = true

-- The outcomes of the current policy, or the ones older than policies.
unfoldable pub pool_of : List OutcomeReceipt → List OutcomeReceipt
pool_of items =
    let r1 = select is_r1 items in if is_nonempty r1 then r1 else select is_unversioned items

module _ (stringify : Json → Text) where
  unfoldable pub same_outcome : OutcomeReceipt → OutcomeReceipt → Bool
  same_outcome a b =
      text_eq (canonical_json stringify (outcome_json a))
        (canonical_json stringify (outcome_json b))

  -- The second loop, over the launches in the order of their first candidates.
  unfoldable pub select_pools : Candidates → Result OutcomeError (List OutcomeReceipt)
  unfolding pool_of same_outcome
  select_pools [] = ok []
  select_pools ((launch_id, items) ∷ m) = elim (pool_of items) [
    | [] ↦ select_pools m
    | first ∷ rest ↦
        if any (λ o. not (text_eq first.outcome_id o.outcome_id) || not (same_outcome first o)) rest
        then err (duplicate_24h launch_id)
        else (select_pools m >>= λ selected. ok (first ∷ selected))
  ]

  unfoldable pub select_eligible_outcomes :
      (Text → Text → Bool)
      → List OutcomeReceipt
      → List Text
      → ℕ
      → Result OutcomeError (List OutcomeReceipt)
  unfolding collect_candidates select_pools
  select_eligible_outcomes le_text outcomes prior_launch_ids decision_block =
      select_pools (collect_candidates prior_launch_ids decision_block outcomes []) >>= λ selected.
      ok (
        sort_by
          (λ a b.
            if le_text a.launch_id b.launch_id && le_text b.launch_id a.launch_id
            then le_text a.outcome_id b.outcome_id
            else le_text a.launch_id b.launch_id)
          selected)

-- The counters of `classify`.
pub record OutcomeCounts : Type 0 where
  pub classified : ℕ
  pub unsellable : ℕ
  pub catastrophic_losses : ℕ
  pub exit_failures : ℕ
  pub liquidity_collapses : ℕ
  pub normal_losses : ℕ
  pub normal_wins : ℕ
  pub fat_tail_wins : ℕ

abbrev pub no_counts : OutcomeCounts
no_counts = record {
  classified = 0;
  unsellable = 0;
  catastrophic_losses = 0;
  exit_failures = 0;
  liquidity_collapses = 0;
  normal_losses = 0;
  normal_wins = 0;
  fat_tail_wins = 0;
}

unfoldable pub count_class : Classification → OutcomeCounts → OutcomeCounts
count_class catastrophic_loss c = record c {
  classified = suc c.classified;
  catastrophic_losses = suc c.catastrophic_losses;
}
count_class exit_failure c = record c {
  classified = suc c.classified;
  exit_failures = suc c.exit_failures;
}
count_class liquidity_collapse c = record c {
  classified = suc c.classified;
  liquidity_collapses = suc c.liquidity_collapses;
}
count_class normal_loss c = record c {
  classified = suc c.classified;
  normal_losses = suc c.normal_losses;
}
count_class normal_win c = record c {
  classified = suc c.classified;
  normal_wins = suc c.normal_wins;
}
count_class fat_tail_win c = record c {
  classified = suc c.classified;
  fat_tail_wins = suc c.fat_tail_wins;
}

unfoldable pub count_outcome : OutcomeReceipt → OutcomeCounts → OutcomeCounts
unfolding count_class
count_outcome o c = elim o.classification [
  | none ↦ c
  | some class ↦
      count_class class (if o.sellable then c else record c { unsellable = suc c.unsellable })
]

unfoldable pub count_outcomes : List OutcomeReceipt → OutcomeCounts → OutcomeCounts
unfolding count_outcome
count_outcomes [] c = c
count_outcomes (o ∷ outcomes) c = count_outcomes outcomes (count_outcome o c)

unfoldable pub classify : List OutcomeReceipt → ℕ → CreatorOutcomeCoverage × OutcomeCounts
unfolding count_outcomes coverage_of
classify outcomes prior_launch_count =
    let c = count_outcomes outcomes no_counts in (coverage_of prior_launch_count c.classified, c)
