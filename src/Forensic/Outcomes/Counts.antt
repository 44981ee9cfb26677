-- ===== src/Forensic/Outcomes/Counts.antt =====
-- What the counters of `classify` in src/forensic/creatorOutcome.ts say together.
use sentry_forensic_gate.Base.{
  ℕ, suc, ◌+◌, ◌≡◌, refl, arith, Bool, List, [], ◌∷◌, ◌&&◌, not, is_some, count, if◌then◌else◌,
  Option-cases, inl, inr,
}
use sentry_forensic_gate.Domain.{Classification}
use sentry_forensic_gate.Receipts.{OutcomeReceipt}
use sentry_forensic_gate.Forensic.Feature.{coverage_of}
use sentry_forensic_gate.Forensic.Outcomes.{
  OutcomeCounts, no_counts, count_class, count_outcome, count_outcomes, classify,
}

-- The sum of the classes.
abbrev pub sum_of_classes : OutcomeCounts → ℕ
sum_of_classes c =
    c.catastrophic_losses + c.exit_failures + c.liquidity_collapses + c.normal_losses
    + c.normal_wins + c.fat_tail_wins

abbrev pub has_class : OutcomeReceipt → Bool
has_class o = is_some o.classification

abbrev pub is_unsellable : OutcomeReceipt → Bool
is_unsellable o = is_some o.classification && not o.sellable

-- What the counters are after `n` outcomes with a class, `u` of them without a sale.
pub record IsBalanced (n u : ℕ) (c : OutcomeCounts) : Type 0 where
  pub classified_eq : c.classified ≡ n
  pub unsellable_eq : c.unsellable ≡ u
  pub by_class : sum_of_classes c ≡ n

no_counts-IsBalanced : IsBalanced 0 0 no_counts
no_counts-IsBalanced = ground arith

class-IsBalanced :
    (n u : ℕ) (class : Classification) (sellable : Bool) (c : OutcomeCounts)
    → IsBalanced n u c
    → IsBalanced
        (suc n)
        (if sellable then u else suc u)
        (count_class class (if sellable then c else record c { unsellable = suc c.unsellable }))
unfolding count_class
class-IsBalanced n u class sellable c v = ground arith

outcome-IsBalanced :
    (n u : ℕ) (o : OutcomeReceipt) (c : OutcomeCounts)
    → IsBalanced n u c
    → IsBalanced
        (if has_class o then suc n else n)
        (if is_unsellable o then suc u else u)
        (count_outcome o c)
unfolding count_outcome
outcome-IsBalanced n u o c v = elim (Option-cases o.classification) [
  | inl e ↦ rw e v
  | inr (class, e) ↦ rw e (ground (arith, class-IsBalanced n u class o.sellable c v))
]

count_outcomes-IsBalanced :
    (n u : ℕ) (outcomes : List OutcomeReceipt) (c : OutcomeCounts)
    → IsBalanced n u c
    → IsBalanced
        (n + count has_class outcomes)
        (u + count is_unsellable outcomes)
        (count_outcomes outcomes c)
unfolding count_outcomes
count_outcomes-IsBalanced n u [] c v = ground arith
count_outcomes-IsBalanced n u (o ∷ outcomes) c v = ground (
  arith,
  count_outcomes-IsBalanced (if has_class o then suc n else n)
      (if is_unsellable o then suc u else u) outcomes (count_outcome o c)
      (outcome-IsBalanced n u o c v),
)

counts_lem :
    (outcomes : List OutcomeReceipt)
    → IsBalanced
        (count has_class outcomes)
        (count is_unsellable outcomes)
        (count_outcomes outcomes no_counts)
counts_lem outcomes =
    ground (arith, count_outcomes-IsBalanced 0 0 outcomes no_counts no_counts-IsBalanced)

-- Exactly the outcomes with a class are counted, each in one class, exactly those of them that
-- cannot be sold are counted as unsellable, and the coverage compares the number of outcomes
-- with a class to the number of prior launches.
pub classify-IsBalanced :
    (outcomes : List OutcomeReceipt) (prior_launch_count : ℕ)
    → IsBalanced
        (count has_class outcomes)
        (count is_unsellable outcomes)
        (classify outcomes prior_launch_count).1
      × (classify outcomes prior_launch_count).0
        ≡ coverage_of prior_launch_count (count has_class outcomes)
unfolding classify
classify-IsBalanced outcomes prior_launch_count =
    let v = counts_lem outcomes in (v, rw (v.classified_eq) refl)
