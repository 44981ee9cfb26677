-- ===== src/Forensic/Outcomes/AsOf.antt =====
-- What src/forensic/creatorOutcome.ts does not read: outcomes that were not known at the decision.
use sentry_forensic_gate.Base.{
  ℕ, ◌<◌, ◌≡◌, refl, arith, Bool, false, List, [], ◌∷◌, ◌++◌, Text, if◌then◌else◌,
}
use sentry_forensic_gate.Receipts.{OutcomeReceipt}
use sentry_forensic_gate.Evidence.Canonical.{Json}
use sentry_forensic_gate.Forensic.Outcomes.{
  Candidates, is_candidate, push_candidate, collect_candidates, select_eligible_outcomes,
}

collect_candidates-skip :
    (prior : List Text) (block : ℕ) (xs ys : List OutcomeReceipt) (o : OutcomeReceipt)
    (m : Candidates)
    → is_candidate prior block o ≡ false
    → collect_candidates prior block (xs ++ o ∷ ys) m ≡ collect_candidates prior block (xs ++ ys) m
unfolding collect_candidates
collect_candidates-skip prior block [] ys o m h = rw (h, collect_candidates) refl
collect_candidates-skip prior block (x ∷ xs) ys o m h =
    collect_candidates-skip prior block xs ys o
      (if is_candidate prior block x then push_candidate x m else m) h

later_lem :
    (prior : List Text) (block : ℕ) (o : OutcomeReceipt)
    → block < o.observed_block
    → is_candidate prior block o ≡ false
unfolding is_candidate
later_lem prior block o h = ground arith

-- An outcome that was observed after the decision block changes nothing in what is selected for
-- the decision, wherever it stands among the outcomes.
pub select_eligible_outcomes-AsOf :
    (stringify : Json → Text) (le_text : Text → Text → Bool) (prior : List Text) (block : ℕ)
    (xs ys : List OutcomeReceipt) (o : OutcomeReceipt)
    → block < o.observed_block
    → select_eligible_outcomes stringify le_text (xs ++ o ∷ ys) prior block
      ≡ select_eligible_outcomes stringify le_text (xs ++ ys) prior block
unfolding select_eligible_outcomes
select_eligible_outcomes-AsOf stringify le_text prior block xs ys o h =
    rw (collect_candidates-skip prior block xs ys o [] (later_lem prior block o h)) refl
