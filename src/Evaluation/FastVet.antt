-- ===== src/Evaluation/FastVet.antt =====
-- src/evaluation/fastVet.ts: the decision on one candidate.
pub mod Decisions
mod Tests
use sentry_forensic_gate.Base.{
  ℕ, Bool, true, false, ◌||◌, not, Option, none, some, List, [], ◌∷◌, Text, text_eq, ltb, ◌==◌,
  find, if◌then◌else◌,
}
use sentry_forensic_gate.Base.Result.{Result, ok, err}
use sentry_forensic_gate.Canary.Types.{FastVetDecision, pass, reject, unknown}
use sentry_forensic_gate.Forensic.Feature
use sentry_forensic_gate.Forensic.Feature.{
  CreatorOutcomeFeatureReceipt, CreatorOutcomeCoverage, adverse_creator_count,
}
use sentry_forensic_gate.Shadow.Baseline.{
  ExecutableBaselineBatch, BaselineLeg, BaselineStatus, complete, unverified,
}

abbrev pub fast_vet_primary_notional_usd_micros : ℕ
fast_vet_primary_notional_usd_micros = 1_000_000

pub data FastVetAction : Type 0 where
  buy_eligible skip : FastVetAction

pub data FastVetReason : Type 0 where
  baseline_missing baseline_unverified primary_leg_missing : FastVetReason
  primary_entry_not_executable primary_reverse_not_executable : FastVetReason
  creator_feature_missing creator_history_incomplete known_prior_adverse_creator : FastVetReason

pub data FastVetError : Type 0 where
  binding_mismatch : Text → FastVetError

-- `none` is 'MISSING' and null.
pub record FastVetEvidenceSummary : Type 0 where
  pub baseline_status : Option BaselineStatus
  pub primary_entry_executable : Option Bool
  pub primary_reverse_executable : Option Bool
  pub independent_reverse_recovery_bps : Option ℕ
  pub creator_coverage : Option CreatorOutcomeCoverage
  pub creator_prior_launch_count : Option ℕ
  pub creator_prior_adverse_count : Option ℕ

pub record FastVetResult : Type 0 where
  pub decision : FastVetDecision
  pub action : FastVetAction
  pub reasons : List FastVetReason
  pub evidence : FastVetEvidenceSummary

-- `option?.field`
abbrev map_option {ℓ κ} : {A : Type ℓ} {B : Type κ} → (A → B) → Option A → Option B
map_option f none = none
map_option f (some a) = some (f a)

abbrev join_option {ℓ} : {A : Type ℓ} → Option (Option A) → Option A
join_option none = none
join_option (some o) = o

abbrev pub primary_leg_of : ExecutableBaselineBatch → Option BaselineLeg
primary_leg_of baseline =
    find (λ leg. leg.notional_usd_micros == fast_vet_primary_notional_usd_micros) baseline.legs

evidence_from :
    ExecutableBaselineBatch → Option CreatorOutcomeFeatureReceipt → FastVetEvidenceSummary
evidence_from baseline feature =
    let primary_leg = primary_leg_of baseline in
    record {
      baseline_status = some baseline.status;
      primary_entry_executable = map_option (λ leg. leg.entry.executable) primary_leg;
      primary_reverse_executable = join_option (
          map_option (λ (leg : BaselineLeg). map_option (λ q. q.executable) leg.reverse)
            primary_leg);
      independent_reverse_recovery_bps =
          join_option
            (map_option (λ (leg : BaselineLeg). leg.independent_reverse_recovery_bps) primary_leg);
      creator_coverage = map_option (λ f. f.coverage) feature;
      creator_prior_launch_count = map_option (λ f. f.prior_launch_count) feature;
      creator_prior_adverse_count = map_option (λ f. adverse_creator_count f) feature;
    }

missing_evidence : Option CreatorOutcomeFeatureReceipt → FastVetEvidenceSummary
missing_evidence feature = record {
  baseline_status = none;
  primary_entry_executable = none;
  primary_reverse_executable = none;
  independent_reverse_recovery_bps = none;
  creator_coverage = map_option (λ f. f.coverage) feature;
  creator_prior_launch_count = map_option (λ f. f.prior_launch_count) feature;
  creator_prior_adverse_count = map_option (λ f. adverse_creator_count f) feature;
}

abbrev action_of : FastVetDecision → FastVetAction
action_of pass = buy_eligible
action_of _ = skip

-- `result`
abbrev result : FastVetDecision → List FastVetReason → FastVetEvidenceSummary → FastVetResult
result decision reasons evidence = record {
  decision = decision;
  action = action_of decision;
  reasons = reasons;
  evidence = evidence;
}

abbrev pub is_bound_to : ExecutableBaselineBatch → CreatorOutcomeFeatureReceipt → Bool
is_bound_to baseline feature = not (
    not (text_eq feature.launch_id baseline.launch_id)
    || not (text_eq feature.baseline_id baseline.baseline_id))

abbrev is_incomplete : CreatorOutcomeCoverage → Bool
is_incomplete Feature.unknown = true
is_incomplete Feature.partial = true
is_incomplete _ = false

-- The tests on the creator's history, once the baseline has passed.
vet_creator : ExecutableBaselineBatch → Option CreatorOutcomeFeatureReceipt → FastVetResult
unfolding evidence_from
vet_creator baseline none =
    result unknown (creator_feature_missing ∷ []) (evidence_from baseline none)
vet_creator baseline (some feature) =
    if ltb 0 (adverse_creator_count feature)
    then result reject (known_prior_adverse_creator ∷ []) (evidence_from baseline (some feature))
    else if is_incomplete feature.coverage
    then result unknown (creator_history_incomplete ∷ []) (evidence_from baseline (some feature))
    else result pass [] (evidence_from baseline (some feature))

abbrev pub reverse_executable : BaselineLeg → Bool
reverse_executable leg = elim leg.reverse [ none ↦ false | some q ↦ q.executable ]

abbrev pub has_recovery : BaselineLeg → Bool
has_recovery leg = elim leg.independent_reverse_recovery_bps [ none ↦ false | some bps ↦ true ]

-- The tests on the primary leg of a complete baseline.
unfoldable pub vet_leg :
    ExecutableBaselineBatch
    → Option CreatorOutcomeFeatureReceipt
    → Option BaselineLeg
    → FastVetResult
unfolding evidence_from vet_creator
vet_leg baseline feature none =
    result unknown (primary_leg_missing ∷ []) (evidence_from baseline feature)
vet_leg baseline feature (some leg) =
    if not leg.entry.executable
    then result reject (primary_entry_not_executable ∷ []) (evidence_from baseline feature)
    else if not (reverse_executable leg) || not (has_recovery leg)
    then result reject (primary_reverse_not_executable ∷ []) (evidence_from baseline feature)
    else vet_creator baseline feature

abbrev pub is_complete : BaselineStatus → Bool
is_complete complete = true
is_complete unverified = false

-- The throw on a feature of another baseline.
abbrev pub is_mismatched : ExecutableBaselineBatch → Option CreatorOutcomeFeatureReceipt → Bool
is_mismatched baseline none = false
is_mismatched baseline (some feature) = not (is_bound_to baseline feature)

unfoldable pub evaluate_fast_vet :
    Option ExecutableBaselineBatch
    → Option CreatorOutcomeFeatureReceipt
    → Result FastVetError FastVetResult
unfolding missing_evidence evidence_from vet_leg
evaluate_fast_vet none feature =
    ok (result unknown (baseline_missing ∷ []) (missing_evidence feature))
evaluate_fast_vet (some baseline) feature =
    if is_mismatched baseline feature
    then err (binding_mismatch baseline.launch_id)
    else if not (is_complete baseline.status)
    then ok (result unknown (baseline_unverified ∷ []) (evidence_from baseline feature))
    else ok (vet_leg baseline feature (primary_leg_of baseline))
