-- ===== src/Evaluation/FastVet/Decisions.antt =====
-- Which candidates src/evaluation/fastVet.ts lets the canary buy.
use sentry_forensic_gate.Base.{
  Bool, true, false, Option, none, some, [], ◌≡◌, ◌↔◌, ◌⊎◌, inl, inr, refl, arith, text_eq_iff,
  Option-cases, Bool-cases,
}
use sentry_forensic_gate.Base.Result.{Result, ok, err}
use sentry_forensic_gate.Canary.Types.{pass, decision_eq}
use sentry_forensic_gate.Forensic.Feature
use sentry_forensic_gate.Forensic.Feature.{CreatorOutcomeFeatureReceipt, adverse_creator_count}
use sentry_forensic_gate.Shadow.Baseline.{ExecutableBaselineBatch, BaselineLeg, complete}
use sentry_forensic_gate.Evaluation.FastVet.{
  is_mismatched, is_complete, vet_leg, FastVetResult, FastVetError, evaluate_fast_vet,
  primary_leg_of, reverse_executable, has_recovery, buy_eligible,
}

-- What a candidate has to show.
pub record IsEligible (b : ExecutableBaselineBatch) (f : CreatorOutcomeFeatureReceipt)
    (leg : BaselineLeg) : Type 0 where
  pub same_launch : f.launch_id ≡ b.launch_id
  pub same_baseline : f.baseline_id ≡ b.baseline_id
  pub is_complete : b.status ≡ complete
  pub primary : primary_leg_of b ≡ some leg
  pub entry : leg.entry.executable ≡ true
  pub reverse : reverse_executable leg ≡ true
  pub recovery : has_recovery leg ≡ true
  pub no_adverse : adverse_creator_count f ≡ 0
  pub history : (f.coverage ≡ Feature.no_history) ⊎ (f.coverage ≡ Feature.complete)

abbrev pub passes : Result FastVetError FastVetResult → Bool
passes (ok r) = decision_eq r.decision pass
passes (err e) = false

eligible_passes :
    (b : ExecutableBaselineBatch) (f : CreatorOutcomeFeatureReceipt) (leg : BaselineLeg)
    → IsEligible b f leg
    → passes (evaluate_fast_vet (some b) (some f)) ≡ true
unfolding evaluate_fast_vet
eligible_passes b f leg v =
    ground (arith, text_eq_iff f.launch_id b.launch_id, text_eq_iff f.baseline_id b.baseline_id)

passes-IsEligible :
    (b : ExecutableBaselineBatch) (f : CreatorOutcomeFeatureReceipt) (leg : BaselineLeg)
    → primary_leg_of b ≡ some leg
    → passes (evaluate_fast_vet (some b) (some f)) ≡ true
    → IsEligible b f leg
unfolding evaluate_fast_vet
passes-IsEligible b f leg e h =
    ground (arith, text_eq_iff f.launch_id b.launch_id, text_eq_iff f.baseline_id b.baseline_id)

no_leg_fails :
    (b : ExecutableBaselineBatch) (f : Option CreatorOutcomeFeatureReceipt)
    → primary_leg_of b ≡ none
    → passes (evaluate_fast_vet (some b) f) ≡ false
unfolding evaluate_fast_vet
no_leg_fails b f e = ground arith

no_feature_fails : (b : ExecutableBaselineBatch) → passes (evaluate_fast_vet (some b) none) ≡ false
unfolding evaluate_fast_vet
no_feature_fails b = ground arith

no_baseline_fails :
    (f : Option CreatorOutcomeFeatureReceipt) → passes (evaluate_fast_vet none f) ≡ false
unfolding evaluate_fast_vet
no_baseline_fails f = refl

abbrev pub Eligible : Option ExecutableBaselineBatch → Option CreatorOutcomeFeatureReceipt → Type 0
Eligible baseline feature =
    (b : ExecutableBaselineBatch) × (f : CreatorOutcomeFeatureReceipt) × (leg : BaselineLeg)
    × (baseline ≡ some b)
    × (feature ≡ some f)
    × IsEligible b f leg

passes_both :
    (b : ExecutableBaselineBatch) (f : CreatorOutcomeFeatureReceipt)
    → passes (evaluate_fast_vet (some b) (some f)) ≡ true
    → Eligible (some b) (some f)
passes_both b f h = elim (Option-cases (primary_leg_of b)) [
  | inl e ↦ cc (no_leg_fails b (some f) e)
  | inr (leg, e) ↦ (b, f, leg, refl, refl, passes-IsEligible b f leg e h)
]

passes_only :
    (baseline : Option ExecutableBaselineBatch) (feature : Option CreatorOutcomeFeatureReceipt)
    → passes (evaluate_fast_vet baseline feature) ≡ true
    → Eligible baseline feature
passes_only none feature h = cc (no_baseline_fails feature)
passes_only (some b) none h = cc (no_feature_fails b)
passes_only (some b) (some f) h = passes_both b f h

-- A vet passes exactly when there is a complete baseline and a creator feature bound to it, the
-- primary leg is there with an executable entry, an executable reverse and a recovery, the creator
-- has no adverse outcome, and its history is empty or completely classified.
pub evaluate_fast_vet-passes :
    (baseline : Option ExecutableBaselineBatch) (feature : Option CreatorOutcomeFeatureReceipt)
    → (passes (evaluate_fast_vet baseline feature) ≡ true) ↔ Eligible baseline feature
evaluate_fast_vet-passes baseline feature =
    (passes_only baseline feature, λ (b, f, leg, e, k, v). rw (e, k) (eligible_passes b f leg v))

-- What an answer means, and that only a mismatch is thrown.
abbrev pub IsAnswer : Bool → Result FastVetError FastVetResult → Type 0
IsAnswer mismatched (ok r) =
    (mismatched ≡ false)
    × ((r.action ≡ buy_eligible) ↔ (r.decision ≡ pass))
    × ((r.reasons ≡ []) ↔ (r.decision ≡ pass))
IsAnswer mismatched (err e) = mismatched ≡ true

leg-IsAnswer :
    (b : ExecutableBaselineBatch) (f : Option CreatorOutcomeFeatureReceipt)
    (leg : Option BaselineLeg)
    → IsAnswer false (ok (vet_leg b f leg))
unfolding vet_leg
leg-IsAnswer b f leg =
    (refl, (λ h. ground arith, λ h. ground arith), (λ h. ground arith, λ h. ground arith))

-- The vet throws exactly on a baseline with a feature of another launch or baseline, and else
-- answers; an answer makes the candidate eligible to buy exactly when it passes, which is exactly
-- when it gives no reason.
pub evaluate_fast_vet-IsAnswer :
    (b : ExecutableBaselineBatch) (feature : Option CreatorOutcomeFeatureReceipt)
    → IsAnswer (is_mismatched b feature) (evaluate_fast_vet (some b) feature)
unfolding evaluate_fast_vet
evaluate_fast_vet-IsAnswer b feature = elim (Bool-cases (is_mismatched b feature)) [
  | inl m ↦ rw (m, evaluate_fast_vet) refl
  | inr m ↦ elim (Bool-cases (is_complete b.status)) [
    | inl c ↦ rw (m, c) (leg-IsAnswer b feature (primary_leg_of b))
    | inr c ↦
        rw (m, c)
          (refl, (λ h. ground arith, λ h. ground arith), (λ h. ground arith, λ h. ground arith))
  ]
]
