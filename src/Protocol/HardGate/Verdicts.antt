-- ===== src/Protocol/HardGate/Verdicts.antt =====
-- When the gate of src/protocol/hardGate.ts passes and when it rejects.
use sentry_forensic_gate.Base.{Bool, true, false, Option, none, some, [], ◌≡◌, ◌↔◌, ◌⊎◌, arith}
use sentry_forensic_gate.Domain.{pass, reject}
use sentry_forensic_gate.Protocol.HardGate.{HardGateEvidence, evaluate_hard_gate}

-- Every piece of evidence is present and positive, and nothing contradicts.
pub record IsProven (e : HardGateEvidence) : Type 0 where
  pub canonical : e.canonical_launch ≡ some true
  pub pool : e.pool_resolved ≡ some true
  pub infrastructure : e.infrastructure_matches ≡ some true
  pub entry : e.entry_executable ≡ some true
  pub exit : e.reverse_exit_executable ≡ some true
  pub consistent : e.contradictory_chain_state ≡ false

-- Something contradicts, or some piece of evidence is negative.
abbrev pub IsRefuted : HardGateEvidence → Type 0
IsRefuted e =
    (e.contradictory_chain_state ≡ true)
    ⊎ ((e.canonical_launch ≡ some false)
        ⊎ ((e.pool_resolved ≡ some false)
            ⊎ ((e.infrastructure_matches ≡ some false)
                ⊎ ((e.entry_executable ≡ some false) ⊎ (e.reverse_exit_executable ≡ some false)))))

pass_sound : (e : HardGateEvidence) → (evaluate_hard_gate e).state ≡ pass → IsProven e
unfolding evaluate_hard_gate
pass_sound e h = ground arith

pass_complete : (e : HardGateEvidence) → IsProven e → (evaluate_hard_gate e).state ≡ pass
unfolding evaluate_hard_gate
pass_complete e v = ground arith

reject_sound : (e : HardGateEvidence) → (evaluate_hard_gate e).state ≡ reject → IsRefuted e
unfolding evaluate_hard_gate
reject_sound e h = ground arith

reject_complete : (e : HardGateEvidence) → IsRefuted e → (evaluate_hard_gate e).state ≡ reject
unfolding evaluate_hard_gate
reject_complete e v = ground arith

reasons_pass :
    (e : HardGateEvidence)
    → (evaluate_hard_gate e).reasons ≡ []
    → (evaluate_hard_gate e).state ≡ pass
unfolding evaluate_hard_gate
reasons_pass e h = ground arith

pass_reasons :
    (e : HardGateEvidence)
    → (evaluate_hard_gate e).state ≡ pass
    → (evaluate_hard_gate e).reasons ≡ []
unfolding evaluate_hard_gate
pass_reasons e h = ground arith

-- The gate passes exactly on full positive evidence without contradiction, rejects exactly on a
-- contradiction or a negative piece, and gives no reason exactly when it passes. So what is merely
-- unknown never passes and never rejects.
pub evaluate_hard_gate_lem :
    (e : HardGateEvidence)
    → (((evaluate_hard_gate e).state ≡ pass) ↔ IsProven e)
      × (((evaluate_hard_gate e).state ≡ reject) ↔ IsRefuted e)
      × (((evaluate_hard_gate e).reasons ≡ []) ↔ ((evaluate_hard_gate e).state ≡ pass))
evaluate_hard_gate_lem e = (
  (pass_sound e, pass_complete e),
  (reject_sound e, reject_complete e),
  (reasons_pass e, pass_reasons e),
)

-- `v` says at least what `u` says.
abbrev pub Extends : Option Bool → Option Bool → Type 0
Extends u v = (u ≡ none) ⊎ (v ≡ u)

-- More evidence of each kind, or a contradiction that is discovered.
pub record Refines (e e' : HardGateEvidence) : Type 0 where
  pub canonical : Extends e.canonical_launch e'.canonical_launch
  pub pool : Extends e.pool_resolved e'.pool_resolved
  pub infrastructure : Extends e.infrastructure_matches e'.infrastructure_matches
  pub entry : Extends e.entry_executable e'.entry_executable
  pub exit : Extends e.reverse_exit_executable e'.reverse_exit_executable
  pub contradiction :
      (e.contradictory_chain_state ≡ false)
      ⊎ (e'.contradictory_chain_state ≡ e.contradictory_chain_state)

IsRefuted-stays : (e e' : HardGateEvidence) → Refines e e' → IsRefuted e → IsRefuted e'
IsRefuted-stays e e' r v = ground arith

-- A rejection is final: no further evidence turns it into a pass or into doubt.
pub reject_final :
    (e e' : HardGateEvidence)
    → Refines e e'
    → (evaluate_hard_gate e).state ≡ reject
    → (evaluate_hard_gate e').state ≡ reject
reject_final e e' r h = reject_complete e' (IsRefuted-stays e e' r (reject_sound e h))
