-- ===== src/Protocol/HardGate/Tests.antt =====
-- src/protocol/hardGate.ts on evidence with a gap, and with a refutation beside it.
use sentry_forensic_gate.Base.{true, false, none, some, [], ◌∷◌, ◌≡◌, ◌↔◌, refl, arith}
use sentry_forensic_gate.Domain.{pass, reject}
use sentry_forensic_gate.Protocol.HardGate.{
  HardGateEvidence, evaluate_hard_gate, entry_unexecutable,
}
use sentry_forensic_gate.Protocol.HardGate.Verdicts.{
  IsProven, IsRefuted, evaluate_hard_gate_lem, reject_final,
}

abbrev gap : HardGateEvidence
gap = record {
  canonical_launch = some true;
  pool_resolved = none;
  infrastructure_matches = some true;
  entry_executable = some true;
  reverse_exit_executable = some true;
  contradictory_chain_state = false;
}

abbrev refuted : HardGateEvidence
refuted = record gap { entry_executable = some false }

refuted_run :
    evaluate_hard_gate refuted ≡ record { state = reject; reasons = entry_unexecutable ∷ [] }
unfolding evaluate_hard_gate
refuted_run = refl

evaluate_hard_gate_lem_example :
    (((evaluate_hard_gate gap).state ≡ pass) ↔ IsProven gap)
    × (((evaluate_hard_gate gap).state ≡ reject) ↔ IsRefuted gap)
    × (((evaluate_hard_gate gap).reasons ≡ []) ↔ ((evaluate_hard_gate gap).state ≡ pass))
evaluate_hard_gate_lem_example = evaluate_hard_gate_lem gap

abbrev refuted_later : HardGateEvidence
refuted_later = record refuted { pool_resolved = some true }

reject_final_example : (evaluate_hard_gate refuted_later).state ≡ reject
unfolding evaluate_hard_gate
reject_final_example = reject_final refuted refuted_later (ground arith) refl
