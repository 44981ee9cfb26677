-- ===== src/Protocol/HardGate.antt =====
-- src/protocol/hardGate.ts. `null` evidence is `none`.
pub mod Verdicts
mod Tests
use sentry_forensic_gate.Base.{
  Bool, true, false, Option, none, some, List, [], ◌∷◌, ◌++◌, ◌||◌, any, if◌then◌else◌,
}
use sentry_forensic_gate.Domain.{DecisionState, pass, reject, unverified}

pub record HardGateEvidence : Type 0 where
  pub canonical_launch : Option Bool
  pub pool_resolved : Option Bool
  pub infrastructure_matches : Option Bool
  pub entry_executable : Option Bool
  pub reverse_exit_executable : Option Bool
  pub contradictory_chain_state : Bool

pub data HardGateReason : Type 0 where
  contradictory_chain_state non_canonical_launch pool_relation_invalid : HardGateReason
  infrastructure_mismatch entry_unexecutable reverse_exit_unexecutable : HardGateReason
  critical_evidence_missing : HardGateReason

pub record HardGateResult : Type 0 where
  pub state : DecisionState
  pub reasons : List HardGateReason

-- `v === false` and `v === null`
abbrev pub is_false : Option Bool → Bool
is_false (some false) = true
is_false _ = false

abbrev pub is_null : Option Bool → Bool
is_null none = true
is_null (some b) = false

-- `if (evidence === false) reasons.push(reason);`
abbrev pub push_if : Bool → HardGateReason → List HardGateReason → List HardGateReason
push_if true reason rest = reason ∷ rest
push_if false reason rest = rest

unfoldable pub refutations : HardGateEvidence → List HardGateReason
refutations e = push_if (is_false e.canonical_launch) non_canonical_launch (
    push_if (is_false e.pool_resolved) pool_relation_invalid (
      push_if (is_false e.infrastructure_matches) infrastructure_mismatch (
        push_if (is_false e.entry_executable) entry_unexecutable
          (push_if (is_false e.reverse_exit_executable) reverse_exit_unexecutable []))))

unfoldable pub is_missing : HardGateEvidence → Bool
is_missing e = any is_null (
    e.canonical_launch ∷ e.pool_resolved ∷ e.infrastructure_matches ∷ e.entry_executable
    ∷ e.reverse_exit_executable ∷ [])

-- The verdict once the refutations are collected.
abbrev pub conclude : List HardGateReason → Bool → HardGateResult
conclude (r ∷ rs) missing = record { state = reject; reasons = r ∷ rs }
conclude [] true = record { state = unverified; reasons = critical_evidence_missing ∷ [] }
conclude [] false = record { state = pass; reasons = [] }

unfoldable pub evaluate_hard_gate : HardGateEvidence → HardGateResult
unfolding refutations is_missing
evaluate_hard_gate e =
    if e.contradictory_chain_state
    then record { state = reject; reasons = contradictory_chain_state ∷ [] }
    else conclude (refutations e) (is_missing e)
