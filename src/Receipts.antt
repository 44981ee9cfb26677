-- ===== src/Receipts.antt =====
-- The receipts of src/evidence/receipts.ts, the facts and edges of src/graph/provenance.ts, the
-- shadow entries of src/shadow/ports.ts, and the point types of src/domain.ts that they hold.
-- `evidenceCompleteness`, a fraction that no code reads, is left out of a decision receipt, and so
-- are the fields of one value, `kind` of a fact and `derivationVersion` of an edge.
use sentry_forensic_gate.Base.{ℕ, Bool, Option, List, Text, codes}
use sentry_forensic_gate.Domain.{DecisionState, Classification, OutcomeStatus}

pub data RiskBand : Type 0 where
  low moderate elevated high unknown_risk : RiskBand

pub data EvidenceState : Type 0 where
  good bad unknown contradictory not_observed : EvidenceState

pub record FeatureEvidence : Type 0 where
  pub protocol : EvidenceState
  pub exit : EvidenceState
  pub creator : EvidenceState
  pub provenance : EvidenceState
  pub distribution : EvidenceState
  pub early_flow : EvidenceState
  pub liquidity : EvidenceState

pub record DecisionReceipt : Type 0 where
  pub decision_id : Text
  pub launch_id : Text
  pub decision_block : ℕ
  pub gate_version : Text
  pub policy_digest : Text
  pub evidence_digest : Text
  pub hard_gate : DecisionState
  pub risk_band : RiskBand
  pub features : FeatureEvidence

pub data QuoteDirection : Type 0 where
  entry_direction reverse_exit : QuoteDirection

pub record QuoteObservation : Type 0 where
  pub chain_id : ℕ
  pub block_number : ℕ
  pub block_hash : Text
  pub observed_at_ms : ℕ
  pub launch_id : Text
  pub direction : QuoteDirection
  pub notional_usd_micros : ℕ
  pub amount_in : ℕ
  pub amount_out : ℕ
  pub executable : Bool
  pub failure_reason : Option Text

pub record ShadowEntry : Type 0 where
  pub launch_id : Text
  pub notional_usd_micros : ℕ
  pub entry : QuoteObservation
  pub immediate_exit : QuoteObservation

pub record OutcomeReceipt : Type 0 where
  pub outcome_id : Text
  pub launch_id : Text
  pub horizon_ms : ℕ
  pub observed_block : ℕ
  pub executable_value_usd_micros : Option ℕ
  pub sellable : Bool
  pub liquidity_usd_micros : Option ℕ
  pub classification : Option Classification
  pub policy_version : Option Text
  pub status : Option OutcomeStatus
  pub reason : Option Text
  pub observed_block_hash : Option Text
  pub target_timestamp_ms : Option ℕ
  pub observed_timestamp_ms : Option ℕ
  pub baseline_id : Option Text
  pub entry_notional_usd_micros : Option ℕ
  pub entry_token_amount : Option ℕ
  pub market_pool : Option Text
  pub market_fee : Option ℕ
  pub base_token : Option Text
  pub base_amount_out : Option ℕ
  pub executable_return_bps : Option ℕ
  pub pool_active_liquidity : Option ℕ
  pub evidence_digest : Option Text

-- FORWARD_OUTCOMES_R1 of src/outcome/forwardTypes.ts
abbrev pub forward_outcomes_r1 : Text
forward_outcomes_r1 = codes "FORWARD_OUTCOMES_R1"

pub record ProvenanceFact : Type 0 where
  pub fact_id : Text
  pub chain_id : ℕ
  pub launch_id : Text
  pub creator : Text
  pub observed_block : ℕ
  pub observed_block_hash : Text
  pub log_index : ℕ
  pub source_event_id : Text
  pub evidence_digest : Text

pub data ProvenanceEdgeKind : Type 0 where
  deployed_by previous_launch : ProvenanceEdgeKind

pub data EvidenceClass : Type 0 where
  direct_onchain derived_join : EvidenceClass

pub record ProvenanceEdge : Type 0 where
  pub edge_id : Text
  pub kind : ProvenanceEdgeKind
  pub chain_id : ℕ
  pub source : Text
  pub target : Text
  pub evidence_class : EvidenceClass
  pub observed_block : ℕ
  pub observed_block_hash : Text
  pub source_fact_ids : List Text
  pub evidence_digest : Text
