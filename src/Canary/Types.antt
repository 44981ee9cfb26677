-- ===== src/Canary/Types.antt =====
-- src/canary/types.ts, the decision type of src/evaluation/fastVet.ts, the swap intent type of
-- src/canary/swapIntent.ts, and what the modules of src/canary throw.
use sentry_forensic_gate.Base.{ℕ, Bool, Option, List, Text, ◌==◌}

pub data FastVetDecision : Type 0 where
  pass reject unknown : FastVetDecision

pub data CanaryActionState : Type 0 where
  skipped reserved signed submitted included reverted safe_halt : CanaryActionState

-- `===` on states
abbrev state_code : CanaryActionState → ℕ
state_code skipped = 0
state_code reserved = 1
state_code signed = 2
state_code submitted = 3
state_code included = 4
state_code reverted = 5
state_code safe_halt = 6

abbrev pub state_eq : CanaryActionState → CanaryActionState → Bool
state_eq a b = state_code a == state_code b

abbrev decision_code : FastVetDecision → ℕ
decision_code pass = 0
decision_code reject = 1
decision_code unknown = 2

abbrev pub decision_eq : FastVetDecision → FastVetDecision → Bool
decision_eq a b = decision_code a == decision_code b

pub record CanarySwapIntent : Type 0 where
  pub version : Text
  pub action_id : Text
  pub launch_id : Text
  pub baseline_id : Text
  pub router : Text
  pub quote_block_number : ℕ
  pub quote_block_hash : Text
  pub token_in : Text
  pub token_out : Text
  pub fee : ℕ
  pub recipient : Text
  pub notional_usd_micros : ℕ
  pub amount_in : ℕ
  pub quoted_amount_out : ℕ
  pub amount_out_minimum : ℕ
  pub slippage_bps : ℕ
  pub deadline_epoch_seconds : ℕ
  pub calldata : Text
  pub value : ℕ

pub record CanaryActionRecord : Type 0 where
  pub action_id : Text
  pub launch_id : Text
  pub baseline_id : Text
  pub decision : FastVetDecision
  pub reasons : List Text
  pub state : CanaryActionState
  pub origin_decision_block : ℕ
  pub origin_decision_block_hash : Text
  pub intent : Option CanarySwapIntent
  pub nonce : Option ℕ
  pub transaction_hash : Option Text
  pub serialized_transaction : Option Text
  pub last_error : Option Text
  pub output_balance_before : Option ℕ
  pub output_balance_after : Option ℕ
  pub created_at_ms : ℕ
  pub updated_at_ms : ℕ

-- The codes of the errors, without their prefix CANARY_.
pub data CanaryError : Type 0 where
  identity_required quote_must_be_positive chain_timestamp_invalid : CanaryError
  token_identity_invalid min_out_rounds_to_zero : CanaryError
  notional_must_be_one_dollar invalid_fee slippage_bps_out_of_range : ℕ → CanaryError
  deadline_seconds_out_of_range : ℕ → CanaryError
  -- what viem throws at an address that it cannot parse
  invalid_address : Text → CanaryError
  -- what viem throws at an argument that its type cannot hold
  encoding_failed : CanaryError
  action_identity_conflict action_insert_rejected action_missing : Text → CanaryError
  state_transition_failed : Text → CanaryActionState → CanaryActionState → CanaryError
  safe_halt_invalid_state : CanaryActionState → CanaryError
  included_invalid_state reverted_invalid_state : Option CanaryActionState → CanaryError
  multiple_committed_buys_invariant_broken : CanaryError
  -- what SQLite throws at an UPDATE that breaks a UNIQUE column
  unique_constraint_failed : CanaryError
  -- what a call of the chain provider throws
  provider_failure : Text → CanaryError
