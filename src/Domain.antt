-- ===== src/Domain.antt =====
-- src/domain.ts and the receipt types of src/evidence/receipts.ts. Bigints of the chain are
-- naturals.
use sentry_forensic_gate.Base.{ℕ, Text}

pub data DecisionState : Type 0 where
  pass reject unverified : DecisionState

pub data LaunchType : Type 0 where
  standard agent kraken_verified go_pump_me : LaunchType

pub data LaunchEventName : Type 0 where
  token_deployed kraken_verified_token_deployed go_pump_me_token_deployed : LaunchEventName

pub record LaunchObserved : Type 0 where
  pub chain_id : ℕ
  pub block_number : ℕ
  pub block_hash : Text
  pub observed_at_ms : ℕ
  pub launch_id : Text
  pub event_id : Text
  pub factory : Text
  pub tx_hash : Text
  pub log_index : ℕ
  pub token : Text
  pub creator : Text
  pub token_id : ℕ
  pub name : Text
  pub symbol : Text
  pub launch_type : LaunchType
  pub source_event : LaunchEventName

pub data Classification : Type 0 where
  catastrophic_loss exit_failure liquidity_collapse normal_loss normal_win fat_tail_win :
      Classification

pub data OutcomeStatus : Type 0 where
  complete unverified_outcome : OutcomeStatus
