-- ===== src/Ledger/Receipt.antt =====
-- The value that `canonicalJson` prints of an outcome receipt of src/evidence/receipts.ts: a field
-- that is undefined is not printed.
use sentry_forensic_gate.Base.{Option, none, some, Text, codes}
use sentry_forensic_gate.Domain.{
  Classification, catastrophic_loss, exit_failure, liquidity_collapse, normal_loss, normal_win,
  fat_tail_win, OutcomeStatus, complete, unverified_outcome,
}
use sentry_forensic_gate.Receipts.{OutcomeReceipt}
use sentry_forensic_gate.Evidence.Canonical.{Json, bool, num, bigint, str, obj, Fields, end, field}

abbrev optional : {A : Type 0} → Text → (A → Json) → Option A → Fields → Fields
optional key print none rest = rest
optional key print (some a) rest = field key (print a) rest

abbrev classification_json : Classification → Json
classification_json catastrophic_loss = str (codes "CATASTROPHIC_LOSS")
classification_json exit_failure = str (codes "EXIT_FAILURE")
classification_json liquidity_collapse = str (codes "LIQUIDITY_COLLAPSE")
classification_json normal_loss = str (codes "NORMAL_LOSS")
classification_json normal_win = str (codes "NORMAL_WIN")
classification_json fat_tail_win = str (codes "FAT_TAIL_WIN")

abbrev status_json : OutcomeStatus → Json
status_json complete = str (codes "COMPLETE")
status_json unverified_outcome = str (codes "UNVERIFIED")

forward_fields : OutcomeReceipt → Fields
forward_fields v = optional (codes "policyVersion") str v.policy_version (
    optional (codes "status") status_json v.status (
      optional (codes "reason") str v.reason (
        optional (codes "observedBlockHash") str v.observed_block_hash (
          optional (codes "targetTimestampMs") num v.target_timestamp_ms (
            optional (codes "observedTimestampMs") num v.observed_timestamp_ms (
              optional (codes "baselineId") str v.baseline_id (
                optional (codes "entryNotionalUsdMicros") bigint v.entry_notional_usd_micros (
                  optional (codes "entryTokenAmount") bigint v.entry_token_amount (
                    optional (codes "marketPool") str v.market_pool (
                      optional (codes "marketFee") num v.market_fee (
                        optional (codes "baseToken") str v.base_token (
                          optional (codes "baseAmountOut") bigint v.base_amount_out (
                            optional (codes "executableReturnBps") bigint v.executable_return_bps (
                              optional (codes "poolActiveLiquidity") bigint v.pool_active_liquidity
                                (optional (codes "evidenceDigest") str v.evidence_digest
                                  end)))))))))))))))

unfoldable pub outcome_json : OutcomeReceipt → Json
unfolding forward_fields
outcome_json v = obj (
    field (codes "outcomeId") (str v.outcome_id) (
      field (codes "launchId") (str v.launch_id) (
        field (codes "horizonMs") (num v.horizon_ms) (
          field (codes "observedBlock") (bigint v.observed_block) (
            optional (codes "executableValueUsdMicros") bigint v.executable_value_usd_micros (
              field (codes "sellable") (bool v.sellable) (
                optional (codes "liquidityUsdMicros") bigint v.liquidity_usd_micros (
                  optional (codes "classification") classification_json v.classification
                    (forward_fields v)))))))))
