-- ===== src/Canary/Reconcile/Tests.antt =====
-- The reconciliation of src/canary/cycle.ts with an executor that has a receipt for one hash.
use sentry_forensic_gate.Base.{◌≡◌, refl, none, some, [], ◌∷◌, Text, text_eq}
use sentry_forensic_gate.Base.Result.{ok}
use sentry_forensic_gate.Canary.Types.{CanaryActionRecord, CanarySwapIntent, pass, submitted}
use sentry_forensic_gate.Canary.Store.{mark_included}
use sentry_forensic_gate.Canary.Reconcile.{
  CanaryExecutor, success, included_buy, ReconcileReport, reconcile_one,
}
use sentry_forensic_gate.Canary.Reconcile.Settled.{
  IsSettled, reconcile_one-IsSettled, reconcile_one_included,
}

abbrev executor : CanaryExecutor
executor = record {
  get_receipt_if_present = λ hash. ok (some success);
  get_token_balance = λ token. ok 55;
}

abbrev intent : CanarySwapIntent
intent = record {
  version = [];
  action_id = 1 ∷ [];
  launch_id = 11 ∷ [];
  baseline_id = 21 ∷ [];
  router = [];
  quote_block_number = 100;
  quote_block_hash = [];
  token_in = 5 ∷ [];
  token_out = 6 ∷ [];
  fee = 3_000;
  recipient = [];
  notional_usd_micros = 1_000_000;
  amount_in = 1_000;
  quoted_amount_out = 60;
  amount_out_minimum = 50;
  slippage_bps = 500;
  deadline_epoch_seconds = 60;
  calldata = [];
  value = 0;
}

abbrev sent : CanaryActionRecord
sent = record {
  action_id = 1 ∷ [];
  launch_id = 11 ∷ [];
  baseline_id = 21 ∷ [];
  decision = pass;
  reasons = [];
  state = submitted;
  origin_decision_block = 100;
  origin_decision_block_hash = [];
  intent = some intent;
  nonce = some 0;
  transaction_hash = some (b'f' ∷ []);
  serialized_transaction = some (9 ∷ []);
  last_error = none;
  output_balance_before = some 0;
  output_balance_after = none;
  created_at_ms = 1000;
  updated_at_ms = 1000;
}

abbrev report : ReconcileReport
report = record {
  action = included_buy;
  launch_id = 11 ∷ [];
  transaction_hash = some (b'f' ∷ []);
  reason = none;
}

reconcile_one-IsSettled_example :
    IsSettled 5 sent executor (sent ∷ []) (reconcile_one 5 sent (some executor) (sent ∷ [])).1
unfolding text_eq
reconcile_one-IsSettled_example = reconcile_one-IsSettled 5 sent executor (sent ∷ []) refl refl

reconcile_one_included_example :
    (hash : Text) × (sent.transaction_hash ≡ some hash)
    × (executor.get_receipt_if_present hash ≡ ok (some success))
unfolding reconcile_one mark_included text_eq
reconcile_one_included_example = reconcile_one_included 5 sent executor (sent ∷ []) report refl refl
