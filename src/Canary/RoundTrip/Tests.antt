-- ===== src/Canary/RoundTrip/Tests.antt =====
-- src/canary/roundTrip.ts, src/canary/exitStore.ts and src/canary/approvalStore.ts at a buy that
-- acquired 10 units, over the parameters of the entry approval's tests.
use sentry_forensic_gate.Base.{
  ◌≡◌, ◌≢◌, refl, none, some, [], ◌∷◌, Text, codes, text_eq, to_lower_case, same_hex,
}
use sentry_forensic_gate.Base.Result.{ok}
use sentry_forensic_gate.Evidence.Canonical.{
  Json, Fields, obj, end, field, text_lt, sha256_hex, normalize,
}
use sentry_forensic_gate.Canary.Types.{
  CanaryActionRecord, CanarySwapIntent, pass, reserved, included,
}
use sentry_forensic_gate.Canary.SwapIntent.{
  ink_swap_router_02, canary_sniper_r0, derive_canary_action_id, build_canary_swap_intent, Platform,
  minimum_out,
}
use sentry_forensic_gate.Canary.EntryApproval.{erc20_max_uint256, assert_canary_approval_calldata}
use sentry_forensic_gate.Canary.EntryApproval.Tests.{platform, coder, buy}
use sentry_forensic_gate.Canary.Actions.{insert_or_ignore}
use sentry_forensic_gate.Canary.RoundTrip.{
  CanaryExitIntent, CanaryExitIntentInput, canary_e0_roundtrip_r0, exit_leg,
  build_canary_exit_intent, derive_canary_exit_action_id,
}
use sentry_forensic_gate.Canary.RoundTrip.Approval.{
  canary_e0_approval_r0, derive_canary_approval_action_id,
}
use sentry_forensic_gate.Canary.RoundTrip.ExitStore.{
  ExitRecord, check_exit_insertion, insert_reserved_exit, assert_exit_calldata, assert_exit_bound,
}
use sentry_forensic_gate.Canary.RoundTrip.ApprovalStore.{
  ApprovalRecord, check_record, check_parent, insert_reserved_approval,
}
use sentry_forensic_gate.Canary.RoundTrip.Acquired.{included_parent, check_acquired}
use sentry_forensic_gate.Canary.RoundTrip.SameAmount.{IsAcquired, reserved-SameAmount}
use sentry_forensic_gate.Canary.RoundTrip.Insertable.{build_canary_exit_intent-IsInsertable}

abbrev row : CanaryActionRecord
row = record {
  action_id = codes "baselineId";
  launch_id = 1 ∷ [];
  baseline_id = 2 ∷ [];
  decision = pass;
  reasons = [];
  state = included;
  origin_decision_block = 90;
  origin_decision_block_hash = b'b' ∷ [];
  intent = some buy;
  nonce = some 4;
  transaction_hash = some (b'a' ∷ []);
  serialized_transaction = some (b'a' ∷ []);
  last_error = none;
  output_balance_before = some 3;
  output_balance_after = some 13;
  created_at_ms = 1;
  updated_at_ms = 2;
}

abbrev input : CanaryExitIntentInput
input = record {
  buy_intent = buy;
  quote_block_number = 120;
  quote_block_hash = b'C' ∷ [];
  amount_in = 10;
  quoted_amount_out = 1_000;
  slippage_bps = 500;
  chain_timestamp_seconds = 50;
  deadline_seconds = 60;
}

abbrev swap : Text → CanarySwapIntent
swap id = record {
  version = canary_sniper_r0;
  action_id = id;
  launch_id = 1 ∷ [];
  baseline_id = 2 ∷ [];
  router = codes "0x177778F19E89dD1012BdBe603F144088A95C4B53";
  quote_block_number = 120;
  quote_block_hash = b'c' ∷ [];
  token_in = 7 ∷ [];
  token_out = codes "0x4200000000000000000000000000000000000006";
  fee = 3_000;
  recipient = 8 ∷ [];
  notional_usd_micros = 1_000_000;
  amount_in = 10;
  quoted_amount_out = 1_000;
  amount_out_minimum = 950;
  slippage_bps = 500;
  deadline_epoch_seconds = 110;
  calldata = [];
  value = 0;
}

abbrev exit : Text → CanaryExitIntent
exit id = record {
  swap = swap id;
  round_trip_version = canary_e0_roundtrip_r0;
  leg = exit_leg;
  parent_buy_action_id = codes "baselineId";
}

abbrev exit_record : ExitRecord
exit_record = record {
  action_id = 6 ∷ [];
  state = reserved;
  nonce = none;
  transaction_hash = none;
  serialized_transaction = none;
  last_error = none;
  created_at_ms = 3;
  updated_at_ms = 3;
  payload = record {
    parent_buy_action_id = codes "baselineId";
    launch_id = 1 ∷ [];
    baseline_id = 2 ∷ [];
    intent = exit (6 ∷ []);
    output_balance_before = some 40;
    output_balance_after = none;
  };
}

abbrev approval_record : ApprovalRecord
approval_record = record {
  action_id = codes "amount";
  state = reserved;
  nonce = none;
  transaction_hash = none;
  serialized_transaction = none;
  last_error = none;
  created_at_ms = 3;
  updated_at_ms = 3;
  payload = record {
    parent_buy_action_id = codes "baselineId";
    parent_exit_action_id = codes "baselineId";
    launch_id = 1 ∷ [];
    baseline_id = 2 ∷ [];
    intent = record {
      version = canary_e0_approval_r0;
      action_id = codes "amount";
      parent_buy_action_id = codes "baselineId";
      parent_exit_action_id = codes "baselineId";
      launch_id = 1 ∷ [];
      baseline_id = 2 ∷ [];
      owner = 8 ∷ [];
      token = 7 ∷ [];
      spender = codes "0x177778F19E89dD1012BdBe603F144088A95C4B53";
      amount = 10;
      calldata = 10 ∷ codes "0x177778F19E89dD1012BdBe603F144088A95C4B53";
    };
    observed_allowance_before = 0;
    observed_allowance_after = none;
  };
}

reserved-SameAmount_example :
    (approval_record.payload.intent.amount ≡ exit_record.payload.intent.swap.amount_in)
    × IsAcquired
        (row ∷ [])
        exit_record.payload.parent_buy_action_id
        exit_record.payload.intent.swap.amount_in
unfolding insert_reserved_exit insert_reserved_approval check_exit_insertion check_record
    check_parent text_eq to_lower_case text_lt ink_swap_router_02 derive_canary_action_id
    erc20_max_uint256 sha256_hex normalize insert_or_ignore assert_canary_approval_calldata
    included_parent check_acquired derive_canary_exit_action_id derive_canary_approval_action_id
    assert_exit_calldata same_hex minimum_out
reserved-SameAmount_example =
    reserved-SameAmount platform coder (row ∷ []) (9 ∷ []) exit_record [] approval_record
      (record { rows = []; signing_capabilities = [] }) refl refl refl

last_key_of : Text → Fields → Text
last_key_of k end = k
last_key_of k (field j v fs) = last_key_of j fs

abbrev last_key : Json → Text
unfolding last_key_of
last_key (obj fs) = last_key_of [] fs
last_key _ = []

abbrev last_platform : Platform
last_platform = record platform { digest = last_key }

abbrev last_buy : CanarySwapIntent
last_buy = record buy { action_id = codes "notionalUsdMicros" }

abbrev last_input : CanaryExitIntentInput
last_input = record input { buy_intent = last_buy }

abbrev last_row : CanaryActionRecord
last_row = record row { action_id = codes "notionalUsdMicros" }

abbrev last_exit : CanaryExitIntent
last_exit = record {
  swap = swap (codes "parentBuyActionId");
  round_trip_version = canary_e0_roundtrip_r0;
  leg = exit_leg;
  parent_buy_action_id = codes "notionalUsdMicros";
}

same_letters :
    (a x : Text) → last_platform.get_address a ≡ some x → to_lower_case x ≡ to_lower_case a
same_letters a x e = cc

build_canary_exit_intent-IsInsertable_example :
    (assert_exit_calldata last_platform last_exit ≡ ok tt)
    × (assert_exit_bound last_exit last_row last_buy ≡ ok tt)
    × (last_exit.swap.amount_in ≡ last_input.amount_in)
    × (last_exit.swap.action_id ≢ last_buy.action_id)
unfolding build_canary_exit_intent text_eq to_lower_case ink_swap_router_02 derive_canary_action_id
    derive_canary_exit_action_id sha256_hex normalize text_lt build_canary_swap_intent last_key_of
build_canary_exit_intent-IsInsertable_example =
    build_canary_exit_intent-IsInsertable last_platform last_input last_row last_exit same_letters
      refl (refl, refl, refl) refl
