-- ===== src/Canary/EntryApproval/Tests.antt =====
-- src/canary/entryApproval.ts at a buy of 1,000 units, over a coder that puts the amount in front of
-- the spender and a digest that is the first key.
use sentry_forensic_gate.Base.{◌≡◌, ◌≢◌, refl, some, [], ◌∷◌, Text, codes, text_eq, to_lower_case}
use sentry_forensic_gate.Base.Result.{ok, err}
use sentry_forensic_gate.Evidence.Canonical.{Json, obj, field, text_lt, sha256_hex, normalize}
use sentry_forensic_gate.Canary.Types.{CanarySwapIntent}
use sentry_forensic_gate.Canary.SwapIntent.{
  Platform, canary_sniper_r0, ink_swap_router_02, derive_canary_action_id,
}
use sentry_forensic_gate.Canary.EntryApproval.{
  ApprovalCoder, DecodedCall, undecodable, approve, CanaryEntryApprovalIntent, weth9,
  canary_e0_entry_approval_r0, build_canary_entry_approval_intent, assert_matches_parent_buy,
  assert_covers_buy, erc20_max_uint256, infinite_allowance_forbidden, assert_entry_approval_amount,
}
use sentry_forensic_gate.Canary.EntryApproval.Bound.{
  IsTakenFrom, IsApproval, build_canary_entry_approval_intent-IsExact,
}

abbrev pub first_key : Json → Text
first_key (obj (field k v fs)) = k
first_key _ = []

abbrev pub split_call : Text → DecodedCall
split_call [] = undecodable
split_call (a ∷ s) = approve s a

abbrev pub platform : Platform
platform = record {
  get_address = λ a. some a;
  encode_exact_input_single = λ e. some ([]);
  encode_multicall = λ d cs. some ([]);
  digest = first_key;
}

abbrev pub coder : ApprovalCoder
coder = record { encode_approve = λ s a. a ∷ s; decode = split_call }

abbrev pub buy : CanarySwapIntent
buy = record {
  version = canary_sniper_r0;
  action_id = codes "baselineId";
  launch_id = 1 ∷ [];
  baseline_id = 2 ∷ [];
  router = codes "0x177778F19E89dD1012BdBe603F144088A95C4B53";
  quote_block_number = 100;
  quote_block_hash = b'A' ∷ [];
  token_in = codes "0x4200000000000000000000000000000000000006";
  token_out = 7 ∷ [];
  fee = 3_000;
  recipient = 8 ∷ [];
  notional_usd_micros = 1_000_000;
  amount_in = 1_000;
  quoted_amount_out = 10;
  amount_out_minimum = 9;
  slippage_bps = 500;
  deadline_epoch_seconds = 60;
  calldata = [];
  value = 0;
}

abbrev pub approval : CanaryEntryApprovalIntent
approval = record {
  version = canary_e0_entry_approval_r0;
  action_id = codes "amount";
  parent_buy_action_id = codes "baselineId";
  launch_id = 1 ∷ [];
  baseline_id = 2 ∷ [];
  owner = 8 ∷ [];
  token = codes "0x4200000000000000000000000000000000000006";
  buy_token_out = 7 ∷ [];
  buy_fee = 3_000;
  spender = codes "0x177778F19E89dD1012BdBe603F144088A95C4B53";
  amount = 1_000;
  source_quote_block_number = 100;
  source_quote_block_hash = b'A' ∷ [];
  notional_usd_micros = 1_000_000;
  calldata = 1_000 ∷ codes "0x177778F19E89dD1012BdBe603F144088A95C4B53";
}

unlimited : assert_entry_approval_amount erc20_max_uint256 ≡ err infinite_allowance_forbidden
unfolding assert_entry_approval_amount erc20_max_uint256
unlimited = refl

matches : assert_matches_parent_buy platform coder approval buy ≡ ok tt
unfolding assert_matches_parent_buy text_eq to_lower_case text_lt weth9 ink_swap_router_02
    derive_canary_action_id erc20_max_uint256 sha256_hex normalize
matches = refl

covers : assert_covers_buy platform coder approval buy ≡ ok tt
unfolding assert_covers_buy text_eq weth9 ink_swap_router_02
covers = refl

build_canary_entry_approval_intent-IsExact_example :
    IsTakenFrom platform buy approval
    × (approval.action_id ≢ buy.action_id)
    × IsApproval platform approval.spender approval.amount (coder.decode approval.calldata)
unfolding build_canary_entry_approval_intent text_eq text_lt weth9 ink_swap_router_02
    derive_canary_action_id erc20_max_uint256 sha256_hex normalize
build_canary_entry_approval_intent-IsExact_example =
    build_canary_entry_approval_intent-IsExact platform coder buy approval refl
