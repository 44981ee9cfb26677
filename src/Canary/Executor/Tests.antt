-- ===== src/Canary/Executor/Tests.antt =====
-- src/canary/viemCanaryExecutor.ts for one swap that is signed and sent, and sent again, over a
-- `keccak256` that changes nothing and a parser that always finds the same transaction.
use sentry_forensic_gate.Base.{
  ◌≡◌, refl, none, some, true, List, [], ◌∷◌, Text, codes, text_eq, to_lower_case, All, get_key,
  has_member, add_member, delete_member,
}
use sentry_forensic_gate.Base.Result.{Result, ok}
use sentry_forensic_gate.Canary.SwapIntent.{ink_swap_router_02}
use sentry_forensic_gate.Canary.EntryApproval.Tests.{platform, coder, buy, approval}
use sentry_forensic_gate.Canary.EntryApproval.{
  erc20_max_uint256, weth9, assert_canary_approval_calldata,
}
use sentry_forensic_gate.Canary.RoundTrip.Approval.{classify_canary_approval_allowance}
use sentry_forensic_gate.Canary.Executor.Preflight.{PreflightChain, preflight_approval}
use sentry_forensic_gate.Canary.Executor.Bound.{Allows, preflight_approval-IsBound}
use sentry_forensic_gate.Canary.Executor.{
  CanaryApprovalPreflight, for_entry, assert_approval_preflight_binding, assert_approval_authority,
  assert_fee_and_gas_caps, block_timestamp_to_number, CanaryExecutorCaps, CanaryPreflight,
  SignedCanaryTransaction, Viem, ExecutorError, assert_signed_envelope, assert_quote_fresh,
  assert_deadline_against_chain_clock,
}
use sentry_forensic_gate.Canary.Executor.Signing.{SigningChain, sign, broadcast_exact}
use sentry_forensic_gate.Canary.Executor.Safe.{IsSafe}
use sentry_forensic_gate.Canary.Executor.Calls.{
  ExecutorCall, signs, broadcasts, fresh_executor, after_all, after_all-IsSafe,
}

abbrev pub viem : Viem
viem = record {
  keccak256 = λ s. s;
  parse_transaction = λ s. some (record {
    chain_id = some 57_073;
    value = none;
    nonce = some 4;
    gas = some 90_000;
    max_fee_per_gas = some 7;
    max_priority_fee_per_gas = some 1;
    to = some (codes "0x177778F19E89dD1012BdBe603F144088A95C4B53");
    calldata = none;
  });
  recover_transaction_address = λ s. some (8 ∷ []);
}

abbrev pub caps : CanaryExecutorCaps
caps = record {
  max_quote_age_blocks = 3;
  max_gas = 500_000;
  max_fee_per_gas = 10;
  max_priority_fee_per_gas = 2;
}

abbrev pub chain : SigningChain
chain = record {
  clock = ok (record { block_number = 101; block_hash = 1 ∷ []; timestamp_seconds = 20 });
  quote_block_hash = ok (b'a' ∷ []);
  token_balance = ok 0;
  allowance = ok 0;
  simulation = ok (some true);
  nonce = ok 4;
  signature = λ n. ok (b's' ∷ []);
}

abbrev swap_preflight : CanaryPreflight
swap_preflight = record {
  wallet = 8 ∷ [];
  checked_at_block = 101;
  input_balance = 1_000;
  input_allowance = 1_000;
  output_balance_before = 0;
  gas = 90_000;
  max_fee_per_gas = 7;
  max_priority_fee_per_gas = 1;
}

abbrev tx : SignedCanaryTransaction
tx = record {
  action_id = codes "baselineId";
  nonce = 4;
  transaction_hash = b's' ∷ [];
  serialized_transaction = b's' ∷ [];
  serialized_transaction_keccak256 = b's' ∷ [];
  gas = 90_000;
  max_fee_per_gas = 7;
  max_priority_fee_per_gas = 1;
}

abbrev pub network : Text → Result ExecutorError Text
network s = ok s

abbrev calls : List ExecutorCall
calls =
    broadcasts network tx
    ∷ signs chain buy swap_preflight
    ∷ broadcasts network tx
    ∷ broadcasts network tx
    ∷ []

-- The transaction goes out once: not before it is signed, and not a second time.
goes_once : (after_all platform coder viem (8 ∷ []) caps calls fresh_executor).sent ≡ tx ∷ []
unfolding after_all text_eq to_lower_case ink_swap_router_02 broadcast_exact assert_signed_envelope
    get_key sign assert_quote_fresh assert_deadline_against_chain_clock has_member add_member
    delete_member
goes_once = refl

after_all-IsSafe_example :
    All
      (IsSafe platform coder viem (8 ∷ []) caps)
      (after_all platform coder viem (8 ∷ []) caps calls fresh_executor).sent
after_all-IsSafe_example = after_all-IsSafe platform coder viem (8 ∷ []) caps calls

abbrev pub asked : PreflightChain
asked = record {
  chain_id = ok 57_073;
  block = ok (record { number = some 101; hash = some (1 ∷ []); timestamp = 20 });
  quote_block = ok (record { number = some 100; hash = some (b'a' ∷ []); timestamp = 10 });
  code = ok (some (codes "0x60"));
  router_factory = ok [];
  router_weth = ok [];
  token_balance = ok 5_000;
  allowance = ok 0;
  output_balance = ok 0;
  call = ok tt;
  simulation = ok (some true);
  gas = ok 60_000;
  fees = ok (record { max_fee_per_gas = 7; max_priority_fee_per_gas = 1 });
}

abbrev approval_preflight : CanaryApprovalPreflight
approval_preflight = record {
  action_id = codes "amount";
  wallet = 8 ∷ [];
  token = codes "0x4200000000000000000000000000000000000006";
  spender = codes "0x177778F19E89dD1012BdBe603F144088A95C4B53";
  amount = 1_000;
  checked_at_block = 101;
  token_balance = 5_000;
  allowance_before = 0;
  gas = 60_000;
  max_fee_per_gas = 7;
  max_priority_fee_per_gas = 1;
}

preflight_approval-IsBound_example :
    (assert_approval_preflight_binding platform coder viem
        (8 ∷ [])
        (for_entry approval)
        approval_preflight
      ≡ ok tt)
    × (assert_fee_and_gas_caps 60_000 7 1 caps ≡ ok tt)
    × Allows platform coder viem (8 ∷ []) caps asked (for_entry approval) approval_preflight
unfolding preflight_approval assert_approval_authority text_eq ink_swap_router_02 erc20_max_uint256
    weth9 assert_canary_approval_calldata classify_canary_approval_allowance assert_fee_and_gas_caps
    block_timestamp_to_number
preflight_approval-IsBound_example =
    preflight_approval-IsBound platform coder viem (8 ∷ []) caps asked (for_entry approval)
      approval_preflight (codes "0x4200000000000000000000000000000000000006") refl refl
