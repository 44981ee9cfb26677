-- ===== src/Canary/Executor/Preflight.antt =====
-- The clock and the preflights of src/canary/viemCanaryExecutor.ts: what is asked of the chain before
-- a transaction is signed. What the chain answers is a parameter; an `err` is a throw.
use sentry_forensic_gate.Base.{
  ℕ, ◌||◌, not, Bool, false, Option, none, some, Text, codes, is_empty, text_eq, to_lower_case, ltb,
  ◌==◌,
}
use sentry_forensic_gate.Base.Result.{Result, ok, err, ◌>>=◌, ◌>>◌, throw_if, or_throw}
use sentry_forensic_gate.Canary.Types.{CanarySwapIntent}
use sentry_forensic_gate.Canary.SwapIntent.{Platform}
use sentry_forensic_gate.Canary.EntryApproval.{ApprovalCoder, weth9}
use sentry_forensic_gate.Canary.Revoke.{CanaryEntryApprovalRevokeIntent}
use sentry_forensic_gate.Canary.RoundTrip.Approval.{
  AllowanceDisposition, approve_exact, blocked_dirty_allowance, classify_canary_approval_allowance,
}
use sentry_forensic_gate.Canary.Executor.{
  CanaryExecutorCaps, CanaryApprovalPreflight, CanaryApprovalRevokePreflight, CanaryPreflight,
  CanaryChainClock, ExactApproval, approval_action_id, approval_token, approval_spender,
  approval_amount, Viem, ExecutorError, of_amount, chain_id_mismatch, clock_block_identity_missing,
  router_mismatch, recipient_must_equal_wallet, router_code_missing, router_factory_drift,
  router_weth_drift, quote_block_hash_missing, quote_block_reorg, input_balance_insufficient,
  input_allowance_insufficient, token_code_missing, simulation_result_missing, simulation_false,
  token_balance_insufficient, allowance_not_exact, dirty_allowance, under, ink_chain_id,
  assert_fee_and_gas_caps, assert_quote_fresh, assert_deadline_against_chain_clock,
  block_timestamp_to_number, assert_approval_authority, assert_revoke_authority, differ, not_router,
}

-- `factory` of src/authority/executableInfraAuthority.ts
unfoldable pub tsunami_v3_factory : Text
tsunami_v3_factory = codes "0x640887A9ba3A9C53Ed27D0F7e8246A4F933f3424"

-- A block without a number or a hash is one that is pending.
pub record Block : Type 0 where
  pub number : Option ℕ
  pub hash : Option Text
  pub timestamp : ℕ

pub record Fees : Type 0 where
  pub max_fee_per_gas : ℕ
  pub max_priority_fee_per_gas : ℕ

-- What the chain answers within one preflight.
pub record PreflightChain : Type 0 where
  pub chain_id : Result ExecutorError ℕ
  pub block : Result ExecutorError Block
  pub quote_block : Result ExecutorError Block
  -- the code at the router, or at the token; `none` and `0x` are no code
  pub code : Result ExecutorError (Option Text)
  pub router_factory : Result ExecutorError Text
  pub router_weth : Result ExecutorError Text
  -- of the wallet: the input or the token, its allowance for the spender, and the output
  pub token_balance : Result ExecutorError ℕ
  pub allowance : Result ExecutorError ℕ
  pub output_balance : Result ExecutorError ℕ
  pub call : Result ExecutorError (Unit {0})
  -- what the simulation of an approval returns: no result, or what `approve` answers
  pub simulation : Result ExecutorError (Option Bool)
  pub gas : Result ExecutorError ℕ
  pub fees : Result ExecutorError Fees

abbrev pub has_code : Option Text → Bool
has_code none = false
has_code (some c) = not (is_empty c || text_eq c (codes "0x"))

abbrev pub block_hash : Block → ExecutorError → Result ExecutorError Text
block_hash b e = do hash ← or_throw b.hash e; throw_if (is_empty hash) e; ok hash

unfoldable pub get_chain_clock : PreflightChain → Result ExecutorError CanaryChainClock
get_chain_clock chain = do
  id ← chain.chain_id
  b ← chain.block
  throw_if (not (id == ink_chain_id)) chain_id_mismatch
  number ← or_throw b.number clock_block_identity_missing
  hash ← block_hash b clock_block_identity_missing
  timestamp ← block_timestamp_to_number b.timestamp
  ok (record { block_number = number; block_hash = hash; timestamp_seconds = timestamp })

-- `assertCanaryQuoteBlockHash`
unfoldable pub assert_quote_block_hash : Text → Text → Result ExecutorError (Unit {0})
assert_quote_block_hash expected actual =
    throw_if (not (text_eq (to_lower_case expected) (to_lower_case actual))) quote_block_reorg

unfoldable pub assert_quote_block_canonical :
    PreflightChain → CanarySwapIntent → Result ExecutorError (Unit {0})
unfolding assert_quote_block_hash
assert_quote_block_canonical chain intent = do
  b ← chain.quote_block
  hash ← block_hash b quote_block_hash_missing
  assert_quote_block_hash intent.quote_block_hash hash

unfoldable pub assert_simulation : PreflightChain → Result ExecutorError (Unit {0})
assert_simulation chain = do
  result ← chain.simulation
  answer ← or_throw result simulation_result_missing
  throw_if (not answer) simulation_false

module _ (platform : Platform) (coder : ApprovalCoder) (viem : Viem) (wallet : Text)
    (caps : CanaryExecutorCaps) where
  -- What `preflight` reads of the router and of the wallet.
  unfoldable pub check_router : PreflightChain → Result ExecutorError (Unit {0})
  check_router chain = do
    code ← chain.code
    router_factory ← chain.router_factory
    router_weth ← chain.router_weth
    throw_if (not (has_code code)) router_code_missing
    differ platform coder viem wallet router_factory tsunami_v3_factory router_factory_drift
    differ platform coder viem wallet router_weth weth9 router_weth_drift

  unfoldable pub preflight :
      PreflightChain → CanarySwapIntent → Result ExecutorError CanaryPreflight
  unfolding get_chain_clock assert_quote_block_canonical check_router
  preflight chain intent = do
    not_router platform coder viem wallet intent.router router_mismatch
    differ platform coder viem wallet intent.recipient wallet recipient_must_equal_wallet
    clock ← get_chain_clock chain
    assert_quote_fresh intent.quote_block_number clock.block_number caps.max_quote_age_blocks
    assert_deadline_against_chain_clock intent.deadline_epoch_seconds clock.timestamp_seconds
    assert_quote_block_canonical chain intent
    check_router chain
    balance ← chain.token_balance
    allowance ← chain.allowance
    output ← chain.output_balance
    throw_if (ltb balance intent.amount_in) (input_balance_insufficient balance intent.amount_in)
    throw_if (ltb allowance intent.amount_in)
        (input_allowance_insufficient allowance intent.amount_in)
    chain.call
    gas ← chain.gas
    fees ← chain.fees
    assert_fee_and_gas_caps gas fees.max_fee_per_gas fees.max_priority_fee_per_gas caps
    ok (record {
      wallet = wallet;
      checked_at_block = clock.block_number;
      input_balance = balance;
      input_allowance = allowance;
      output_balance_before = output;
      gas = gas;
      max_fee_per_gas = fees.max_fee_per_gas;
      max_priority_fee_per_gas = fees.max_priority_fee_per_gas;
    })

  -- `classifyCanaryApprovalAllowance(…) !== 'APPROVE_EXACT'`
  abbrev check_disposition : ℕ → AllowanceDisposition → Result ExecutorError (Unit {0})
  check_disposition current approve_exact = ok tt
  check_disposition current blocked_dirty_allowance = err (dirty_allowance current)

  unfoldable pub preflight_approval :
      PreflightChain → ExactApproval → Result ExecutorError CanaryApprovalPreflight
  unfolding get_chain_clock assert_simulation
  preflight_approval chain intent = do
    assert_approval_authority platform coder viem wallet intent
    clock ← get_chain_clock chain
    code ← chain.code
    balance ← chain.token_balance
    allowance ← chain.allowance
    throw_if (not (has_code code)) token_code_missing
    throw_if (ltb balance (approval_amount intent))
        (token_balance_insufficient balance (approval_amount intent))
    disposition ←
        under of_amount (classify_canary_approval_allowance allowance (approval_amount intent))
    check_disposition allowance disposition
    assert_simulation chain
    gas ← chain.gas
    fees ← chain.fees
    assert_fee_and_gas_caps gas fees.max_fee_per_gas fees.max_priority_fee_per_gas caps
    ok (record {
      action_id = approval_action_id intent;
      wallet = wallet;
      token = approval_token intent;
      spender = approval_spender intent;
      amount = approval_amount intent;
      checked_at_block = clock.block_number;
      token_balance = balance;
      allowance_before = 0;
      gas = gas;
      max_fee_per_gas = fees.max_fee_per_gas;
      max_priority_fee_per_gas = fees.max_priority_fee_per_gas;
    })

  unfoldable pub preflight_revoke :
      PreflightChain
      → CanaryEntryApprovalRevokeIntent
      → Result ExecutorError CanaryApprovalRevokePreflight
  unfolding get_chain_clock assert_simulation
  preflight_revoke chain intent = do
    assert_revoke_authority platform coder viem wallet intent
    clock ← get_chain_clock chain
    code ← chain.code
    allowance ← chain.allowance
    throw_if (not (has_code code)) token_code_missing
    throw_if (not (allowance == intent.expected_allowance))
        (allowance_not_exact allowance intent.expected_allowance)
    assert_simulation chain
    gas ← chain.gas
    fees ← chain.fees
    assert_fee_and_gas_caps gas fees.max_fee_per_gas fees.max_priority_fee_per_gas caps
    ok (record {
      action_id = intent.action_id;
      wallet = wallet;
      token = intent.token;
      spender = intent.spender;
      expected_allowance = intent.expected_allowance;
      amount = 0;
      checked_at_block = clock.block_number;
      allowance_before = allowance;
      gas = gas;
      max_fee_per_gas = fees.max_fee_per_gas;
      max_priority_fee_per_gas = fees.max_priority_fee_per_gas;
    })
