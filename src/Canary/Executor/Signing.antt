-- ===== src/Canary/Executor/Signing.antt =====
-- The signing and the broadcast of src/canary/viemCanaryExecutor.ts. The state is the three
-- collections of what was signed and not sent yet, with the list of what went to the network. What
-- the account signs and what the chain answers are parameters of a call.
use sentry_forensic_gate.Base.{
  ℕ, not, Bool, Option, none, some, List, ◌∷◌, Text, text_eq, to_lower_case, ltb, ◌==◌,
  if◌then◌else◌, get_key, set_key, delete_key, has_member, add_member, delete_member,
}
use sentry_forensic_gate.Base.Result.{Result, ok, err, ◌>>=◌, ◌>>◌, throw_if}
use sentry_forensic_gate.Canary.Types.{CanarySwapIntent}
use sentry_forensic_gate.Canary.SwapIntent.{Platform}
use sentry_forensic_gate.Canary.EntryApproval.{ApprovalCoder}
use sentry_forensic_gate.Canary.Revoke.{CanaryEntryApprovalRevokeIntent}
use sentry_forensic_gate.Canary.RoundTrip.Approval.{
  canary_e0_approval_r0, AllowanceDisposition, approve_exact, blocked_dirty_allowance,
  classify_canary_approval_allowance,
}
use sentry_forensic_gate.Canary.Executor.{
  CanaryExecutorCaps, CanaryApprovalPreflight, CanaryApprovalRevokePreflight, CanaryPreflight,
  CanaryChainClock, SignedCanaryTransaction, ExactApproval, for_exit, for_entry,
  sign_requires_reservation_capability, approval_action_id, approval_token, approval_amount,
  approval_calldata, Viem, ExecutorError, of_amount, token_balance_insufficient, dirty_allowance,
  allowance_not_exact, simulation_result_missing, simulation_false, swap_broadcast_router_mismatch,
  broadcast_signed_authority_unknown, broadcast_hash_mismatch, quote_block_reorg, under,
  assert_fee_and_gas_caps, assert_quote_fresh, assert_deadline_against_chain_clock,
  assert_signed_envelope, assert_signed_call, assert_approval_authority, assert_revoke_authority,
  assert_approval_preflight_binding, assert_revoke_preflight_binding, not_router, parse,
}

pub record CanaryExecutor : Type 0 where
  pub signed_approval_intents : List (Text × ExactApproval)
  pub signed_revoke_intents : List (Text × CanaryEntryApprovalRevokeIntent)
  pub signed_swap_hashes : List Text
  pub sent : List SignedCanaryTransaction

-- What the chain answers within one signing; an `err` is a throw. `clock` is what `getChainClock`
-- gives, and `quote_block_hash` the hash of the quote's block, which throws where there is none.
pub record SigningChain : Type 0 where
  pub clock : Result ExecutorError CanaryChainClock
  pub quote_block_hash : Result ExecutorError Text
  pub token_balance : Result ExecutorError ℕ
  pub allowance : Result ExecutorError ℕ
  -- what the simulation of the call returns: no result, or what `approve` answers
  pub simulation : Result ExecutorError (Option Bool)
  pub nonce : Result ExecutorError ℕ
  -- what the account signs for a nonce
  pub signature : ℕ → Result ExecutorError Text

abbrev check_simulation : Option Bool → Result ExecutorError (Unit {0})
check_simulation none = err simulation_result_missing
check_simulation (some b) = throw_if (not b) simulation_false

-- `classifyCanaryApprovalAllowance(…) !== 'APPROVE_EXACT'`
abbrev check_disposition : ℕ → AllowanceDisposition → Result ExecutorError (Unit {0})
check_disposition current approve_exact = ok tt
check_disposition current blocked_dirty_allowance = err (dirty_allowance current)

module _ (platform : Platform) (coder : ApprovalCoder) (viem : Viem) (wallet : Text)
    (caps : CanaryExecutorCaps) where
  -- The envelope that the executor makes of what was signed.
  abbrev pub signed_as : Text → ℕ → Text → ℕ → ℕ → ℕ → SignedCanaryTransaction
  signed_as action_id nonce serialized gas max_fee max_priority = record {
    action_id = action_id;
    nonce = nonce;
    transaction_hash = viem.keccak256 serialized;
    serialized_transaction = serialized;
    serialized_transaction_keccak256 = viem.keccak256 serialized;
    gas = gas;
    max_fee_per_gas = max_fee;
    max_priority_fee_per_gas = max_priority;
  }

  abbrev pub key_of : SignedCanaryTransaction → Text
  key_of tx = to_lower_case tx.transaction_hash

  -- What `sign` computes, before it records the hash.
  unfoldable pub make_swap :
      SigningChain
      → CanarySwapIntent
      → CanaryPreflight
      → Result ExecutorError SignedCanaryTransaction
  make_swap chain intent p = do
    assert_fee_and_gas_caps p.gas p.max_fee_per_gas p.max_priority_fee_per_gas caps
    clock ← chain.clock
    assert_quote_fresh intent.quote_block_number clock.block_number caps.max_quote_age_blocks
    assert_deadline_against_chain_clock intent.deadline_epoch_seconds clock.timestamp_seconds
    hash ← chain.quote_block_hash
    throw_if (not (text_eq (to_lower_case intent.quote_block_hash) (to_lower_case hash)))
        quote_block_reorg
    nonce ← chain.nonce
    serialized ← chain.signature nonce
    ok (
        signed_as intent.action_id nonce serialized p.gas p.max_fee_per_gas
          p.max_priority_fee_per_gas)

  unfoldable pub sign :
      SigningChain
      → CanarySwapIntent
      → CanaryPreflight
      → CanaryExecutor
      → Result ExecutorError SignedCanaryTransaction × CanaryExecutor
  unfolding make_swap
  sign chain intent p e = elim (make_swap chain intent p) [
    | err x ↦ (err x, e)
    | ok tx ↦ (ok tx, record e { signed_swap_hashes = add_member (key_of tx) e.signed_swap_hashes })
  ]

  -- `signApprovalBound` up to its signature.
  unfoldable pub check_approval :
      SigningChain → ExactApproval → CanaryApprovalPreflight → Result ExecutorError (Unit {0})
  check_approval chain intent p = do
    assert_approval_authority platform coder viem wallet intent
    assert_approval_preflight_binding platform coder viem wallet intent p
    assert_fee_and_gas_caps p.gas p.max_fee_per_gas p.max_priority_fee_per_gas caps
    clock ← chain.clock
    balance ← chain.token_balance
    current ← chain.allowance
    throw_if (ltb balance (approval_amount intent))
        (token_balance_insufficient balance (approval_amount intent))
    disposition ←
        under of_amount (classify_canary_approval_allowance current (approval_amount intent))
    check_disposition current disposition
    simulated ← chain.simulation
    check_simulation simulated

  -- The rest of it, but for the record of the intent.
  unfoldable pub make_approval :
      SigningChain
      → ExactApproval
      → CanaryApprovalPreflight
      → Result ExecutorError SignedCanaryTransaction
  make_approval chain intent p = do
    nonce ← chain.nonce
    serialized ← chain.signature nonce
    let tx =
        signed_as (approval_action_id intent) nonce serialized p.gas p.max_fee_per_gas
          p.max_priority_fee_per_gas
    assert_signed_call platform coder viem wallet (approval_action_id intent)
        (approval_token intent) (approval_calldata intent) tx
    ok tx

  -- `beforeSign` is what runs between the checks and the signature, with the state that it writes.
  unfoldable pub sign_approval_bound :
      {S : Type 0}
      → (S → Result ExecutorError (Unit {0}) × S)
      → SigningChain
      → ExactApproval
      → CanaryApprovalPreflight
      → S
      → CanaryExecutor
      → Result ExecutorError SignedCanaryTransaction × S × CanaryExecutor
  unfolding check_approval make_approval
  sign_approval_bound before_sign chain intent p s e = elim (check_approval chain intent p) [
    | err x ↦ (err x, s, e)
    | ok u ↦
        let (r, s') = before_sign s in
        elim (r >>= λ v. make_approval chain intent p) [
          | err x ↦ (err x, s', e)
          | ok tx ↦ (
            ok tx,
            s',
            record e {
              signed_approval_intents = set_key (key_of tx) intent e.signed_approval_intents;
            },
          )
        ]
  ]

  unfoldable pub make_revoke :
      SigningChain
      → CanaryEntryApprovalRevokeIntent
      → CanaryApprovalRevokePreflight
      → Result ExecutorError SignedCanaryTransaction
  make_revoke chain intent p = do
    assert_revoke_authority platform coder viem wallet intent
    assert_revoke_preflight_binding platform coder viem wallet intent p
    assert_fee_and_gas_caps p.gas p.max_fee_per_gas p.max_priority_fee_per_gas caps
    clock ← chain.clock
    current ← chain.allowance
    throw_if (not (current == intent.expected_allowance))
        (allowance_not_exact current intent.expected_allowance)
    simulated ← chain.simulation
    check_simulation simulated
    nonce ← chain.nonce
    serialized ← chain.signature nonce
    let tx =
        signed_as intent.action_id nonce serialized p.gas p.max_fee_per_gas
          p.max_priority_fee_per_gas
    assert_signed_call platform coder viem wallet intent.action_id intent.token intent.calldata tx
    ok tx

  unfoldable pub sign_revoke :
      SigningChain
      → CanaryEntryApprovalRevokeIntent
      → CanaryApprovalRevokePreflight
      → CanaryExecutor
      → Result ExecutorError SignedCanaryTransaction × CanaryExecutor
  unfolding make_revoke
  sign_revoke chain intent p e = elim (make_revoke chain intent p) [
    | err x ↦ (err x, e)
    | ok tx ↦ (
      ok tx,
      record e { signed_revoke_intents = set_key (key_of tx) intent e.signed_revoke_intents },
    )
  ]

  -- A swap may be sent to the router alone.
  unfoldable pub check_swap_target : SignedCanaryTransaction → Result ExecutorError (Unit {0})
  check_swap_target tx = do
    parsed ← parse platform coder viem wallet tx.serialized_transaction
    elim parsed.to [
      | none ↦ err swap_broadcast_router_mismatch
      | some to ↦ not_router platform coder viem wallet to swap_broadcast_router_mismatch
    ]

  -- The authority that lets a transaction be sent is checked, and deleted before it is sent.
  unfoldable pub take_authority :
      SignedCanaryTransaction → CanaryExecutor → Result ExecutorError CanaryExecutor
  unfolding check_swap_target
  take_authority tx e = elim (get_key (key_of tx) e.signed_approval_intents) [
    | some intent ↦
        assert_signed_call platform coder viem wallet (approval_action_id intent)
          (approval_token intent) (approval_calldata intent) tx
        >> ok (record e {
          signed_approval_intents = delete_key (key_of tx) e.signed_approval_intents;
        })
    | none ↦ elim (get_key (key_of tx) e.signed_revoke_intents) [
      | some intent ↦
          assert_signed_call platform coder viem wallet intent.action_id intent.token
            intent.calldata tx
          >> ok
              (record e { signed_revoke_intents = delete_key (key_of tx) e.signed_revoke_intents })
      | none ↦
          if has_member (key_of tx) e.signed_swap_hashes
          then check_swap_target tx
            >> ok (record e { signed_swap_hashes = delete_member (key_of tx) e.signed_swap_hashes })
          else err broadcast_signed_authority_unknown
    ]
  ]

  unfoldable pub check_broadcast :
      SignedCanaryTransaction → CanaryExecutor → Result ExecutorError CanaryExecutor
  unfolding take_authority
  check_broadcast tx e =
      assert_signed_envelope platform coder viem wallet (some caps) tx >> take_authority tx e

  -- `network` is what `sendRawTransaction` answers to the transaction.
  unfoldable pub broadcast_exact :
      (Text → Result ExecutorError Text)
      → SignedCanaryTransaction
      → CanaryExecutor
      → Result ExecutorError Text × CanaryExecutor
  unfolding check_broadcast
  broadcast_exact network tx e = elim (check_broadcast tx e) [
    | err x ↦ (err x, e)
    | ok taken ↦
        let after = record taken { sent = tx ∷ taken.sent } in
        elim (network tx.serialized_transaction) [
          | err x ↦ (err x, after)
          | ok hash ↦
              if text_eq (to_lower_case hash) (to_lower_case tx.transaction_hash)
              then (ok hash, after)
              else (err broadcast_hash_mismatch, after)
        ]
  ]

  -- `signApproval`, which signs nothing before the signature.
  unfoldable pub sign_approval :
      SigningChain
      → ExactApproval
      → CanaryApprovalPreflight
      → CanaryExecutor
      → Result ExecutorError SignedCanaryTransaction × CanaryExecutor
  unfolding sign_approval_bound
  sign_approval chain (for_entry i) p e = (err sign_requires_reservation_capability, e)
  sign_approval chain (for_exit i) p e =
      if not (text_eq i.version canary_e0_approval_r0)
      then (err sign_requires_reservation_capability, e)
      else let (r, s, e') =
          sign_approval_bound {S = Unit {0}} (λ s. (ok tt, s)) chain (for_exit i) p tt e in
        (r, e')
