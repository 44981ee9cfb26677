-- ===== src/Canary/Revoke/Tests.antt =====
-- src/canary/entryApprovalRevoke.ts at the approval of a buy of 1,000 units, over a digest that is
-- always the same.
use sentry_forensic_gate.Base.{◌≡◌, ◌≢◌, refl, none, [], ◌∷◌, codes, text_eq}
use sentry_forensic_gate.Base.Result.{ok}
use sentry_forensic_gate.Canary.Types.{reserved}
use sentry_forensic_gate.Canary.SwapIntent.{Platform, ink_swap_router_02}
use sentry_forensic_gate.Canary.EntryApproval.{erc20_max_uint256, assert_canary_approval_calldata}
use sentry_forensic_gate.Evidence.Canonical.{sha256_hex}
use sentry_forensic_gate.Canary.EntryApproval.Tests.{platform, coder, approval}
use sentry_forensic_gate.Canary.Revoke.{
  CanaryEntryApprovalRevokeIntent, canary_e0_entry_approval_revoke_r0, build_revoke_intent,
  assert_covers_parent, derive_revoke_action_id, assert_expected_allowance, assert_revoke_calldata,
}
use sentry_forensic_gate.Canary.Actions.{insert_or_ignore}
use sentry_forensic_gate.Canary.Revoke.Covers.{build_revoke_intent-Covers}
use sentry_forensic_gate.Canary.Revoke.Store.{
  RevokeRecord, insert_reserved, inserted, check_insertion,
}

abbrev revoking : Platform
revoking = record platform { digest = λ j. 5 ∷ [] }

abbrev revoke : CanaryEntryApprovalRevokeIntent
revoke = record {
  version = canary_e0_entry_approval_revoke_r0;
  action_id = 5 ∷ [];
  parent_entry_approval_action_id = codes "amount";
  parent_buy_action_id = codes "baselineId";
  launch_id = 1 ∷ [];
  baseline_id = 2 ∷ [];
  owner = 8 ∷ [];
  token = codes "0x4200000000000000000000000000000000000006";
  spender = codes "0x177778F19E89dD1012BdBe603F144088A95C4B53";
  expected_allowance = 1_000;
  amount = 0;
  calldata = 0 ∷ codes "0x177778F19E89dD1012BdBe603F144088A95C4B53";
}

build_revoke_intent-Covers_example :
    (assert_covers_parent revoking coder revoke approval ≡ ok tt)
    × (revoke.action_id ≢ approval.action_id)
    × (revoke.action_id ≢ approval.parent_buy_action_id)
unfolding build_revoke_intent text_eq ink_swap_router_02 erc20_max_uint256 sha256_hex
    assert_canary_approval_calldata
build_revoke_intent-Covers_example =
    build_revoke_intent-Covers revoking coder approval revoke (λ a x e. refl) refl

abbrev reservation : RevokeRecord
reservation = record {
  action_id = 5 ∷ [];
  state = reserved;
  nonce = none;
  transaction_hash = none;
  serialized_transaction = none;
  last_error = none;
  created_at_ms = 1;
  updated_at_ms = 1;
  payload = record {
    parent_entry_approval_action_id = codes "amount";
    parent_buy_action_id = codes "baselineId";
    launch_id = 1 ∷ [];
    baseline_id = 2 ∷ [];
    intent = revoke;
    observed_allowance_before = 1_000;
    observed_allowance_after = none;
  };
}

reserves : insert_reserved revoking coder reservation [] ≡ (ok inserted, reservation ∷ [])
unfolding insert_reserved check_insertion text_eq ink_swap_router_02 erc20_max_uint256
    derive_revoke_action_id assert_expected_allowance sha256_hex assert_revoke_calldata
    insert_or_ignore
reserves = refl
