-- ===== src/Canary/EntryApprovalStore/Tests.antt =====
-- src/canary/entryApprovalStore.ts at the approval of a buy of 1,000 units, over a `keccak256` that
-- changes nothing.
use sentry_forensic_gate.Base.{
  ◌≤◌, ◌≡◌, refl, none, some, [], ◌∷◌, Text, codes, text_eq, to_lower_case, List,
}
use sentry_forensic_gate.Base.Result.{ok}
use sentry_forensic_gate.Evidence.Canonical.{text_lt, sha256_hex, normalize}
use sentry_forensic_gate.Canary.Types.{reserved, included}
use sentry_forensic_gate.Canary.SwapIntent.{ink_swap_router_02, derive_canary_action_id}
use sentry_forensic_gate.Canary.Store.{SignedTransaction}
use sentry_forensic_gate.Canary.EntryApproval.{weth9, erc20_max_uint256, assert_matches_parent_buy}
use sentry_forensic_gate.Canary.EntryApproval.Tests.{platform, coder, buy, approval}
use sentry_forensic_gate.Canary.Actions.{check_signed}
use sentry_forensic_gate.Canary.EntryApprovalStore.Record.{EntryRecord, check_insertion, buy_digest}
use sentry_forensic_gate.Canary.EntryApprovalStore.{
  EntryStore, mark_cleanup_terminal, get_committed,
}
use sentry_forensic_gate.Canary.EntryApprovalStore.Once.{
  EntryCall, inserts, consumes, signs, reopens, consumptions, signatures, empty_store,
  signatures-le-consumptions,
}
use sentry_forensic_gate.Canary.EntryApprovalStore.Life.{
  approve_entry, approve_entry-Succeeds, approved,
}
use sentry_forensic_gate.Canary.EntryApprovalStore.Cleanup.{mark_cleanup_terminal-IsIdempotent}

abbrev reservation : EntryRecord
reservation = record {
  action_id = codes "amount";
  state = reserved;
  nonce = none;
  transaction_hash = none;
  serialized_transaction = none;
  last_error = none;
  created_at_ms = 1;
  updated_at_ms = 1;
  payload = record {
    parent_buy_action_id = codes "baselineId";
    launch_id = 1 ∷ [];
    baseline_id = 2 ∷ [];
    intent = approval;
    observed_allowance_before = 0;
    observed_allowance_after = none;
  };
}

abbrev tx : SignedTransaction
tx = record { nonce = 4; transaction_hash = b'A' ∷ []; serialized_transaction = b'a' ∷ [] }

abbrev same : Text → Text
same s = s

approve_entry-Succeeds_example :
    ((approve_entry platform coder same (9 ∷ []) reservation buy tx 5 empty_store).0 ≡ ok tt)
    × (get_committed (approve_entry platform coder same (9 ∷ []) reservation buy tx 5 empty_store).1
        ≡ some (approved platform coder same reservation tx 5))
unfolding check_insertion buy_digest assert_matches_parent_buy text_eq to_lower_case text_lt weth9
    ink_swap_router_02 derive_canary_action_id erc20_max_uint256 sha256_hex normalize check_signed
approve_entry-Succeeds_example =
    approve_entry-Succeeds platform coder same (9 ∷ []) reservation buy tx 5 refl refl refl
      (refl, refl, refl)

-- The reservation, its capability, and a restart in between: the second call of each is refused.
abbrev calls : List EntryCall
calls =
    inserts (9 ∷ []) reservation buy
    ∷ consumes (codes "amount") (9 ∷ [])
    ∷ consumes (codes "amount") (9 ∷ [])
    ∷ signs (codes "amount") tx 5
    ∷ signs (codes "amount") tx 5
    ∷ reopens
    ∷ inserts (7 ∷ []) reservation buy
    ∷ consumes (codes "amount") (7 ∷ [])
    ∷ []

signatures-le-consumptions_example :
    (signatures platform coder same calls empty_store
      ≤ consumptions platform coder same calls empty_store)
    × (consumptions platform coder same calls empty_store ≤ 1)
signatures-le-consumptions_example = signatures-le-consumptions platform coder same calls

abbrev pub one_included : EntryStore
one_included = record {
  rows =
      record {
        action_id = codes "amount";
        state = included;
        nonce = some 4;
        transaction_hash = some (b'a' ∷ []);
        serialized_transaction = some (b'a' ∷ []);
        last_error = none;
        created_at_ms = 1;
        updated_at_ms = 5;
        payload = record {
          columns = record {
            parent_buy_action_id = codes "baselineId";
            launch_id = 1 ∷ [];
            baseline_id = 2 ∷ [];
            intent = approval;
            observed_allowance_before = 0;
            observed_allowance_after = some 1_000;
          };
          parent_buy_digest = some (codes "actionId");
          parent_buy_intent = some buy;
        };
      }
      ∷ [];
  signing_capabilities = [];
  consumed_signing_actions = [];
}

mark_cleanup_terminal-IsIdempotent_example :
    mark_cleanup_terminal
      (codes "amount")
      (codes "revoked")
      8
      (mark_cleanup_terminal (codes "amount") (codes "revoked") 7 one_included).1
    ≡ (ok tt, (mark_cleanup_terminal (codes "amount") (codes "revoked") 7 one_included).1)
unfolding mark_cleanup_terminal text_eq
mark_cleanup_terminal-IsIdempotent_example =
    mark_cleanup_terminal-IsIdempotent (codes "amount") (codes "revoked") 7 8 one_included refl
