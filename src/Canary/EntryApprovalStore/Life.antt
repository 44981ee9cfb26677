-- ===== src/Canary/EntryApprovalStore/Life.antt =====
-- The calls of src/canary/entryApprovalRuntime.ts on the store, for an approval that goes well.
use sentry_forensic_gate.Base.{
  ℕ, ◌≡◌, refl, true, false, some, [], ◌∷◌, Text, is_empty, text_eq_iff, arith, to_lower_case,
  to_lower_case_idem, is_empty-to_lower_case, delete_member, set_key, get_key, delete_key,
  add_member, has_member,
}
use sentry_forensic_gate.Base.Result.{ok}
use sentry_forensic_gate.Base.Exec.{◌>>=◌, ◌>>◌}
use sentry_forensic_gate.Canary.Types.{CanarySwapIntent, included, reserved, state_eq}
use sentry_forensic_gate.Canary.SwapIntent.{Platform}
use sentry_forensic_gate.Canary.Store.{SignedTransaction}
use sentry_forensic_gate.Canary.EntryApproval.{ApprovalCoder}
use sentry_forensic_gate.Canary.Actions.{
  check_signed, matches_keccak, check_provenance, insert_or_ignore, collides, transition,
}
use sentry_forensic_gate.Canary.Actions
use sentry_forensic_gate.Canary.EntryApprovalStore.Record.{
  EntryRecord, EntryRow, to_row, check_insertion, accept_exact, buy_digest,
}
use sentry_forensic_gate.Canary.EntryApprovalStore.{
  EntryStore, EntryAction, inserted, insert_reserved, consume_signing_authority, mark_signed,
  mark_submitted, mark_included, get_committed, assert_signing_capability,
  get_authoritative_parent_buy_intent, check_authority,
}
use sentry_forensic_gate.Canary.EntryApprovalStore.Once.{empty_store}

module _ (platform : Platform) (coder : ApprovalCoder) (keccak256 : Text → Text) where
  -- A reservation, its signature, its broadcast and its inclusion with the amount asked for.
  unfoldable pub approve_entry :
      Text → EntryRecord → CanarySwapIntent → SignedTransaction → ℕ → EntryAction (Unit {0})
  approve_entry fresh r buy tx now = do
    result ← insert_reserved platform coder keccak256 fresh r buy
    parent ← consume_signing_authority platform coder keccak256 r.action_id fresh
    mark_signed platform coder keccak256 r.action_id tx now
    mark_submitted r.action_id now
    mark_included platform coder keccak256 r.action_id r.payload.intent.amount now

  -- The record of an approval that went well.
  abbrev pub approved : EntryRecord → SignedTransaction → ℕ → EntryRecord
  approved r tx now =
      let p = r.payload in
      record r {
        state = included;
        nonce = some tx.nonce;
        transaction_hash = some (to_lower_case tx.transaction_hash);
        serialized_transaction = some tx.serialized_transaction;
        updated_at_ms = now;
        payload = record p { observed_allowance_after = some p.intent.amount };
      }

  -- The store once the approval is reserved, and once its authority is consumed.
  abbrev armed : Text → EntryRecord → CanarySwapIntent → EntryStore
  armed fresh r buy = record {
    rows = to_row (buy_digest platform.digest buy) buy r ∷ [];
    signing_capabilities = (r.action_id, fresh) ∷ [];
    consumed_signing_actions = [];
  }

  abbrev disarmed : EntryRecord → CanarySwapIntent → EntryStore
  disarmed r buy = record {
    rows = to_row (buy_digest platform.digest buy) buy r ∷ [];
    signing_capabilities = [];
    consumed_signing_actions = r.action_id ∷ [];
  }

  insert_arms :
      (fresh : Text) (r : EntryRecord) (buy : CanarySwapIntent)
      → check_insertion platform coder r buy ≡ ok tt
      → insert_reserved platform coder keccak256 fresh r buy empty_store
        ≡ (ok (inserted fresh), armed fresh r buy)
  unfolding insert_reserved insert_or_ignore set_key
  insert_arms fresh r buy q = rw (q, insert_reserved) refl

  reserved_record :
      (r : EntryRecord) (buy : CanarySwapIntent)
      → check_insertion platform coder r buy ≡ ok tt
      → state_eq r.state reserved ≡ true
  unfolding check_insertion
  reserved_record r buy q = ground (arith, q)

  consume_disarms :
      (fresh : Text) (r : EntryRecord) (buy : CanarySwapIntent)
      → state_eq r.state reserved ≡ true
      → is_empty fresh ≡ false
      → is_empty (buy_digest platform.digest buy) ≡ false
      → consume_signing_authority platform coder keccak256 r.action_id fresh (armed fresh r buy)
        ≡ (ok buy, disarmed r buy)
  unfolding consume_signing_authority assert_signing_capability check_authority
      get_authoritative_parent_buy_intent get_key delete_key add_member has_member
  consume_disarms fresh r buy s f d = ground (
    arith,
    s,
    f,
    d,
    text_eq_iff fresh fresh,
    text_eq_iff r.action_id r.action_id,
    text_eq_iff (buy_digest platform.digest buy) (buy_digest platform.digest buy),
  )

  -- A signed transaction as the store wants it.
  abbrev pub IsSignable : SignedTransaction → Type 0
  IsSignable tx =
      (check_signed keccak256 tx ≡ ok tt)
      × (is_empty tx.transaction_hash ≡ false)
      × (is_empty tx.serialized_transaction ≡ false)

  provenance_holds :
      (id : Text) (tx : SignedTransaction)
      → IsSignable tx
      → check_provenance keccak256 id
          (some (to_lower_case tx.transaction_hash))
          (some tx.serialized_transaction)
        ≡ ok tt
  unfolding check_provenance check_signed
  provenance_holds id tx (c, h, e) = ground (
    arith,
    c,
    h,
    e,
    is_empty-to_lower_case tx.transaction_hash,
    to_lower_case_idem tx.transaction_hash,
    text_eq_iff (to_lower_case (keccak256 tx.serialized_transaction))
        (to_lower_case tx.transaction_hash),
    text_eq_iff (to_lower_case (keccak256 tx.serialized_transaction))
        (to_lower_case (to_lower_case tx.transaction_hash)),
  )

  sign_disarmed :
      (r : EntryRecord) (buy : CanarySwapIntent) (tx : SignedTransaction) (now : ℕ)
      → state_eq r.state reserved ≡ true
      → IsSignable tx
      → mark_signed platform coder keccak256 r.action_id tx now (disarmed r buy) ≡ (
        ok tt,
        record {
          rows = Actions.patch_signed tx now (to_row (buy_digest platform.digest buy) buy r) ∷ [];
          signing_capabilities = [];
          consumed_signing_actions = [];
        },
      )
  unfolding mark_signed Actions.mark_signed transition has_member delete_member
  sign_disarmed r buy tx now s (c, h, e) = ground (arith, s, c, text_eq_iff r.action_id r.action_id)

  submit_signed :
      (x : EntryRow) (tx : SignedTransaction) (now : ℕ)
      → mark_submitted x.action_id now (record {
        rows = Actions.patch_signed tx now x ∷ [];
        signing_capabilities = [];
        consumed_signing_actions = [];
      })
        ≡ (
          ok tt,
          record {
            rows = Actions.submit now (Actions.patch_signed tx now x) ∷ [];
            signing_capabilities = [];
            consumed_signing_actions = [];
          },
        )
  unfolding mark_submitted Actions.mark_submitted transition
  submit_signed x tx now = ground (arith, text_eq_iff x.action_id x.action_id)

  include_submitted :
      (r : EntryRecord) (buy : CanarySwapIntent) (tx : SignedTransaction) (now : ℕ)
      → IsSignable tx
      → (s : EntryStore)
      → s.rows
        ≡ Actions.submit now
            (Actions.patch_signed tx now (to_row (buy_digest platform.digest buy) buy r))
          ∷ []
      → ((mark_included platform coder keccak256 r.action_id r.payload.intent.amount now s).0
          ≡ ok tt)
        × (get_committed
              (mark_included platform coder keccak256 r.action_id r.payload.intent.amount now s).1
            ≡ some (approved r tx now))
  unfolding mark_included Actions.mark_included accept_exact get_committed
  include_submitted r buy tx now w s e =
      ground (arith, e, text_eq_iff r.action_id r.action_id, provenance_holds r.action_id tx w)

  -- An approval runs to its inclusion: if the record passes the checks of its insertion, the
  -- capability and the digest of the parent buy are not empty, and the transaction is one that the
  -- store takes, then on an empty store all five calls succeed, and the committed record is the
  -- INCLUDED one, with its transaction and with the allowance that was asked for.
  pub approve_entry-Succeeds :
      (fresh : Text) (r : EntryRecord) (buy : CanarySwapIntent) (tx : SignedTransaction) (now : ℕ)
      → check_insertion platform coder r buy ≡ ok tt
      → is_empty fresh ≡ false
      → is_empty (buy_digest platform.digest buy) ≡ false
      → IsSignable tx
      → ((approve_entry fresh r buy tx now empty_store).0 ≡ ok tt)
        × (get_committed (approve_entry fresh r buy tx now empty_store).1
            ≡ some (approved r tx now))
  unfolding approve_entry
  approve_entry-Succeeds fresh r buy tx now q f d w =
      let x = to_row (buy_digest platform.digest buy) buy r in
      let s = reserved_record r buy q in
      rw
        (
          insert_arms fresh r buy q,
          consume_disarms fresh r buy s f d,
          sign_disarmed r buy tx now s w,
          submit_signed x tx now,
        )
        (include_submitted r buy tx now w _ refl)
