-- ===== src/Canary/EntryApprovalStore/Once.antt =====
-- How often the store of src/canary/entryApprovalStore.ts lets a transaction be signed.
use sentry_forensic_gate.Base.{
  ℕ, ◌+◌, ◌≤◌, Bool, true, false, ◌&&◌, List, [], ◌∷◌, Text, arith, if◌then◌else◌, length, ◌==◌,
  length-set_key, length-delete_key, length-add_member, length-delete_member, length-update_where,
  inl, inr,
}
use sentry_forensic_gate.Base.Result.{Result, is_ok, Result-cases}
use sentry_forensic_gate.Canary.Types.{CanarySwapIntent, included, state_eq}
use sentry_forensic_gate.Canary.SwapIntent.{Platform}
use sentry_forensic_gate.Canary.Store.{SignedTransaction}
use sentry_forensic_gate.Canary.EntryApproval.{ApprovalCoder}
use sentry_forensic_gate.Canary.Actions.{insert_or_ignore, collides, has_id}
use sentry_forensic_gate.Canary.Actions
use sentry_forensic_gate.Canary.Actions.Lengths.{
  length-mark_submitted, length-mark_safe_halt, length-mark_signed, length-mark_included,
  length-mark_reverted,
}
use sentry_forensic_gate.Canary.EntryApprovalStore.Record.{
  accept_exact, EntryStoreError, EntryRecord, EntryRow, check_insertion,
}
use sentry_forensic_gate.Canary.EntryApprovalStore.{
  EntryStore, insert_reserved, consume_signing_authority, mark_signed, mark_submitted,
  mark_safe_halt, mark_included, mark_reverted, mark_cleanup_terminal, reopen, clean_up,
  assert_signing_capability, get_authoritative_parent_buy_intent,
}

-- The calls that write, in any order, with what is random or read from a clock.
pub data EntryCall : Type 0 where
  inserts : Text → EntryRecord → CanarySwapIntent → EntryCall
  consumes : Text → Text → EntryCall
  signs : Text → SignedTransaction → ℕ → EntryCall
  submits : Text → ℕ → EntryCall
  halts cleans : Text → Text → ℕ → EntryCall
  includes : Text → ℕ → ℕ → EntryCall
  reverts : Text → ℕ → EntryCall
  reopens : EntryCall

abbrev pub empty_store : EntryStore
empty_store = record { rows = []; signing_capabilities = []; consumed_signing_actions = [] }

abbrev one_if : Bool → ℕ
one_if true = 1
one_if false = 0

abbrev succeeds : {A : Type 0} → Result EntryStoreError A × EntryStore → ℕ
succeeds (r, s) = one_if (is_ok r)

module _ (platform : Platform) (coder : ApprovalCoder) (keccak256 : Text → Text) where
  unfoldable pub after : EntryCall → EntryStore → EntryStore
  after (inserts fresh r buy) s = (insert_reserved platform coder keccak256 fresh r buy s).1
  after (consumes id capability) s =
      (consume_signing_authority platform coder keccak256 id capability s).1
  after (signs id tx now) s = (mark_signed platform coder keccak256 id tx now s).1
  after (submits id now) s = (mark_submitted id now s).1
  after (halts id error now) s = (mark_safe_halt id error now s).1
  after (cleans id reason now) s = (mark_cleanup_terminal id reason now s).1
  after (includes id observed now) s = (mark_included platform coder keccak256 id observed now s).1
  after (reverts id now) s = (mark_reverted platform coder keccak256 id now s).1
  after reopens s = reopen s

  -- 1 for a call that consumes an authority, and 1 for a call that records a signature.
  unfoldable pub consumed_by : EntryCall → EntryStore → ℕ
  consumed_by (consumes id capability) s =
      succeeds (consume_signing_authority platform coder keccak256 id capability s)
  consumed_by _ s = 0

  unfoldable pub signed_by : EntryCall → EntryStore → ℕ
  signed_by (signs id tx now) s = succeeds (mark_signed platform coder keccak256 id tx now s)
  signed_by _ s = 0

  unfoldable pub consumptions : List EntryCall → EntryStore → ℕ
  unfolding consumed_by after
  consumptions [] s = 0
  consumptions (c ∷ cs) s = consumed_by c s + consumptions cs (after c s)

  unfoldable pub signatures : List EntryCall → EntryStore → ℕ
  unfolding signed_by after
  signatures [] s = 0
  signatures (c ∷ cs) s = signed_by c s + signatures cs (after c s)

  -- Room for a row, and the capabilities that are out.
  abbrev room : EntryStore → ℕ
  room s = (if length s.rows == 0 then 1 else 0) + length s.signing_capabilities

  -- A call pays for what it consumes with room, and for what it signs with what was consumed.
  abbrev Pays : EntryCall → EntryStore → Type 0
  Pays c s =
      (consumed_by c s + room (after c s) ≤ room s)
      × (signed_by c s + length (after c s).consumed_signing_actions
          ≤ consumed_by c s + length s.consumed_signing_actions)

  insert-Pays :
      (fresh : Text) (r : EntryRecord) (buy : CanarySwapIntent) (s : EntryStore)
      → Pays (inserts fresh r buy) s
  unfolding after consumed_by signed_by insert_reserved insert_or_ignore collides
  insert-Pays fresh r buy s = elim (Result-cases (check_insertion platform coder r buy)) [
    | inr (e, q) ↦ ground (arith, q)
    | inl (u, q) ↦ elim s.rows as (λ rows. Pays (inserts fresh r buy) (record s { rows = rows })) [
      | [] ↦ ground (arith, q, length-set_key r.action_id fresh s.signing_capabilities)
      | x ∷ rows ↦ ground (arith, q)
    ]
  ]

  consume-Pays : (id capability : Text) (s : EntryStore) → Pays (consumes id capability) s
  unfolding after consumed_by signed_by consume_signing_authority assert_signing_capability
      get_authoritative_parent_buy_intent
  consume-Pays id capability s = ground (
    arith,
    length-delete_key id s.signing_capabilities,
    length-add_member id s.consumed_signing_actions,
  )

  sign-Pays :
      (id : Text) (tx : SignedTransaction) (now : ℕ) (s : EntryStore) → Pays (signs id tx now) s
  unfolding after consumed_by signed_by mark_signed
  sign-Pays id tx now s = ground (
    arith,
    length-mark_signed keccak256 id tx now s.rows,
    length-delete_member id s.consumed_signing_actions,
    Result-cases (Actions.mark_signed keccak256 id tx now s.rows).0,
  )

  submit-Pays : (id : Text) (now : ℕ) (s : EntryStore) → Pays (submits id now) s
  unfolding after consumed_by signed_by mark_submitted
  submit-Pays id now s = ground (arith, length-mark_submitted id now s.rows)

  halt-Pays : (id error : Text) (now : ℕ) (s : EntryStore) → Pays (halts id error now) s
  unfolding after consumed_by signed_by mark_safe_halt
  halt-Pays id error now s = ground (
    arith,
    length-mark_safe_halt id error now s.rows,
    length-delete_key id s.signing_capabilities,
    length-delete_member id s.consumed_signing_actions,
    Result-cases (Actions.mark_safe_halt id error now s.rows).0,
  )

  clean-Pays : (id reason : Text) (now : ℕ) (s : EntryStore) → Pays (cleans id reason now) s
  unfolding after consumed_by signed_by mark_cleanup_terminal
  clean-Pays id reason now s = ground (
    arith,
    length-update_where (λ (r : EntryRow). has_id id r && state_eq r.state included)
        (clean_up reason now) s.rows,
  )

  include-Pays : (id : Text) (observed now : ℕ) (s : EntryStore) → Pays (includes id observed now) s
  unfolding after consumed_by signed_by mark_included
  include-Pays id observed now s =
      ground (arith, length-mark_included keccak256 accept_exact id observed now s.rows)

  revert-Pays : (id : Text) (now : ℕ) (s : EntryStore) → Pays (reverts id now) s
  unfolding after consumed_by signed_by mark_reverted
  revert-Pays id now s = ground (arith, length-mark_reverted keccak256 id now s.rows)

  reopen-Pays : (s : EntryStore) → Pays reopens s
  unfolding after consumed_by signed_by
  reopen-Pays s = omega arith

  call-Pays : (c : EntryCall) (s : EntryStore) → Pays c s
  call-Pays (inserts fresh r buy) s = insert-Pays fresh r buy s
  call-Pays (consumes id capability) s = consume-Pays id capability s
  call-Pays (signs id tx now) s = sign-Pays id tx now s
  call-Pays (submits id now) s = submit-Pays id now s
  call-Pays (halts id error now) s = halt-Pays id error now s
  call-Pays (cleans id reason now) s = clean-Pays id reason now s
  call-Pays (includes id observed now) s = include-Pays id observed now s
  call-Pays (reverts id now) s = revert-Pays id now s
  call-Pays reopens s = reopen-Pays s

  consumptions-le-room : (cs : List EntryCall) (s : EntryStore) → consumptions cs s ≤ room s
  unfolding consumptions
  consumptions-le-room [] s = omega arith
  consumptions-le-room (c ∷ cs) s =
      omega (arith, call-Pays c s, consumptions-le-room cs (after c s))

  signatures-le :
      (cs : List EntryCall) (s : EntryStore)
      → signatures cs s ≤ consumptions cs s + length s.consumed_signing_actions
  unfolding consumptions signatures
  signatures-le [] s = omega arith
  signatures-le (c ∷ cs) s = omega (arith, call-Pays c s, signatures-le cs (after c s))

  -- Whatever calls are made on an empty store, reopenings in between included, no more signed
  -- transactions are recorded than signing authorities are consumed, and one authority is
  -- consumed at most.
  pub signatures-le-consumptions :
      (cs : List EntryCall)
      → (signatures cs empty_store ≤ consumptions cs empty_store)
        × (consumptions cs empty_store ≤ 1)
  signatures-le-consumptions cs =
      omega (arith, signatures-le cs empty_store, consumptions-le-room cs empty_store)
