-- ===== src/Canary/Executor/Calls.antt =====
-- The calls of the executor of src/canary/viemCanaryExecutor.ts, in any order.
use sentry_forensic_gate.Base.{
  ◌≡◌, inl, inr, arith, subst, some, some_injective, List, [], ◌∷◌, Text, text_eq, to_lower_case,
  All, get_key, set_key, get_key-set_key, Bool-cases,
}
use sentry_forensic_gate.Base.Result.{Result, ok, Result-cases}
use sentry_forensic_gate.Canary.Types.{CanarySwapIntent}
use sentry_forensic_gate.Canary.SwapIntent.{Platform}
use sentry_forensic_gate.Canary.EntryApproval.{ApprovalCoder, CanaryEntryApprovalIntent}
use sentry_forensic_gate.Canary.EntryApprovalStore.{EntryStore}
use sentry_forensic_gate.Canary.Executor.Reserved.{
  sign_entry_approval_reserved, check_reserved, consume_and_match,
}
use sentry_forensic_gate.Canary.RoundTrip.Approval.{canary_e0_approval_r0}
use sentry_forensic_gate.Canary.Revoke.{CanaryEntryApprovalRevokeIntent}
use sentry_forensic_gate.Canary.Executor.{
  CanaryExecutorCaps, CanaryApprovalPreflight, CanaryApprovalRevokePreflight, CanaryPreflight,
  SignedCanaryTransaction, ExactApproval, for_exit, for_entry, Viem, ExecutorError,
  assert_signed_envelope, assert_approval_authority, assert_revoke_authority,
}
use sentry_forensic_gate.Canary.Executor.Signing.{
  CanaryExecutor, SigningChain, sign_approval, sign, sign_approval_bound, sign_revoke,
  broadcast_exact, make_swap, check_approval, make_approval, make_revoke, take_authority,
  check_broadcast,
}
use sentry_forensic_gate.Canary.Executor.Safe.{IsSafe, IsGuarded}
use sentry_forensic_gate.Canary.Executor.Passed.{envelope_lem, take_lem}

-- The calls of the executor, each with what the chain, the account or the store gives it.
pub data ExecutorCall : Type 0 where
  signs : SigningChain → CanarySwapIntent → CanaryPreflight → ExecutorCall
  approves : SigningChain → ExactApproval → CanaryApprovalPreflight → ExecutorCall
  approves_entry :
      SigningChain
      → CanaryEntryApprovalIntent
      → CanaryApprovalPreflight
      → Text
      → EntryStore
      → ExecutorCall
  signs_revoke :
      SigningChain → CanaryEntryApprovalRevokeIntent → CanaryApprovalRevokePreflight → ExecutorCall
  broadcasts : (Text → Result ExecutorError Text) → SignedCanaryTransaction → ExecutorCall

abbrev pub fresh_executor : CanaryExecutor
fresh_executor = record {
  signed_approval_intents = [];
  signed_revoke_intents = [];
  signed_swap_hashes = [];
  sent = [];
}

-- A property of what a map holds, after a `set`.
guarded_key :
    {A : Type 0} (j k : Text) (a b : A) (m : List (Text × A)) (P : A → Type 0)
    → P a
    → (get_key j m ≡ some b → P b)
    → get_key j (set_key k a m) ≡ some b
    → P b
guarded_key j k a b m P pa old h = elim (Bool-cases (text_eq k j)) [
  | inl e ↦ subst P (some_injective a b (ground (arith, e, h, get_key-set_key k j a m))) pa
  | inr e ↦ old (ground (arith, e, h, get_key-set_key k j a m))
]

module _ (platform : Platform) (coder : ApprovalCoder) (viem : Viem) (wallet : Text)
    (caps : CanaryExecutorCaps) where
  abbrev Guarded : CanaryExecutor → Type 0
  Guarded = IsGuarded platform coder viem wallet caps

  authority_of :
      (chain : SigningChain) (intent : ExactApproval) (p : CanaryApprovalPreflight) (u : Unit {0})
      → check_approval platform coder viem wallet caps chain intent p ≡ ok u
      → assert_approval_authority platform coder viem wallet intent ≡ ok tt
  unfolding check_approval
  authority_of chain intent p u h =
      elim (Result-cases (assert_approval_authority platform coder viem wallet intent)) [
        | inr (x, q) ↦ ground (arith, q, h)
        | inl (v, q) ↦ q
      ]

  broadcast-IsGuarded :
      (network : Text → Result ExecutorError Text) (tx : SignedCanaryTransaction)
      (e : CanaryExecutor)
      → Guarded e
      → Guarded (broadcast_exact platform coder viem wallet caps network tx e).1
  unfolding broadcast_exact check_broadcast
  broadcast-IsGuarded network tx e g =
      elim (Result-cases (assert_signed_envelope platform coder viem wallet (some caps) tx)) [
        | inr (x, s) ↦ rw (s, broadcast_exact) g
        | inl (u, s) ↦ elim (Result-cases (take_authority platform coder viem wallet caps tx e)) [
          | inr (x, t) ↦ rw (s, t, broadcast_exact) g
          | inl (taken, t) ↦
              let (parsed, envelope) = envelope_lem platform coder viem wallet caps tx s in
              let (permitted, kept) =
                take_lem platform coder viem wallet caps tx parsed e taken g envelope.parses t in
              let after : Guarded (record taken { sent = tx ∷ taken.sent }) = record {
                approvals = kept.approvals;
                revokes = kept.revokes;
                safe = ((parsed, envelope, permitted), kept.safe);
              } in
              elim (Result-cases (network tx.serialized_transaction)) [
                | inr (x, n) ↦ rw (s, t, n, broadcast_exact) after
                | inl (hash, n) ↦
                    elim (Bool-cases
                      (text_eq (to_lower_case hash) (to_lower_case tx.transaction_hash))) [
                        | inl b ↦ rw (s, t, n, b, broadcast_exact) after
                        | inr b ↦ rw (s, t, n, b, broadcast_exact) after
                      ]
              ]
        ]
      ]

  sign-IsGuarded :
      (chain : SigningChain) (intent : CanarySwapIntent) (p : CanaryPreflight) (e : CanaryExecutor)
      → Guarded e
      → Guarded (sign platform coder viem wallet caps chain intent p e).1
  unfolding sign
  sign-IsGuarded chain intent p e g =
      elim (Result-cases (make_swap platform coder viem wallet caps chain intent p)) [
        | inr (x, q) ↦ rw (q, sign) g
        | inl (tx, q) ↦
            rw (q, sign) (record { approvals = g.approvals; revokes = g.revokes; safe = g.safe })
      ]

  sign_revoke-IsGuarded :
      (chain : SigningChain) (intent : CanaryEntryApprovalRevokeIntent)
      (p : CanaryApprovalRevokePreflight) (e : CanaryExecutor)
      → Guarded e
      → Guarded (sign_revoke platform coder viem wallet caps chain intent p e).1
  unfolding sign_revoke make_revoke
  sign_revoke-IsGuarded chain intent p e g =
      elim (Result-cases (assert_revoke_authority platform coder viem wallet intent)) [
        | inr (x, a) ↦ rw (a, sign_revoke) g
        | inl (u, a) ↦
            elim (Result-cases (make_revoke platform coder viem wallet caps chain intent p)) [
              | inr (x, q) ↦ rw (q, sign_revoke) g
              | inl (tx, q) ↦
                  rw (q, sign_revoke)
                    (record {
                      approvals = g.approvals;
                      revokes = λ j i r.
                          guarded_key j (to_lower_case tx.transaction_hash) intent i
                            e.signed_revoke_intents
                            (λ i. assert_revoke_authority platform coder viem wallet i ≡ ok tt) a
                            (g.revokes j i) r;
                      safe = g.safe;
                    })
            ]
      ]

  approval-IsGuarded :
      {S : Type 0} (before_sign : S → Result ExecutorError (Unit {0}) × S) (chain : SigningChain)
      (intent : ExactApproval) (p : CanaryApprovalPreflight) (s : S) (e : CanaryExecutor)
      → Guarded e
      → Guarded
          (sign_approval_bound platform coder viem wallet caps before_sign chain intent p s e).2
  unfolding sign_approval_bound
  approval-IsGuarded before_sign chain intent p s e g =
      elim (Result-cases (check_approval platform coder viem wallet caps chain intent p)) [
        | inr (x, q) ↦ rw (q, sign_approval_bound) g
        | inl (u, q) ↦ elim (Result-cases (before_sign s).0) [
          | inr (x, b) ↦ rw (q, b, sign_approval_bound) g
          | inl (v, b) ↦
              elim (Result-cases (make_approval platform coder viem wallet caps chain intent p)) [
                | inr (x, m) ↦ rw (q, b, m, sign_approval_bound) g
                | inl (tx, m) ↦
                    rw (q, b, m, sign_approval_bound)
                      (record {
                        approvals = λ j i r.
                            guarded_key j (to_lower_case tx.transaction_hash) intent i
                              e.signed_approval_intents
                              (λ i. assert_approval_authority platform coder viem wallet i ≡ ok tt)
                              (authority_of chain intent p u q) (g.approvals j i) r;
                        revokes = g.revokes;
                        safe = g.safe;
                      })
              ]
        ]
      ]

  unfoldable pub after : ExecutorCall → CanaryExecutor → CanaryExecutor
  after (signs chain intent p) e = (sign platform coder viem wallet caps chain intent p e).1
  after (approves chain intent p) e =
      (sign_approval platform coder viem wallet caps chain intent p e).1
  after (approves_entry chain intent p capability s) e =
      (sign_entry_approval_reserved platform coder viem wallet caps chain intent p capability s e).2
  after (signs_revoke chain intent p) e =
      (sign_revoke platform coder viem wallet caps chain intent p e).1
  after (broadcasts network tx) e = (broadcast_exact platform coder viem wallet caps network tx e).1

  unfoldable pub after_all : List ExecutorCall → CanaryExecutor → CanaryExecutor
  unfolding after
  after_all [] e = e
  after_all (c ∷ cs) e = after_all cs (after c e)

  exit_approval-IsGuarded :
      (chain : SigningChain) (intent : ExactApproval) (p : CanaryApprovalPreflight)
      (e : CanaryExecutor)
      → Guarded e
      → Guarded (sign_approval platform coder viem wallet caps chain intent p e).1
  unfolding sign_approval
  exit_approval-IsGuarded chain (for_entry i) p e g = g
  exit_approval-IsGuarded chain (for_exit i) p e g =
      elim (Bool-cases (text_eq i.version canary_e0_approval_r0)) [
        | inr v ↦ rw (v, sign_approval) g
        | inl v ↦
            rw (v, sign_approval)
              (approval-IsGuarded {S = Unit {0}} (λ s. (ok tt, s)) chain (for_exit i) p tt e g)
      ]

  entry_approval-IsGuarded :
      (chain : SigningChain) (intent : CanaryEntryApprovalIntent) (p : CanaryApprovalPreflight)
      (capability : Text) (s : EntryStore) (e : CanaryExecutor)
      → Guarded e
      → Guarded
          (sign_entry_approval_reserved platform coder viem wallet caps chain intent p capability s
            e).2
  unfolding sign_entry_approval_reserved
  entry_approval-IsGuarded chain intent p capability s e g =
      elim (Result-cases (check_reserved platform coder viem wallet caps intent capability s)) [
        | inr (x, q) ↦ rw (q, sign_entry_approval_reserved) g
        | inl (u, q) ↦
            rw (q, sign_entry_approval_reserved)
              (approval-IsGuarded
                (consume_and_match platform coder viem wallet caps intent capability) chain
                (for_entry intent) p s e g)
      ]

  after-IsGuarded : (c : ExecutorCall) (e : CanaryExecutor) → Guarded e → Guarded (after c e)
  unfolding after
  after-IsGuarded (signs chain intent p) e g = sign-IsGuarded chain intent p e g
  after-IsGuarded (approves chain intent p) e g = exit_approval-IsGuarded chain intent p e g
  after-IsGuarded (approves_entry chain intent p capability s) e g =
      entry_approval-IsGuarded chain intent p capability s e g
  after-IsGuarded (signs_revoke chain intent p) e g = sign_revoke-IsGuarded chain intent p e g
  after-IsGuarded (broadcasts network tx) e g = broadcast-IsGuarded network tx e g

  after_all-IsGuarded :
      (cs : List ExecutorCall) (e : CanaryExecutor) → Guarded e → Guarded (after_all cs e)
  unfolding after_all
  after_all-IsGuarded [] e g = g
  after_all-IsGuarded (c ∷ cs) e g = after_all-IsGuarded cs (after c e) (after-IsGuarded c e g)

  fresh-IsGuarded : Guarded fresh_executor
  unfolding get_key
  fresh-IsGuarded = record { approvals = λ k intent h. cc; revokes = λ k intent h. cc; safe = tt }

  -- Whatever an executor is called for, each transaction that it has sent is on Ink, without value,
  -- within the caps of gas and of fees, and signed by the wallet; and it calls the router, or it
  -- calls the token of an approval, or of a revoke, that has passed the check of its authority, with
  -- its calldata.
  pub after_all-IsSafe :
      (cs : List ExecutorCall)
      → All (IsSafe platform coder viem wallet caps) (after_all cs fresh_executor).sent
  after_all-IsSafe cs = let g = after_all-IsGuarded cs fresh_executor fresh-IsGuarded in g.safe
