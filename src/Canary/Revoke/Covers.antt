-- ===== src/Canary/Revoke/Covers.antt =====
-- The builder of src/canary/entryApprovalRevoke.ts against its own check.
use sentry_forensic_gate.Base.{
  ◌≡◌, ◌≢◌, Option, refl, some, arith, Text, text_eq_iff, Option-cases, inl, inr,
}
use sentry_forensic_gate.Base.Result.{ok, Result-cases}
use sentry_forensic_gate.Canary.SwapIntent.{Platform}
use sentry_forensic_gate.Canary.EntryApproval.{ApprovalCoder, CanaryEntryApprovalIntent}
use sentry_forensic_gate.Canary.Revoke.{
  CanaryEntryApprovalRevokeIntent, RevokeError, revoke_fields, build_revoke_intent,
  derive_revoke_action_id, assert_revoke_calldata, assert_canonical_parent, assert_covers_parent,
  revoke_differ,
}

-- `getAddress` gives a form that it keeps.
abbrev pub GivesNormalForm : (Text → Option Text) → Type 0
GivesNormalForm get_address = (a x : Text) → get_address a ≡ some x → get_address x ≡ some x

module _ (platform : Platform) (coder : ApprovalCoder) where
  named :
      (p : CanaryEntryApprovalRevokeIntent) (action : Text)
      → assert_revoke_calldata platform coder (record p { action_id = action })
        ≡ assert_revoke_calldata platform coder p
  unfolding assert_revoke_calldata
  named p action = refl

  same_address :
      (a x : Text) (e : RevokeError)
      → GivesNormalForm platform.get_address
      → platform.get_address a ≡ some x
      → revoke_differ platform coder x a e ≡ ok tt
  same_address a x e normal q = ground (arith, q, normal a x q, text_eq_iff x x)

  -- What the fields of a revoke take from the parent's.
  fields_cover :
      (parent : CanaryEntryApprovalIntent) (p : CanaryEntryApprovalRevokeIntent) (action : Text)
      → GivesNormalForm platform.get_address
      → revoke_fields platform coder parent ≡ ok p
      → assert_revoke_calldata platform coder p ≡ ok tt
      → assert_covers_parent platform coder (record p { action_id = action }) parent ≡ ok tt
  unfolding revoke_fields assert_covers_parent
  fields_cover parent p action normal e k =
      elim (Result-cases (assert_canonical_parent platform coder parent)) [
        | inr (x, c) ↦ ground (arith, c, e)
        | inl (u, c) ↦ elim (Option-cases (platform.get_address parent.owner)) [
          | inl o ↦ ground (arith, c, o, e)
          | inr (owner, o) ↦ elim (Option-cases (platform.get_address parent.token)) [
            | inl t ↦ ground (arith, c, o, t, e)
            | inr (token, t) ↦ elim (Option-cases (platform.get_address parent.spender)) [
              | inl s ↦ ground (arith, c, o, t, s, e)
              | inr (spender, s) ↦ ground (
                arith,
                c,
                o,
                t,
                s,
                e,
                k,
                named p action,
                normal parent.owner owner o,
                normal parent.token token t,
                normal parent.spender spender s,
                text_eq_iff owner owner,
                text_eq_iff token token,
                text_eq_iff spender spender,
                text_eq_iff parent.action_id parent.action_id,
                text_eq_iff parent.parent_buy_action_id parent.parent_buy_action_id,
                text_eq_iff parent.launch_id parent.launch_id,
                text_eq_iff parent.baseline_id parent.baseline_id,
              )
            ]
          ]
        ]
      ]

  -- A revoke that is built passes the check that it covers its parent, where `getAddress` keeps
  -- the form that it gives; and its identity is neither the parent's nor the buy's.
  pub build_revoke_intent-Covers :
      (parent : CanaryEntryApprovalIntent) (intent : CanaryEntryApprovalRevokeIntent)
      → GivesNormalForm platform.get_address
      → build_revoke_intent platform coder parent ≡ ok intent
      → (assert_covers_parent platform coder intent parent ≡ ok tt)
        × (intent.action_id ≢ parent.action_id)
        × (intent.action_id ≢ parent.parent_buy_action_id)
  unfolding build_revoke_intent
  build_revoke_intent-Covers parent intent normal e =
      elim (Result-cases (revoke_fields platform coder parent)) [
        | inr (x, q) ↦ ground (arith, q, e)
        | inl (p, q) ↦ elim (Result-cases (derive_revoke_action_id platform coder p)) [
          | inr (x, d) ↦ ground (arith, q, d, e)
          | inl (action, d) ↦ elim (Result-cases (assert_revoke_calldata platform coder p)) [
            | inr (x, k) ↦ ground (arith, q, d, k, e)
            | inl (u, k) ↦ ground (
              arith,
              q,
              d,
              k,
              e,
              fields_cover parent p action normal q k,
              text_eq_iff action parent.action_id,
              text_eq_iff action parent.parent_buy_action_id,
            )
          ]
        ]
      ]
