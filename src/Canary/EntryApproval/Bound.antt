-- ===== src/Canary/EntryApproval/Bound.antt =====
-- What an entry approval of src/canary/entryApproval.ts approves: the amount of its parent buy, to
-- the router, and nothing else.
use sentry_forensic_gate.Base.{
  ℕ, ◌<◌, ◌≡◌, ◌≢◌, some, arith, Text, text_eq_iff, Option-cases, inl, inr,
}
use sentry_forensic_gate.Base.Result.{ok, Result-cases}
use sentry_forensic_gate.Canary.Types.{CanarySwapIntent}
use sentry_forensic_gate.Canary.SwapIntent.{Platform, ink_swap_router_02, derive_canary_action_id}
use sentry_forensic_gate.Canary.EntryApproval.{
  ApprovalCoder, CanaryEntryApprovalIntent, DecodedCall, approve, undecodable, other_function,
  erc20_max_uint256, weth9, approval_fields, build_canary_entry_approval_intent,
  derive_canary_entry_approval_action_id, assert_canary_approval_calldata, check_decoded,
  assert_canonical_buy, assert_entry_approval_amount,
}

-- The calldata is read as an approval of the amount for the spender.
abbrev pub IsApproval : Platform → Text → ℕ → DecodedCall → Type 0
IsApproval platform spender amount call =
    (s : Text) × (call ≡ approve s amount) × (platform.get_address s ≡ platform.get_address spender)

-- The fields that an approval takes from its buy.
pub record IsTakenFrom (platform : Platform) (buy : CanarySwapIntent)
    (intent : CanaryEntryApprovalIntent) : Type 0 where
  pub exact : intent.amount ≡ buy.amount_in
  pub positive : 0 < intent.amount
  pub finite : intent.amount ≢ erc20_max_uint256
  pub to_router : intent.spender ≡ ink_swap_router_02 platform
  pub of_weth : platform.get_address weth9 ≡ some intent.token
  pub same_token : platform.get_address buy.token_in ≡ some intent.token
  pub same_owner : platform.get_address buy.recipient ≡ some intent.owner
  pub parent : intent.parent_buy_action_id ≡ buy.action_id
  pub launch : intent.launch_id ≡ buy.launch_id
  pub baseline : intent.baseline_id ≡ buy.baseline_id

module _ (platform : Platform) (coder : ApprovalCoder) where
  decoded_lem :
      (spender : Text) (amount : ℕ) (call : DecodedCall)
      → check_decoded platform coder spender amount call ≡ ok tt
      → IsApproval platform spender amount call
  unfolding check_decoded
  decoded_lem spender amount undecodable e = cc
  decoded_lem spender amount other_function e = cc
  decoded_lem spender amount (approve s a) e = elim (Option-cases (platform.get_address s)) [
    | inl n ↦ ground (arith, n, e)
    | inr (x, q) ↦ elim (Option-cases (platform.get_address spender)) [
      | inl n ↦ ground (arith, n, q, e)
      | inr (y, r) ↦
          (s, ground (arith, q, r, e, text_eq_iff x y), ground (arith, q, r, e, text_eq_iff x y))
    ]
  ]

  calldata_lem :
      (spender : Text) (amount : ℕ) (calldata : Text)
      → assert_canary_approval_calldata platform coder spender amount calldata ≡ ok tt
      → IsApproval platform spender amount (coder.decode calldata)
  unfolding assert_canary_approval_calldata
  calldata_lem spender amount calldata e =
      decoded_lem spender amount (coder.decode calldata) (ground (arith, e))

  amount_lem :
      (amount : ℕ)
      → assert_entry_approval_amount amount ≡ ok tt
      → (0 < amount) × (amount ≢ erc20_max_uint256)
  unfolding assert_entry_approval_amount
  amount_lem amount e = ground arith

  approval_fields-IsTakenFrom :
      (buy : CanarySwapIntent) (intent : CanaryEntryApprovalIntent)
      → approval_fields platform coder buy ≡ ok intent
      → IsTakenFrom platform buy intent
  unfolding approval_fields
  approval_fields-IsTakenFrom buy intent e =
      elim (Result-cases (assert_canonical_buy platform coder buy)) [
        | inr (x, qc) ↦ ground (arith, qc, e)
        | inl (c, qc) ↦
            elim (Result-cases (derive_canary_action_id platform buy.launch_id buy.baseline_id)) [
              | inr (x, qd) ↦ ground (arith, qc, qd, e)
              | inl (d, qd) ↦ elim (Result-cases (assert_entry_approval_amount buy.amount_in)) [
                | inr (x, qm) ↦ ground (arith, qc, qd, qm, e)
                | inl (m, qm) ↦ elim (Option-cases (platform.get_address buy.recipient)) [
                  | inl qo ↦ ground (arith, qc, qd, qm, qo, e)
                  | inr (o, qo) ↦ elim (Option-cases (platform.get_address buy.token_in)) [
                    | inl qt ↦ ground (arith, qc, qd, qm, qo, qt, e)
                    | inr (t, qt) ↦ elim (Option-cases (platform.get_address buy.token_out)) [
                      | inl qu ↦ ground (arith, qc, qd, qm, qo, qt, qu, e)
                      | inr (u, qu) ↦ elim (Option-cases (platform.get_address buy.router)) [
                        | inl qs ↦ ground (arith, qc, qd, qm, qo, qt, qu, qs, e)
                        | inr (s, qs) ↦ elim (Option-cases (platform.get_address weth9)) [
                          | inl qw ↦ ground (arith, qc, qd, qm, qo, qt, qu, qs, qw, e)
                          | inr (w, qw) ↦ ground (
                            arith,
                            qc,
                            qd,
                            qm,
                            qo,
                            qt,
                            qu,
                            qs,
                            qw,
                            e,
                            text_eq_iff t w,
                            text_eq_iff s (ink_swap_router_02 platform),
                            amount_lem buy.amount_in,
                          )
                        ]
                      ]
                    ]
                  ]
                ]
              ]
            ]
      ]

  named :
      (buy : CanarySwapIntent) (p : CanaryEntryApprovalIntent) (action : Text)
      → IsTakenFrom platform buy p
      → IsTakenFrom platform buy (record p { action_id = action })
  named buy p action v = record {
    exact = v.exact;
    positive = v.positive;
    finite = v.finite;
    to_router = v.to_router;
    of_weth = v.of_weth;
    same_token = v.same_token;
    same_owner = v.same_owner;
    parent = v.parent;
    launch = v.launch;
    baseline = v.baseline;
  }

  -- An approval that is built is for the exact amount of its buy, which is neither 0 nor unlimited,
  -- by the buy's recipient, of the token that the buy spends, which is WETH9, to the router; it
  -- carries the identities of the buy and another of its own; and its calldata is read as an
  -- approval of that amount for that spender.
  pub build_canary_entry_approval_intent-IsExact :
      (buy : CanarySwapIntent) (intent : CanaryEntryApprovalIntent)
      → build_canary_entry_approval_intent platform coder buy ≡ ok intent
      → IsTakenFrom platform buy intent
        × (intent.action_id ≢ buy.action_id)
        × IsApproval platform intent.spender intent.amount (coder.decode intent.calldata)
  unfolding build_canary_entry_approval_intent
  build_canary_entry_approval_intent-IsExact buy intent e =
      elim (Result-cases (approval_fields platform coder buy)) [
        | inr (x, q) ↦ ground (arith, q, e)
        | inl (p, q) ↦
            elim (Result-cases (derive_canary_entry_approval_action_id platform coder p)) [
              | inr (x, d) ↦ ground (arith, q, d, e)
              | inl (action, d) ↦ ground (
                arith,
                q,
                d,
                e,
                named buy p action (approval_fields-IsTakenFrom buy p q),
                text_eq_iff action buy.action_id,
                calldata_lem p.spender p.amount p.calldata,
              )
            ]
      ]
