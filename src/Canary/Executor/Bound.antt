-- ===== src/Canary/Executor/Bound.antt =====
-- The preflight of an approval in src/canary/viemCanaryExecutor.ts, against what its signing checks.
use sentry_forensic_gate.Base.{
  ◌≡◌, ◌≤◌, arith, true, Option, none, some, Text, text_eq_iff, Option-cases, inl, inr,
}
use sentry_forensic_gate.Base.Result.{ok, Result-cases}
use sentry_forensic_gate.Canary.SwapIntent.{Platform}
use sentry_forensic_gate.Canary.EntryApproval.{ApprovalCoder}
use sentry_forensic_gate.Canary.RoundTrip.Approval.{classify_canary_approval_allowance}
use sentry_forensic_gate.Canary.Executor.{
  CanaryExecutorCaps, CanaryApprovalPreflight, ExactApproval, for_exit, for_entry, approval_token,
  approval_spender, approval_action_id, approval_amount, Viem, assert_fee_and_gas_caps,
  assert_approval_authority, assert_approval_preflight_binding,
}
use sentry_forensic_gate.Canary.Executor.Preflight.{
  PreflightChain, preflight_approval, get_chain_clock, assert_simulation, has_code,
}

module _ (platform : Platform) (coder : ApprovalCoder) (viem : Viem) (wallet : Text)
    (caps : CanaryExecutorCaps) where
  -- The authority of an approval reads the wallet and the spender as addresses.
  authority_parses :
      (intent : ExactApproval)
      → assert_approval_authority platform coder viem wallet intent ≡ ok tt
      → ((w : Text) × (platform.get_address wallet ≡ some w))
        × ((s : Text) × (platform.get_address (approval_spender intent) ≡ some s))
  unfolding assert_approval_authority
  authority_parses (for_exit i) h = elim (Option-cases (platform.get_address i.owner)) [
    | inl o ↦ ground (arith, o, h)
    | inr (owner, o) ↦ elim (Option-cases (platform.get_address wallet)) [
      | inl w ↦ ground (arith, o, w, h)
      | inr (x, w) ↦ elim (Option-cases (platform.get_address i.spender)) [
        | inl s ↦ ground (arith, o, w, s, h)
        | inr (y, s) ↦ ((x, w), (y, s))
      ]
    ]
  ]
  authority_parses (for_entry i) h = elim (Option-cases (platform.get_address i.owner)) [
    | inl o ↦ ground (arith, o, h)
    | inr (owner, o) ↦ elim (Option-cases (platform.get_address wallet)) [
      | inl w ↦ ground (arith, o, w, h)
      | inr (x, w) ↦ elim (Option-cases (platform.get_address i.spender)) [
        | inl s ↦ ground (arith, o, w, s, h)
        | inr (y, s) ↦ ((x, w), (y, s))
      ]
    ]
  ]

  -- What the chain has said when an approval is preflighted.
  pub record Allows (chain : PreflightChain) (intent : ExactApproval) (p : CanaryApprovalPreflight)
      : Type 0 where
    pub code : Option Text
    pub read_code : chain.code ≡ ok code
    pub is_contract : has_code code ≡ true
    pub no_allowance : chain.allowance ≡ ok 0
    pub balance : chain.token_balance ≡ ok p.token_balance
    pub is_covered : approval_amount intent ≤ p.token_balance
    pub simulated : chain.simulation ≡ ok (some true)

  preflight_approval-Allows :
      (chain : PreflightChain) (intent : ExactApproval) (p : CanaryApprovalPreflight)
      → preflight_approval platform coder viem wallet caps chain intent ≡ ok p
      → Allows chain intent p
  unfolding preflight_approval assert_simulation classify_canary_approval_allowance
  preflight_approval-Allows chain intent p h =
      elim (Result-cases (assert_approval_authority platform coder viem wallet intent)) [
        | inr (x, a) ↦ ground (arith, a, h)
        | inl (u, a) ↦ elim (Result-cases (get_chain_clock chain)) [
          | inr (x, c) ↦ ground (arith, a, c, h)
          | inl (clock, c) ↦ elim (Result-cases chain.code) [
            | inr (x, d) ↦ ground (arith, a, c, d, h)
            | inl (code, d) ↦ elim (Result-cases chain.token_balance) [
              | inr (x, b) ↦ ground (arith, a, c, d, b, h)
              | inl (balance, b) ↦ elim (Result-cases chain.allowance) [
                | inr (x, l) ↦ ground (arith, a, c, d, b, l, h)
                | inl (allowance, l) ↦ elim (Result-cases chain.simulation) [
                  | inr (x, s) ↦ ground (arith, a, c, d, b, l, s, h)
                  | inl (none, s) ↦ ground (arith, a, c, d, b, l, s, h)
                  | inl (some answer, s) ↦ elim (Result-cases chain.gas) [
                    | inr (x, g) ↦ ground (arith, a, c, d, b, l, s, g, h)
                    | inl (gas, g) ↦ elim (Result-cases chain.fees) [
                      | inr (x, f) ↦ ground (arith, a, c, d, b, l, s, g, f, h)
                      | inl (fees, f) ↦ record {
                        code = code;
                        read_code = d;
                        is_contract = ground (arith, a, c, d, b, l, s, g, f, h);
                        no_allowance = ground (arith, a, c, d, b, l, s, g, f, h);
                        balance = ground (arith, a, c, d, b, l, s, g, f, h);
                        is_covered = ground (arith, a, c, d, b, l, s, g, f, h);
                        simulated = ground (arith, a, c, d, b, l, s, g, f, h);
                      }
                    ]
                  ]
                ]
              ]
            ]
          ]
        ]
      ]

  preflight_approval-Rechecks :
      (chain : PreflightChain) (intent : ExactApproval) (p : CanaryApprovalPreflight) (token : Text)
      → platform.get_address (approval_token intent) ≡ some token
      → preflight_approval platform coder viem wallet caps chain intent ≡ ok p
      → (assert_approval_preflight_binding platform coder viem wallet intent p ≡ ok tt)
        × (assert_fee_and_gas_caps p.gas p.max_fee_per_gas p.max_priority_fee_per_gas caps ≡ ok tt)
  unfolding preflight_approval assert_approval_preflight_binding
  preflight_approval-Rechecks chain intent p token t h =
      elim (Result-cases (assert_approval_authority platform coder viem wallet intent)) [
        | inr (x, a) ↦ ground (arith, a, h)
        | inl (u, a) ↦
            let ((w, is_w), (s, is_s)) = authority_parses intent a in
            elim (Result-cases (get_chain_clock chain)) [
              | inr (x, c) ↦ ground (arith, a, c, h)
              | inl (clock, c) ↦ elim (Result-cases chain.gas) [
                | inr (x, g) ↦ ground (arith, a, c, g, h)
                | inl (gas, g) ↦ elim (Result-cases chain.fees) [
                  | inr (x, f) ↦ ground (arith, a, c, g, f, h)
                  | inl (fees, f) ↦ ground (
                    arith,
                    a,
                    c,
                    g,
                    f,
                    h,
                    t,
                    is_w,
                    is_s,
                    text_eq_iff w w,
                    text_eq_iff s s,
                    text_eq_iff token token,
                    text_eq_iff (approval_action_id intent) (approval_action_id intent),
                  )
                ]
              ]
            ]
      ]

  -- An approval passes its preflight only if the chain says that the token has code, that the
  -- wallet's allowance for the spender is 0, that its balance is the one of the preflight and covers
  -- the amount, and that the simulation answers true; and, if the token is read as an address, the
  -- preflight is bound to the intent and to the wallet as its signing checks again, with its gas and
  -- fees within the caps.
  pub preflight_approval-IsBound :
      (chain : PreflightChain) (intent : ExactApproval) (p : CanaryApprovalPreflight) (token : Text)
      → platform.get_address (approval_token intent) ≡ some token
      → preflight_approval platform coder viem wallet caps chain intent ≡ ok p
      → (assert_approval_preflight_binding platform coder viem wallet intent p ≡ ok tt)
        × (assert_fee_and_gas_caps p.gas p.max_fee_per_gas p.max_priority_fee_per_gas caps ≡ ok tt)
        × Allows chain intent p
  preflight_approval-IsBound chain intent p token t h =
      let (bound, capped) = preflight_approval-Rechecks chain intent p token t h in
      (bound, capped, preflight_approval-Allows chain intent p h)
