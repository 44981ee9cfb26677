-- ===== src/Canary/Executor/Passed.antt =====
-- What the checks of src/canary/viemCanaryExecutor.ts say of a transaction that passes them.
use sentry_forensic_gate.Base.{
  ℕ, ◌≤◌, ◌≡◌, inl, inr, arith, subst, sym, true, false, not, Option, none, some, Text, codes,
  text_eq, text_eq_iff, to_lower_case, get_or_else, get_key, delete_key, has_member, delete_member,
  get_key-delete_key, Bool-cases, Option-cases,
}
use sentry_forensic_gate.Base.Result.{ok, Result-cases}
use sentry_forensic_gate.Canary.SwapIntent.{Platform, ink_swap_router_02}
use sentry_forensic_gate.Canary.EntryApproval.{ApprovalCoder}
use sentry_forensic_gate.Canary.Executor.{
  CanaryExecutorCaps, SignedCanaryTransaction, ParsedTransaction, approval_action_id,
  approval_token, approval_calldata, Viem, ink_chain_id, assert_fee_and_gas_caps, assert_envelope,
  assert_signer, assert_signed_envelope, assert_signed_call, assert_calls, is_number,
}
use sentry_forensic_gate.Canary.Executor.Signing.{CanaryExecutor, check_swap_target, take_authority}
use sentry_forensic_gate.Canary.Executor.Safe.{
  IsEnvelope, IsCall, IsPermitted, to_router, to_approve, to_revoke, IsGuarded,
}

module _ (platform : Platform) (coder : ApprovalCoder) (viem : Viem) (wallet : Text)
    (caps : CanaryExecutorCaps) where
  abbrev pub Envelope : SignedCanaryTransaction → ParsedTransaction → Type 0
  Envelope = IsEnvelope platform coder viem wallet caps

  abbrev pub Calls : Text → Text → ParsedTransaction → Type 0
  Calls = IsCall platform coder viem wallet caps

  abbrev pub Permitted : ParsedTransaction → Type 0
  Permitted = IsPermitted platform coder viem wallet caps

  abbrev pub Guarded : CanaryExecutor → Type 0
  Guarded = IsGuarded platform coder viem wallet caps

  same_text : (s t : Text) → not (text_eq s t) ≡ false → s ≡ t
  same_text s t h = ground (arith, text_eq_iff s t)

  caps_lem :
      (gas fee priority : ℕ)
      → assert_fee_and_gas_caps gas fee priority caps ≡ ok tt
      → (gas ≤ caps.max_gas)
        × (fee ≤ caps.max_fee_per_gas)
        × (priority ≤ caps.max_priority_fee_per_gas)
        × (priority ≤ fee)
  unfolding assert_fee_and_gas_caps
  caps_lem gas fee priority h = ground arith

  number_lem : (n : ℕ) (o : Option ℕ) → is_number n o ≡ true → o ≡ some n
  number_lem n none h = cc
  number_lem n (some m) h = ground arith

  pub envelope_lem :
      (tx : SignedCanaryTransaction)
      → assert_signed_envelope platform coder viem wallet (some caps) tx ≡ ok tt
      → (parsed : ParsedTransaction) × Envelope tx parsed
  unfolding assert_signed_envelope assert_envelope assert_signer
  envelope_lem tx h = elim (Option-cases (viem.parse_transaction tx.serialized_transaction)) [
    | inl q ↦ ground (arith, q, h)
    | inr (parsed, q) ↦
        elim (Option-cases (viem.recover_transaction_address tx.serialized_transaction)) [
          | inl r ↦ ground (arith, q, r, h)
          | inr (signer, r) ↦ elim (Option-cases (platform.get_address signer)) [
            | inl a ↦ ground (arith, q, r, a, h)
            | inr (x, a) ↦ elim (Option-cases (platform.get_address wallet)) [
              | inl b ↦ ground (arith, q, r, a, b, h)
              | inr (y, b) ↦
                  let capped =
                    caps_lem tx.gas tx.max_fee_per_gas tx.max_priority_fee_per_gas
                      (ground (arith, q, r, a, b, h)) in
                  (
                    parsed,
                    record {
                      parses = q;
                      on_ink =
                          ground (arith, q, r, a, b, h, number_lem ink_chain_id parsed.chain_id);
                      no_value = ground (arith, q, r, a, b, h);
                      gas_limit = ground (arith, q, r, a, b, h, number_lem tx.gas parsed.gas);
                      gas_capped = capped.0;
                      fee_limit = ground (
                        arith,
                        q,
                        r,
                        a,
                        b,
                        h,
                        number_lem tx.max_fee_per_gas parsed.max_fee_per_gas,
                      );
                      fee_capped = capped.1;
                      priority_limit = ground (
                        arith,
                        q,
                        r,
                        a,
                        b,
                        h,
                        number_lem tx.max_priority_fee_per_gas parsed.max_priority_fee_per_gas,
                      );
                      priority_capped = capped.2;
                      priority_below_fee = capped.3;
                      signer = signer;
                      recovered = r;
                      is_wallet = ground (arith, q, r, a, b, h, text_eq_iff x y);
                    },
                  )
            ]
          ]
        ]
  ]

  calls_lem :
      (token calldata : Text) (parsed : ParsedTransaction)
      → assert_calls platform coder viem wallet token calldata parsed ≡ ok tt
      → Calls token calldata parsed
  unfolding assert_calls
  calls_lem token calldata parsed h = elim (Option-cases parsed.to) [
    | inl q ↦ ground (arith, q, h)
    | inr (to, q) ↦ elim (Option-cases (platform.get_address to)) [
      | inl a ↦ ground (arith, q, a, h)
      | inr (x, a) ↦ elim (Option-cases (platform.get_address token)) [
        | inl b ↦ ground (arith, q, a, b, h)
        | inr (y, b) ↦ (
          to,
          q,
          ground (arith, q, a, b, h, text_eq_iff x y),
          ground (
            arith,
            q,
            a,
            b,
            h,
            text_eq_iff (to_lower_case (get_or_else parsed.calldata (codes "0x")))
                (to_lower_case calldata),
          ),
        )
      ]
    ]
  ]

  signed_call_lem :
      (action token calldata : Text) (tx : SignedCanaryTransaction) (parsed : ParsedTransaction)
      → assert_signed_call platform coder viem wallet action token calldata tx ≡ ok tt
      → viem.parse_transaction tx.serialized_transaction ≡ some parsed
      → Calls token calldata parsed
  unfolding assert_signed_call
  signed_call_lem action token calldata tx parsed h q =
      elim (Result-cases (assert_signed_envelope platform coder viem wallet none tx)) [
        | inr (x, r) ↦ ground (arith, r, h)
        | inl (u, r) ↦ calls_lem token calldata parsed (ground (arith, r, q, h))
      ]

  swap_lem :
      (tx : SignedCanaryTransaction) (parsed : ParsedTransaction)
      → check_swap_target platform coder viem wallet caps tx ≡ ok tt
      → viem.parse_transaction tx.serialized_transaction ≡ some parsed
      → Permitted parsed
  unfolding check_swap_target
  swap_lem tx parsed h q = elim (Option-cases parsed.to) [
    | inl t ↦ ground (arith, q, t, h)
    | inr (to, t) ↦ elim (Option-cases (platform.get_address to)) [
      | inl a ↦ ground (arith, q, t, a, h)
      | inr (x, a) ↦
          to_router to t (ground (arith, q, t, a, h, text_eq_iff x (ink_swap_router_02 platform)))
    ]
  ]

  -- What `take_authority` leaves.
  abbrev pub Takes :
      SignedCanaryTransaction → ParsedTransaction → CanaryExecutor → CanaryExecutor → Type 0
  Takes tx parsed e e' = Permitted parsed × Guarded e'

  pub take_lem :
      (tx : SignedCanaryTransaction) (parsed : ParsedTransaction) (e e' : CanaryExecutor)
      → Guarded e
      → viem.parse_transaction tx.serialized_transaction ≡ some parsed
      → take_authority platform coder viem wallet caps tx e ≡ ok e'
      → Takes tx parsed e e'
  unfolding take_authority
  take_lem tx parsed e e' g q h =
      let k = to_lower_case tx.transaction_hash in
      elim (Option-cases (get_key k e.signed_approval_intents)) [
        | inr (intent, a) ↦
            elim (Result-cases (
              assert_signed_call platform coder viem wallet (approval_action_id intent)
                (approval_token intent) (approval_calldata intent) tx)) [
                  | inr (x, c) ↦ ground (arith, a, c, h)
                  | inl (u, c) ↦
                      let left : CanaryExecutor = record e {
                        signed_approval_intents = delete_key k e.signed_approval_intents;
                      } in
                      let is_left : e' ≡ left = ground (arith, a, c, h) in
                      (
                        to_approve intent (g.approvals k intent a) (
                            signed_call_lem (approval_action_id intent) (approval_token intent)
                              (approval_calldata intent) tx parsed c q),
                        subst (λ x. Guarded x) (sym is_left)
                            (record {
                              approvals = λ j i r. g.approvals j i (
                                  ground
                                    (arith, r, get_key-delete_key k j e.signed_approval_intents));
                              revokes = g.revokes;
                              safe = g.safe;
                            }),
                      )
                ]
        | inl a ↦ elim (Option-cases (get_key k e.signed_revoke_intents)) [
          | inr (intent, b) ↦
              elim (Result-cases (
                assert_signed_call platform coder viem wallet intent.action_id intent.token
                  intent.calldata tx)) [
                    | inr (x, c) ↦ ground (arith, a, b, c, h)
                    | inl (u, c) ↦
                        let left : CanaryExecutor = record e {
                          signed_revoke_intents = delete_key k e.signed_revoke_intents;
                        } in
                        let is_left : e' ≡ left = ground (arith, a, b, c, h) in
                        (
                          to_revoke intent (g.revokes k intent b) (
                              signed_call_lem intent.action_id intent.token intent.calldata tx
                                parsed c q),
                          subst (λ x. Guarded x) (sym is_left)
                              (record {
                                approvals = g.approvals;
                                revokes = λ j i r. g.revokes j i (
                                    ground
                                      (arith, r, get_key-delete_key k j e.signed_revoke_intents));
                                safe = g.safe;
                              }),
                        )
                  ]
          | inl b ↦ elim (Bool-cases (has_member k e.signed_swap_hashes)) [
            | inr c ↦ ground (arith, a, b, c, h)
            | inl c ↦ elim (Result-cases (check_swap_target platform coder viem wallet caps tx)) [
              | inr (x, d) ↦ ground (arith, a, b, c, d, h)
              | inl (u, d) ↦
                  let left : CanaryExecutor = record e {
                    signed_swap_hashes = delete_member k e.signed_swap_hashes;
                  } in
                  let is_left : e' ≡ left = ground (arith, a, b, c, d, h) in
                  (
                    swap_lem tx parsed d q,
                    subst (λ x. Guarded x) (sym is_left)
                        (record { approvals = g.approvals; revokes = g.revokes; safe = g.safe }),
                  )
            ]
          ]
        ]
      ]
