-- ===== src/Canary/RoundTrip/Insertable.antt =====
-- The builder of src/canary/roundTrip.ts against the checks of src/canary/exitStore.ts.
use sentry_forensic_gate.Base.{
  ◌≡◌, ◌≢◌, arith, Option, some, Text, text_eq_iff, to_lower_case, same_hex, true, Option-cases,
  inl, inr,
}
use sentry_forensic_gate.Base.Result.{ok, Result-cases}
use sentry_forensic_gate.Canary.Types.{CanaryActionRecord, CanarySwapIntent}
use sentry_forensic_gate.Canary.SwapIntent.{
  Platform, CanarySwapIntentInput, build_canary_swap_intent, ink_swap_router_02, canary_sniper_r0,
  derive_canary_action_id,
}
use sentry_forensic_gate.Canary.RoundTrip.{
  CanaryExitIntent, CanaryExitIntentInput, canary_e0_roundtrip_r0, exit_leg, exit_input,
  build_canary_exit_intent, assert_canonical_buy_intent, derive_canary_exit_action_id,
}
use sentry_forensic_gate.Canary.RoundTrip.ExitStore.{assert_exit_calldata, assert_exit_bound}

-- `getAddress` changes the case of letters alone.
abbrev pub KeepsLetters : (Text → Option Text) → Type 0
KeepsLetters get_address = (a x : Text) → get_address a ≡ some x → to_lower_case x ≡ to_lower_case a

same_hex_refl : (s : Text) → same_hex s s ≡ true
unfolding same_hex
same_hex_refl s = ground (arith, text_eq_iff (to_lower_case s) (to_lower_case s))

same_hex_of : (s t : Text) → to_lower_case s ≡ to_lower_case t → same_hex s t ≡ true
unfolding same_hex
same_hex_of s t e = (text_eq_iff (to_lower_case s) (to_lower_case t)).1 e

-- The exit that a swap becomes.
abbrev exit_of : CanarySwapIntent → Text → Text → CanaryExitIntent
exit_of swap action_id parent = record {
  swap = record swap { action_id = action_id };
  round_trip_version = canary_e0_roundtrip_r0;
  leg = exit_leg;
  parent_buy_action_id = parent;
}

-- The row of a buy that carries the identities of its intent.
abbrev pub IsRowOf : CanaryActionRecord → CanarySwapIntent → Type 0
IsRowOf row buy =
    (row.action_id ≡ buy.action_id)
    × (row.launch_id ≡ buy.launch_id)
    × (row.baseline_id ≡ buy.baseline_id)

module _ (platform : Platform) where
  swap_checked :
      (input : CanarySwapIntentInput) (swap : CanarySwapIntent) (action parent : Text)
      → build_canary_swap_intent platform input ≡ ok swap
      → assert_exit_calldata platform (exit_of swap action parent) ≡ ok tt
  unfolding build_canary_swap_intent assert_exit_calldata
  swap_checked input swap action parent h = ground (
    arith,
    text_eq_iff canary_e0_roundtrip_r0 canary_e0_roundtrip_r0,
    text_eq_iff exit_leg exit_leg,
    text_eq_iff canary_sniper_r0 canary_sniper_r0,
    same_hex_refl (ink_swap_router_02 platform),
    same_hex_refl swap.calldata,
  )

  -- What the swap of an exit takes from the buy.
  swap_bound :
      (input : CanaryExitIntentInput) (swap : CanarySwapIntent)
      → KeepsLetters platform.get_address
      → build_canary_swap_intent platform (exit_input platform input) ≡ ok swap
      → (swap.router ≡ ink_swap_router_02 platform)
        × (same_hex swap.token_in input.buy_intent.token_out ≡ true)
        × (same_hex swap.token_out input.buy_intent.token_in ≡ true)
        × (same_hex swap.recipient input.buy_intent.recipient ≡ true)
        × (swap.fee ≡ input.buy_intent.fee)
        × (swap.notional_usd_micros ≡ 1_000_000)
        × (swap.amount_in ≡ input.amount_in)
  unfolding build_canary_swap_intent
  swap_bound input swap keeps h =
      let buy = input.buy_intent in
      elim (Option-cases (platform.get_address buy.token_out)) [
        | inl q ↦ ground (arith, q, h)
        | inr (x, q) ↦ elim (Option-cases (platform.get_address buy.token_in)) [
          | inl r ↦ ground (arith, q, r, h)
          | inr (y, r) ↦ elim (Option-cases (platform.get_address buy.recipient)) [
            | inl s ↦ ground (arith, q, r, s, h)
            | inr (z, s) ↦ ground (
              arith,
              q,
              r,
              s,
              h,
              same_hex_of x buy.token_out (keeps buy.token_out x q),
              same_hex_of y buy.token_in (keeps buy.token_in y r),
              same_hex_of z buy.recipient (keeps buy.recipient z s),
            )
          ]
        ]
      ]

  bound_checked :
      (input : CanaryExitIntentInput) (row : CanaryActionRecord) (swap : CanarySwapIntent)
      (action parent : Text)
      → KeepsLetters platform.get_address
      → input.buy_intent.router ≡ ink_swap_router_02 platform
      → input.buy_intent.notional_usd_micros ≡ 1_000_000
      → IsRowOf row input.buy_intent
      → build_canary_swap_intent platform (exit_input platform input) ≡ ok swap
      → assert_exit_bound (exit_of swap action parent) row input.buy_intent ≡ ok tt
  unfolding assert_exit_bound
  bound_checked input row swap action parent keeps router dollar is_row h =
      let (r, a, b, c, f, n, m) = swap_bound input swap keeps h in
      let buy = input.buy_intent in
      ground (
        arith,
        is_row,
        router,
        dollar,
        r,
        a,
        b,
        c,
        f,
        n,
        same_hex_refl (ink_swap_router_02 platform),
        text_eq_iff buy.action_id row.action_id,
        text_eq_iff buy.launch_id row.launch_id,
        text_eq_iff buy.baseline_id row.baseline_id,
      )

  -- An exit that is built from a buy to the router passes the checks of the exit store, the check
  -- of its calldata and the check that it is bound to its buy's row, where `getAddress` keeps the
  -- letters of an address and the row carries the identities of the buy; it spends the input's
  -- amount, and its identity is not the buy's.
  pub build_canary_exit_intent-IsInsertable :
      (input : CanaryExitIntentInput) (row : CanaryActionRecord) (exit : CanaryExitIntent)
      → KeepsLetters platform.get_address
      → input.buy_intent.router ≡ ink_swap_router_02 platform
      → IsRowOf row input.buy_intent
      → build_canary_exit_intent platform input ≡ ok exit
      → (assert_exit_calldata platform exit ≡ ok tt)
        × (assert_exit_bound exit row input.buy_intent ≡ ok tt)
        × (exit.swap.amount_in ≡ input.amount_in)
        × (exit.swap.action_id ≢ input.buy_intent.action_id)
  unfolding build_canary_exit_intent assert_canonical_buy_intent
  build_canary_exit_intent-IsInsertable input row exit keeps router is_row h =
      let buy = input.buy_intent in
      elim (Result-cases (derive_canary_action_id platform buy.launch_id buy.baseline_id)) [
        | inr (e, q) ↦ ground (arith, q, h)
        | inl (d, q) ↦
            elim (Result-cases (build_canary_swap_intent platform (exit_input platform input))) [
              | inr (e, s) ↦ ground (arith, q, s, h)
              | inl (swap, s) ↦
                  elim (Result-cases (
                    derive_canary_exit_action_id platform buy.action_id buy.launch_id
                      buy.baseline_id)) [
                        | inr (e, a) ↦ ground (arith, q, s, a, h)
                        | inl (action, a) ↦ ground (
                          arith,
                          q,
                          s,
                          a,
                          h,
                          text_eq_iff action buy.action_id,
                          swap_checked (exit_input platform input) swap action buy.action_id s,
                          bound_checked input row swap action buy.action_id keeps router,
                          is_row,
                          swap_bound input swap keeps s,
                        )
                      ]
            ]
      ]
