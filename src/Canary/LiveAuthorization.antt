-- ===== src/Canary/LiveAuthorization.antt =====
-- src/canary/liveAuthorization.ts: the operator's latch. `undefined` is `none`.
use sentry_forensic_gate.Base.{
  big_int, is_decimal, ℕ, ◌+◌, ◌-◌, ◌*◌, ◌≡◌, ◌↔◌, ◌⊎◌, refl, Bool, true, false, ◌&&◌, ◌||◌, not,
  Option, none, some, List, [], ◌∷◌, arith, Text, codes, text_eq, text_eq_iff, same_text, is_empty,
  leb, ◌==◌, if◌then◌else◌, Option-cases, inl, inr,
}
use sentry_forensic_gate.Base.Result.{Result, ok, err, ◌>>=◌, ◌>>◌, throw_if}
use sentry_forensic_gate.Canary.SwapIntent.{canary_primary_notional_usd_micros}
mod Tests

unfoldable pub canary_e0_live_authorization_r0 : Text
canary_e0_live_authorization_r0 = codes "CANARY_E0_LIVE_AUTHORIZATION_R0"

pub record CanaryE0LiveAuthorizationParams : Type 0 where
  pub live : Bool
  pub entry_approval_enabled : Bool
  pub entry_approval_revoke_enabled : Bool
  pub round_trip_enabled : Bool
  pub authorization : Option Text
  pub max_notional_usd_micros : Option Text

pub data LiveAuthorizationError : Type 0 where
  stack_incomplete authorization_required max_notional_required : LiveAuthorizationError
  max_notional_must_equal_primary : ℕ → LiveAuthorizationError

check_notional : Option Text → Result LiveAuthorizationError (Unit {0})
check_notional none = err max_notional_required
check_notional (some s) = do
  throw_if (not (is_decimal s)) max_notional_required
  throw_if (not (big_int s == canary_primary_notional_usd_micros))
      (max_notional_must_equal_primary (big_int s))

abbrev pub any_child : CanaryE0LiveAuthorizationParams → Bool
any_child p = p.entry_approval_enabled || p.entry_approval_revoke_enabled || p.round_trip_enabled

unfoldable pub assert_canary_e0_live_authorization :
    CanaryE0LiveAuthorizationParams → Result LiveAuthorizationError (Unit {0})
unfolding check_notional
assert_canary_e0_live_authorization p =
    if not p.live then ok tt else if not (any_child p) then ok tt else do
      throw_if
          (not p.entry_approval_enabled
            || not p.entry_approval_revoke_enabled
            || not p.round_trip_enabled)
          stack_incomplete
      throw_if (not (same_text p.authorization (some canary_e0_live_authorization_r0)))
          authorization_required
      check_notional p.max_notional_usd_micros

-- The whole stack is enabled, acknowledged, and capped at one dollar.
pub record IsAuthorized (p : CanaryE0LiveAuthorizationParams) : Type 0 where
  pub approvals : p.entry_approval_enabled ≡ true
  pub revokes : p.entry_approval_revoke_enabled ≡ true
  pub round_trips : p.round_trip_enabled ≡ true
  pub acknowledged : p.authorization ≡ some canary_e0_live_authorization_r0
  pub capped :
      (s : Text) × (p.max_notional_usd_micros ≡ some s)
      × (is_decimal s ≡ true)
      × (big_int s ≡ 1_000_000)

-- The latch lets the runtime start exactly if it is not live, or runs no child of the stack, or runs
-- the whole stack with the exact acknowledgement and a cap that reads as 1,000,000.
pub assert_canary_e0_live_authorization_lem :
    (p : CanaryE0LiveAuthorizationParams)
    → (assert_canary_e0_live_authorization p ≡ ok tt)
      ↔ ((p.live ≡ false) ⊎ (any_child p ≡ false) ⊎ IsAuthorized p)
unfolding assert_canary_e0_live_authorization same_text
assert_canary_e0_live_authorization_lem p = elim (Option-cases p.authorization) [
  | inl n ↦ ground (arith, n)
  | inr (a, q) ↦ ground (arith, q, text_eq_iff a canary_e0_live_authorization_r0)
]
