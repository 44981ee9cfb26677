-- ===== src/Canary/LiveAuthorization/Tests.antt =====
-- src/canary/liveAuthorization.ts at a cap that is written with leading zeros.
use sentry_forensic_gate.Base.{
  big_int, is_decimal, ◌≡◌, ◌⊎◌, ◌↔◌, refl, true, false, some, codes, text_eq, same_text,
}
use sentry_forensic_gate.Base.Result.{ok, err}
use sentry_forensic_gate.Canary.LiveAuthorization.{
  CanaryE0LiveAuthorizationParams, canary_e0_live_authorization_r0, any_child, IsAuthorized,
  assert_canary_e0_live_authorization, assert_canary_e0_live_authorization_lem, stack_incomplete,
}

abbrev whole_stack : CanaryE0LiveAuthorizationParams
whole_stack = record {
  live = true;
  entry_approval_enabled = true;
  entry_approval_revoke_enabled = true;
  round_trip_enabled = true;
  authorization = some (codes "CANARY_E0_LIVE_AUTHORIZATION_R0");
  max_notional_usd_micros = some (codes "001000000");
}

starts : assert_canary_e0_live_authorization whole_stack ≡ ok tt
unfolding assert_canary_e0_live_authorization canary_e0_live_authorization_r0 same_text text_eq
    big_int is_decimal
starts = refl

incomplete :
    assert_canary_e0_live_authorization (record whole_stack { round_trip_enabled = false })
    ≡ err stack_incomplete
unfolding assert_canary_e0_live_authorization
incomplete = refl

assert_canary_e0_live_authorization_lem_example :
    (assert_canary_e0_live_authorization whole_stack ≡ ok tt)
    ↔ ((whole_stack.live ≡ false) ⊎ (any_child whole_stack ≡ false) ⊎ IsAuthorized whole_stack)
assert_canary_e0_live_authorization_lem_example =
    assert_canary_e0_live_authorization_lem whole_stack
