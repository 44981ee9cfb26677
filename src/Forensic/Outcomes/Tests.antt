-- ===== src/Forensic/Outcomes/Tests.antt =====
-- src/forensic/creatorOutcome.ts on two wins, of which one was known at the decision.
use sentry_forensic_gate.Base.{
  ℕ, ◌≡◌, refl, true, none, some, List, [], ◌∷◌, ◌++◌, Text, text_eq, has_member, set_key, get_key,
  sort_by, count, arith,
}
use sentry_forensic_gate.Base.Result.{ok}
use sentry_forensic_gate.Domain.{normal_win}
use sentry_forensic_gate.Receipts.{OutcomeReceipt}
use sentry_forensic_gate.Evidence.Canonical.{Json}
use sentry_forensic_gate.Forensic.Outcomes.{
  select_eligible_outcomes, creator_outcome_horizon_ms, classify,
}
use sentry_forensic_gate.Forensic.Outcomes.AsOf.{select_eligible_outcomes-AsOf}
use sentry_forensic_gate.Forensic.Outcomes.Counts.{
  IsBalanced, has_class, is_unsellable, classify-IsBalanced,
}
use sentry_forensic_gate.Forensic.Feature.{coverage_of}

abbrev outcome : Text → ℕ → OutcomeReceipt
outcome id block = record {
  outcome_id = id;
  launch_id = 1 ∷ [];
  horizon_ms = creator_outcome_horizon_ms;
  observed_block = block;
  executable_value_usd_micros = none;
  sellable = true;
  liquidity_usd_micros = none;
  classification = some normal_win;
  policy_version = none;
  status = none;
  reason = none;
  observed_block_hash = none;
  target_timestamp_ms = none;
  observed_timestamp_ms = none;
  baseline_id = none;
  entry_notional_usd_micros = none;
  entry_token_amount = none;
  market_pool = none;
  market_fee = none;
  base_token = none;
  base_amount_out = none;
  executable_return_bps = none;
  pool_active_liquidity = none;
  evidence_digest = none;
}

abbrev stringify : Json → Text
stringify j = []

select_eligible_outcomes-AsOf_example :
    select_eligible_outcomes stringify
      (λ a b. true)
      ((outcome (2 ∷ []) 90 ∷ []) ++ outcome (3 ∷ []) 101 ∷ [])
      ((1 ∷ []) ∷ [])
      100
    ≡ select_eligible_outcomes stringify
        (λ a b. true)
        ((outcome (2 ∷ []) 90 ∷ []) ++ [])
        ((1 ∷ []) ∷ [])
        100
select_eligible_outcomes-AsOf_example =
    select_eligible_outcomes-AsOf stringify (λ a b. true) ((1 ∷ []) ∷ []) 100
      (outcome (2 ∷ []) 90 ∷ []) [] (outcome (3 ∷ []) 101) (omega arith)

-- The outcome that is known is the one that is selected.
selects :
    select_eligible_outcomes stringify
      (λ a b. true)
      (outcome (2 ∷ []) 90 ∷ outcome (3 ∷ []) 101 ∷ [])
      ((1 ∷ []) ∷ [])
      100
    ≡ ok (outcome (2 ∷ []) 90 ∷ [])
unfolding select_eligible_outcomes text_eq has_member set_key get_key sort_by
selects = refl

abbrev two_outcomes : List OutcomeReceipt
two_outcomes = outcome (2 ∷ []) 90 ∷ outcome (3 ∷ []) 101 ∷ []

classify-IsBalanced_example :
    IsBalanced
      (count has_class two_outcomes)
      (count is_unsellable two_outcomes)
      (classify two_outcomes 2).1
    × (classify two_outcomes 2).0 ≡ coverage_of 2 (count has_class two_outcomes)
classify-IsBalanced_example = classify-IsBalanced two_outcomes 2
