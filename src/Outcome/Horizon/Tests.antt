-- ===== src/Outcome/Horizon/Tests.antt =====
-- The search of src/runtime/forwardOutcomes.ts on a chain with a block every two seconds.
use sentry_forensic_gate.Base.{ℕ, ◌*◌, ◌≤◌, ◌<◌, ◌≡◌, ◌⊎◌, refl, true, none, some, [], arith}
use sentry_forensic_gate.Base.Result.{ok}
use sentry_forensic_gate.Outcome.Source.{OutcomeBlockPoint, ForwardOutcomeSource}
use sentry_forensic_gate.Outcome.Horizon.{find_first_block_at_or_after_timestamp}
use sentry_forensic_gate.Outcome.Horizon.First.{IsSteady, IsFirst, find_first_block_lem}

abbrev chain : ℕ → OutcomeBlockPoint
chain n = record { block_number = n; block_hash = []; timestamp_ms = n * 2_000 }

abbrev source : ForwardOutcomeSource
source = record {
  get_block_point = λ t n. ok (chain n);
  assert_market_authority = λ t market n. ok tt;
  read_active_liquidity = λ t market n. ok 1;
  quote_token_to_base = λ t market amount n.
      ok (record { executable = true; amount_out = amount; failure_reason = none });
  value_base_amount_usd_micros = λ t token amount n. ok amount;
}

source-IsSteady : IsSteady source chain
source-IsSteady = record { reads = λ t n. refl; rises = λ m n h. omega (arith, h) }

-- Block 31 is the first at or after 61 seconds.
search_run :
    (find_first_block_at_or_after_timestamp source 10 100 61_000 0).0 ≡ ok (some (chain 31))
unfolding find_first_block_at_or_after_timestamp
search_run = refl

find_first_block_lem_example :
    ((10 ≤ 100)
      × (61_000 ≤ (chain 100).timestamp_ms)
      × ((n : ℕ) × (t' : ℕ) × (find_first_block_at_or_after_timestamp source 10 100 61_000 0
            ≡ (ok (some (chain n)), t'))
          × IsFirst chain 10 100 61_000 n))
    ⊎ (((100 < 10) ⊎ ((chain 100).timestamp_ms < 61_000))
        × ((find_first_block_at_or_after_timestamp source 10 100 61_000 0).0 ≡ ok none))
find_first_block_lem_example = find_first_block_lem source chain source-IsSteady 10 100 61_000 0
