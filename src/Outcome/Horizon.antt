-- ===== src/Outcome/Horizon.antt =====
-- `findFirstBlockAtOrAfterTimestamp` of src/runtime/forwardOutcomes.ts: a binary search.
pub mod First
mod Tests
use sentry_forensic_gate.Base.{
  ℕ, zero, suc, ◌+◌, ◌-◌, ◌/◌, Bool, true, false, Option, none, some, ltb, leb, ◌==◌, if◌then◌else◌,
}
use sentry_forensic_gate.Base.Result.{Result, ok, err}
use sentry_forensic_gate.Outcome.Source.{
  OutcomeBlockPoint, ForwardOutcomeSource, out_of_fuel, Reads, ◌>>=◌, ◌>>◌, pure, throw, call,
}

module _ (source : ForwardOutcomeSource) (high_block : ℕ) (high_point : OutcomeBlockPoint)
    (target_timestamp_ms : ℕ) where
  -- `mid === highBlock ? highPoint : await source.getBlockPoint(mid)`
  unfoldable pub read_mid : ℕ → Reads OutcomeBlockPoint
  read_mid mid =
      if mid == high_block then pure high_point else call (λ t. source.get_block_point t mid)

  -- The while loop over `low`, `high` and `answer`.
  unfoldable pub search_loop : ℕ → ℕ → ℕ → OutcomeBlockPoint → Reads OutcomeBlockPoint
  search_loop zero low high answer = throw out_of_fuel
  search_loop (suc fuel) low high answer =
      let mid = low + (high - low) / 2 in
      let round = read_mid mid >>= λ point.
      let left = search_loop fuel low (mid - 1) point in
      let right = search_loop fuel (mid + 1) high answer in
      if leb target_timestamp_ms point.timestamp_ms
      then (if mid == 0 then pure point else left)
      else right in
      if leb low high then round else pure answer

-- The interval shrinks in every round, so its length and two rounds more are enough.
unfoldable pub find_first_block_at_or_after_timestamp :
    ForwardOutcomeSource → ℕ → ℕ → ℕ → Reads (Option OutcomeBlockPoint)
unfolding search_loop read_mid
find_first_block_at_or_after_timestamp source low_block high_block target_timestamp_ms =
    let search = do
      high_point ← call (λ t. source.get_block_point t high_block)
      let found = do
        answer ←
            search_loop source high_block high_point target_timestamp_ms
              (high_block + 2 - low_block) low_block high_block high_point
        pure (some answer)
      if ltb high_point.timestamp_ms target_timestamp_ms then pure none else found
    in if ltb high_block low_block then pure none else search
