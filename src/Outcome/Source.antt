-- ===== src/Outcome/Source.antt =====
-- src/outcome/ports.ts: the chain that the forward outcomes read. A call may throw, and a later
-- call may answer otherwise, as when the chain is reorganised: each answer is a function of the
-- number of calls before it, which a computation passes along.
use sentry_forensic_gate.Base.{ℕ, suc, Bool, Option, Text}
use sentry_forensic_gate.Base.Result
use sentry_forensic_gate.Base.Result.{Result, ok, err}
use sentry_forensic_gate.Shadow.Baseline.{LaunchMarket}

pub record OutcomeBlockPoint : Type 0 where
  pub block_number : ℕ
  pub block_hash : Text
  pub timestamp_ms : ℕ

pub record OutcomeExitQuote : Type 0 where
  pub executable : Bool
  pub amount_out : ℕ
  pub failure_reason : Option Text

-- What the forward outcomes throw. `provider_failure` is any throw of a call of the source but
-- `valuation_unavailable`, the one whose message begins OUTCOME_USD_VALUATION_UNAVAILABLE.
pub data OutcomeError : Type 0 where
  provider_failure valuation_unavailable : Text → OutcomeError
  baseline_launch_mismatch primary_leg_missing launch_missing : Text → OutcomeError
  epoch_unauthorized invalid_horizon : ℕ → OutcomeError
  launch_reorg baseline_reorg reorg_during_boundary_read reorg_during_read : ℕ → OutcomeError
  horizon_before_target horizon_nonminimal : ℕ → OutcomeError
  -- no throw of the program: the model's fuel ran out
  out_of_fuel : OutcomeError

pub record ForwardOutcomeSource : Type 0 where
  pub get_block_point : ℕ → ℕ → Result OutcomeError OutcomeBlockPoint
  pub assert_market_authority : ℕ → LaunchMarket → ℕ → Result OutcomeError (Unit {0})
  -- `readMarketState(…).activeLiquidity`
  pub read_active_liquidity : ℕ → LaunchMarket → ℕ → Result OutcomeError ℕ
  -- the market, the amount of tokens and the block
  pub quote_token_to_base : ℕ → LaunchMarket → ℕ → ℕ → Result OutcomeError OutcomeExitQuote
  -- the base token, its amount and the block
  pub value_base_amount_usd_micros : ℕ → Text → ℕ → ℕ → Result OutcomeError ℕ

-- A computation that calls the source, on the number of calls made so far.
abbrev pub Reads : Type 0 → Type 0
Reads A = ℕ → Result OutcomeError A × ℕ

infixl 5 ◌>>=◌ ◌>>◌
abbrev pub ◌>>=◌ : {A B : Type 0} → Reads A → (A → Reads B) → Reads B
◌>>=◌ m f t = let (r, t') = m t in elim r [ ok a ↦ f a t' | err e ↦ (err e, t') ]

abbrev pub ◌>>◌ : {A B : Type 0} → Reads A → Reads B → Reads B
m >> k = m >>= λ _. k

abbrev pub pure : {A : Type 0} → A → Reads A
pure a t = (ok a, t)

abbrev pub throw : {A : Type 0} → OutcomeError → Reads A
throw e t = (err e, t)

abbrev pub throw_if : Bool → OutcomeError → Reads (Unit {0})
throw_if bad e t = (Result.throw_if bad e, t)

-- One call.
abbrev pub call : {A : Type 0} → (ℕ → Result OutcomeError A) → Reads A
call f t = (f t, suc t)
