-- ===== src/Canary/EntryApprovalRuntime/Tests.antt =====
-- src/canary/entryApprovalRuntime.ts on a store whose approval is included.
use sentry_forensic_gate.Base.{◌≡◌, refl, true, none, [], ◌∷◌, text_eq}
use sentry_forensic_gate.Base.Result.{ok}
use sentry_forensic_gate.Canary.SwapIntent.{ink_swap_router_02}
use sentry_forensic_gate.Canary.EntryApproval.{weth9, assert_covers_buy}
use sentry_forensic_gate.Canary.EntryApproval.Tests.{platform, coder, buy}
use sentry_forensic_gate.Canary.EntryApprovalStore.Record.{EntryRecord}
use sentry_forensic_gate.Canary.EntryApprovalStore.{get_committed}
use sentry_forensic_gate.Canary.EntryApprovalStore.Tests.{one_included}
use sentry_forensic_gate.Canary.Executor.Tests.{viem, caps, chain, asked, network}
use sentry_forensic_gate.Canary.Executor.Calls.{fresh_executor}
use sentry_forensic_gate.Canary.EntryApprovalRuntime.{Runtime, World, reconcile_entry_approval}
use sentry_forensic_gate.Canary.EntryApprovalRuntime.Execute.{advance_canary_e0_entry_approval}
use sentry_forensic_gate.Canary.EntryApprovalRuntime.Ready.{IsCovered, advance-IsCovered}

abbrev run : Runtime
run = record {
  platform = platform;
  coder = coder;
  viem = viem;
  wallet = 8 ∷ [];
  caps = caps;
  chain = record {
    preflight = asked;
    signing = chain;
    network = network;
    receipt = λ hash. ok none;
    token_allowance = λ token spender. ok 1_000;
  };
  now = 9;
  fresh = 9 ∷ [];
  message = λ e. [];
  le_text = λ a b. true;
}

abbrev world : World
world = record { store = one_included; executor = fresh_executor }

advance-IsCovered_example :
    (a : EntryRecord) × IsCovered run buy world a
    × ((advance_canary_e0_entry_approval run buy world).1 ≡ world)
unfolding advance_canary_e0_entry_approval reconcile_entry_approval get_committed assert_covers_buy
    text_eq weth9 ink_swap_router_02
advance-IsCovered_example = advance-IsCovered run buy world refl
