-- ===== src/Ledger/Tests.antt =====
-- src/db/memoryStore.ts at a small ledger: two launches, a fact, an outcome, and a rewind.
use sentry_forensic_gate.Base.{
  ◌≡◌, refl, none, List, [], ◌∷◌, Text, length, text_eq, to_lower_case, sort_by,
}
use sentry_forensic_gate.Base.Result.{ok, err}
use sentry_forensic_gate.Domain.{LaunchObserved, standard, token_deployed}
use sentry_forensic_gate.Receipts.{ProvenanceFact}
use sentry_forensic_gate.Evidence.Canonical.{Json}
use sentry_forensic_gate.Ledger.{
  Call, puts_launch, puts_provenance_fact, commits_checkpoint, rewinds_from_block, empty_store,
  put_launch, put_provenance_fact, rewind_from_block, after, commit_checkpoint, after_all,
  duplicate, provenance_launch_missing,
}
use sentry_forensic_gate.Ledger.Rewind.{IsBelow, rewind_from_block-IsBelow, rewind_from_block-fixed}
use sentry_forensic_gate.Ledger.Consistent.{IsConsistent}
use sentry_forensic_gate.Ledger.Calls.{after_all-IsConsistent}
use sentry_forensic_gate.Ledger.Replay.{put_launch-SameLaunch}
use sentry_forensic_gate.Ledger.Queries.{list_launches_pending_baseline}
use sentry_forensic_gate.Ledger.Pending.{IsFirst, list_launches_pending_baseline-IsFirst}

abbrev stringify : Json → Text
stringify value = []

abbrev early : LaunchObserved
early = record {
  chain_id = 57073;
  block_number = 100;
  block_hash = b'A' ∷ [];
  observed_at_ms = 5;
  launch_id = 1 ∷ [];
  event_id = 2 ∷ [];
  factory = b'B' ∷ [];
  tx_hash = b'C' ∷ [];
  log_index = 0;
  token = b'D' ∷ [];
  creator = b'E' ∷ [];
  token_id = 7;
  name = [];
  symbol = [];
  launch_type = standard;
  source_event = token_deployed;
}

abbrev late : LaunchObserved
late = record early { launch_id = 3 ∷ []; tx_hash = b'F' ∷ []; block_number = 200 }

abbrev fact : ProvenanceFact
fact = record {
  fact_id = 9 ∷ [];
  chain_id = 57073;
  launch_id = 3 ∷ [];
  creator = b'e' ∷ [];
  observed_block = 200;
  observed_block_hash = b'a' ∷ [];
  log_index = 0;
  source_event_id = 2 ∷ [];
  evidence_digest = 4 ∷ [];
}

abbrev calls : List Call
calls =
    puts_launch early
    ∷ puts_launch late
    ∷ puts_provenance_fact fact
    ∷ commits_checkpoint (record {
      block_number = 210;
      block_hash = [];
      guard_block_number = none;
      guard_block_hash = none;
    })
    ∷ rewinds_from_block 150
    ∷ []

-- The rewind drops the late launch, its fact and the checkpoint: the early launch is left.
rewound : length (after_all stringify calls empty_store).launches ≡ 1
unfolding after_all after rewind_from_block commit_checkpoint put_provenance_fact put_launch text_eq
    to_lower_case
rewound = refl

orphan_refused : (put_provenance_fact fact empty_store).0 ≡ err (provenance_launch_missing (3 ∷ []))
unfolding put_provenance_fact
orphan_refused = refl

rewind_from_block-IsBelow_example :
    IsBelow 150 (rewind_from_block 150 (put_launch stringify late empty_store).1)
rewind_from_block-IsBelow_example =
    rewind_from_block-IsBelow 150 (put_launch stringify late empty_store).1

rewind_from_block-fixed_example :
    rewind_from_block 150 (put_launch stringify early empty_store).1
    ≡ (put_launch stringify early empty_store).1
unfolding put_launch
rewind_from_block-fixed_example =
    rewind_from_block-fixed 150 (put_launch stringify early empty_store).1 (record {
      launches = refl;
      facts = refl;
      edges = refl;
      sourced = refl;
      decisions = refl;
      entries = refl;
      exits = refl;
      outcomes = refl;
      baselines = refl;
      checkpoint = refl;
    })

after_all-IsConsistent_example : IsConsistent (after_all stringify calls empty_store)
after_all-IsConsistent_example = after_all-IsConsistent stringify calls

put_launch-SameLaunch_example :
    put_launch stringify
      (record early { observed_at_ms = 90; token = b'd' ∷ [] })
      (put_launch stringify early empty_store).1
    ≡ (ok duplicate, (put_launch stringify early empty_store).1)
unfolding put_launch to_lower_case
put_launch-SameLaunch_example =
    put_launch-SameLaunch stringify early (record early { observed_at_ms = 90; token = b'd' ∷ [] })
      empty_store refl refl

list_launches_pending_baseline-IsFirst_example :
    IsFirst
      (put_launch stringify early empty_store).1
      150
      10
      (list_launches_pending_baseline (put_launch stringify early empty_store).1 150 10)
list_launches_pending_baseline-IsFirst_example =
    list_launches_pending_baseline-IsFirst (put_launch stringify early empty_store).1 150 10

-- The launch is pending up to its block, and not before.
lists_early :
    list_launches_pending_baseline (put_launch stringify early empty_store).1 100 10
    ≡ (put_launch stringify early empty_store).1.launches
unfolding put_launch list_launches_pending_baseline sort_by
lists_early = refl
