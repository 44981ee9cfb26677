-- ===== src/Canary/Store/Tests.antt =====
-- src/canary/store.ts at concrete calls: a buy that is reserved, signed, submitted and included.
use sentry_forensic_gate.Base.{
  ◌≡◌, ◌≢◌, ◌≤◌, ◌⊎◌, refl, true, false, none, some, List, [], ◌∷◌, text_eq, to_lower_case, any,
}
use sentry_forensic_gate.Base.Result.{ok, err}
use sentry_forensic_gate.Canary.Types.{
  CanaryActionRecord, pass, reserved, included, action_identity_conflict,
}
use sentry_forensic_gate.Canary.Store.{
  after, mark_submitted, mark_included, mark_safe_halt, Rows, Call, inserts, signs, submits,
  includes, halts, after_all, insert, mark_signed, get_action, SignedTransaction,
  count_committed_buys, collides, is_committed_buy, same_hash, stored, inserted, duplicate,
  buy_limit,
}
use sentry_forensic_gate.Canary.Store.Constraints.{IsKeyed}
use sentry_forensic_gate.Canary.Store.OneBuy.{one_buy}
use sentry_forensic_gate.Canary.Store.History.{never_signed_twice, after_all-Evolves}
use sentry_forensic_gate.Canary.Store.Lifecycle.{Evolves}
use sentry_forensic_gate.Canary.Store.Insertion.{insert_reservation, insert_lem, insert_again}

abbrev buy : CanaryActionRecord
buy = record {
  action_id = 1 ∷ [];
  launch_id = 11 ∷ [];
  baseline_id = 21 ∷ [];
  decision = pass;
  reasons = [];
  state = reserved;
  origin_decision_block = 100;
  origin_decision_block_hash = b'A' ∷ [];
  intent = none;
  nonce = none;
  transaction_hash = none;
  serialized_transaction = none;
  last_error = none;
  output_balance_before = some 0;
  output_balance_after = none;
  created_at_ms = 1000;
  updated_at_ms = 1000;
}

abbrev second_buy : CanaryActionRecord
second_buy = record buy { action_id = 2 ∷ []; launch_id = 12 ∷ []; created_at_ms = 2000 }

abbrev tx : SignedTransaction
tx = record { nonce = 0; transaction_hash = b'F' ∷ []; serialized_transaction = 9 ∷ [] }

abbrev history : List Call
history =
    inserts buy
    ∷ signs (1 ∷ []) tx 1001
    ∷ inserts second_buy
    ∷ submits (1 ∷ []) 1002
    ∷ includes (1 ∷ []) 55 1003
    ∷ halts (1 ∷ []) [] 1004
    ∷ []

abbrev reserved_rows : Rows
reserved_rows = stored buy ∷ []

-- Two buys race: one row comes of it, and the later halt of the included buy changes nothing.
history_run :
    after_all history []
    ≡ record (stored buy) {
      state = included;
      nonce = some 0;
      transaction_hash = some (b'f' ∷ []);
      serialized_transaction = some (9 ∷ []);
      output_balance_after = some 55;
      updated_at_ms = 1003;
    }
      ∷ []
unfolding after_all after insert mark_signed mark_submitted mark_included mark_safe_halt
    is_committed_buy same_hash text_eq to_lower_case
history_run = refl

second_buy_limit : (insert second_buy reserved_rows).0 ≡ ok buy_limit
unfolding insert is_committed_buy same_hash text_eq to_lower_case
second_buy_limit = refl

-- Another action for the launch of a row that is there is refused by a throw.
launch_conflict :
    (insert (record second_buy { launch_id = 11 ∷ [] }) reserved_rows).0
    ≡ err (action_identity_conflict (11 ∷ []))
unfolding insert is_committed_buy same_hash text_eq to_lower_case
launch_conflict = refl

one_buy_example : (count_committed_buys (after_all history []) ≤ 1) × IsKeyed (after_all history [])
one_buy_example = one_buy history

never_signed_twice_example :
    (mark_signed
      (1 ∷ [])
      tx
      5
      (after_all (submits (1 ∷ []) 4 ∷ []) (mark_signed (1 ∷ []) tx 3 reserved_rows).1)).0
    ≢ ok tt
unfolding mark_signed same_hash text_eq to_lower_case
never_signed_twice_example =
    never_signed_twice (1 ∷ []) tx tx 3 5 reserved_rows (submits (1 ∷ []) 4 ∷ []) (refl, tt) refl

after_all-Evolves_example :
    (r : CanaryActionRecord) × (get_action (1 ∷ []) (after_all history reserved_rows) ≡ some r)
    × Evolves (stored buy) r
unfolding get_action text_eq
after_all-Evolves_example = after_all-Evolves (1 ∷ []) history reserved_rows (stored buy) refl

insert_reservation_example : insert second_buy reserved_rows ≡ (ok buy_limit, reserved_rows)
unfolding text_eq is_committed_buy count_committed_buys
insert_reservation_example = insert_reservation second_buy reserved_rows refl refl refl

insert_lem_example :
    (((insert buy []).0 ≡ ok inserted)
      × ((insert buy []).1 ≡ stored buy ∷ [])
      × (any (λ row. collides row (stored buy)) [] ≡ false))
    ⊎ (((insert buy []).0 ≢ ok inserted)
        × ((insert buy []).1 ≡ [])
        × (any (λ row. collides row (stored buy)) [] ≡ true))
insert_lem_example = insert_lem buy []

insert_again_example : insert buy (insert buy []).1 ≡ (ok duplicate, (insert buy []).1)
unfolding insert
insert_again_example = insert_again buy [] refl
