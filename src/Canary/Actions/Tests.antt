-- ===== src/Canary/Actions/Tests.antt =====
-- The action tables of src/canary at one row, over a `keccak256` that changes nothing.
use sentry_forensic_gate.Base.{
  ℕ, ◌≡◌, refl, Bool, true, none, some, List, [], ◌∷◌, Text, text_eq, find,
}
use sentry_forensic_gate.Base.Result.{Result, ok}
use sentry_forensic_gate.Canary.Types.{reserved}
use sentry_forensic_gate.Canary.Actions.{ActionRow, ActionError, has_id}
use sentry_forensic_gate.Canary.Actions.Lifecycle.{
  Call, signs, submits, halts, includes, cleans, after_all, Follows, after_all-Follows,
}

abbrev same : Text → Text
same s = s

abbrev unique : ℕ → ℕ → Bool
unique _ _ = true

abbrev accepts : ℕ → ℕ → Result ActionError ℕ
accepts p observed = ok observed

abbrev zeroed : ℕ → ℕ
zeroed p = 0

abbrev row : ActionRow ℕ
row = record {
  action_id = 1 ∷ [];
  state = reserved;
  nonce = none;
  transaction_hash = none;
  serialized_transaction = none;
  last_error = none;
  created_at_ms = 1;
  updated_at_ms = 1;
  payload = 0;
}

abbrev calls : List (Call ℕ)
calls =
    signs (1 ∷ [])
      (record { nonce = 4; transaction_hash = b'A' ∷ []; serialized_transaction = b'a' ∷ [] }) 2
    ∷ submits (1 ∷ []) 3
    ∷ halts (1 ∷ []) (b'x' ∷ []) 4
    ∷ includes (1 ∷ []) 7 5
    ∷ cleans (1 ∷ []) (b'c' ∷ []) 6
    ∷ []

after_all-Follows_example :
    (r' : ActionRow ℕ) × (find
        (has_id (1 ∷ []))
        (after_all same unique accepts zeroed calls (row ∷ []))
      ≡ some r')
    × Follows same unique accepts zeroed row r'
unfolding text_eq
after_all-Follows_example =
    after_all-Follows same unique accepts zeroed calls (1 ∷ []) (row ∷ []) row refl
