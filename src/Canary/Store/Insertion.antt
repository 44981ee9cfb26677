-- ===== src/Canary/Store/Insertion.antt =====
-- What `insert` of src/canary/store.ts answers: the index of committed buys is the buy limit.
use sentry_forensic_gate.Base.{
  ◌≡◌, ◌≢◌, ◌⊎◌, refl, inl, inr, Bool, true, false, ◌||◌, Option, none, some, [], ◌∷◌, ◌++◌, arith,
  Text, text_eq, text_eq_refl, any, find, count, leb, Bool-cases, if◌then◌else◌,
}
use sentry_forensic_gate.Base.Result.{ok}
use sentry_forensic_gate.Canary.Types.{CanaryActionRecord}
use sentry_forensic_gate.Canary.Store.{
  Rows, has_id, collides, same_hash, is_committed_buy, count_committed_buys, stored, insert,
  classify_ignored, inserted, duplicate, buy_limit,
}

-- The test by which `insert` looks for the row that stood in its way.
abbrev same_identity : CanaryActionRecord → CanaryActionRecord → Bool
same_identity r row = has_id r.action_id row || text_eq row.launch_id r.launch_id

find_nothing :
    (p : CanaryActionRecord → Bool) (rows : Rows) → any p rows ≡ false → find p rows ≡ none
find_nothing p [] h = refl
find_nothing p (x ∷ rows) h = ground (arith, find_nothing p rows)

no_hash : (a : Option Text) → same_hash a none ≡ false
unfolding same_hash
no_hash none = refl
no_hash (some a) = refl

stored_buy : (r : CanaryActionRecord) → is_committed_buy (stored r) ≡ is_committed_buy r
unfolding is_committed_buy
stored_buy r = refl

collides_fresh :
    (r : CanaryActionRecord) (rows : Rows)
    → r.transaction_hash ≡ none
    → any (same_identity r) rows ≡ false
    → is_committed_buy r ≡ true
    → any (λ row. collides row (stored r)) rows ≡ leb 1 (count is_committed_buy rows)
unfolding collides
collides_fresh r [] n h c = refl
collides_fresh r (x ∷ rows) n h c =
    ground (arith, collides_fresh r rows n, no_hash x.transaction_hash, stored_buy r)

-- A reservation of a new action and launch that bears no hash yet is inserted as it is stored, if
-- no buy is committed, and is told BUY_LIMIT, with the table unchanged, if one is: the answer that
-- the runtime gives for two runtimes that race for the one buy.
pub insert_reservation :
    (r : CanaryActionRecord) (rows : Rows)
    → r.transaction_hash ≡ none
    → any (same_identity r) rows ≡ false
    → is_committed_buy r ≡ true
    → insert r rows ≡ (
        if leb 1 (count_committed_buys rows)
        then (ok buy_limit, rows)
        else (ok inserted, rows ++ stored r ∷ []))
unfolding insert count_committed_buys
insert_reservation r rows n h c =
    ground (arith, collides_fresh r rows n h c, find_nothing (same_identity r) rows h)

classify_ignored-ne-inserted :
    (r : CanaryActionRecord) (rows : Rows) → classify_ignored r rows ≢ ok inserted
unfolding classify_ignored
classify_ignored-ne-inserted r rows h = ground arith

-- Only an answer INSERTED changes the table, and it appends the one row; a row that collides with
-- no row is always inserted.
pub insert_lem :
    (r : CanaryActionRecord) (rows : Rows)
    → (((insert r rows).0 ≡ ok inserted)
        × ((insert r rows).1 ≡ rows ++ stored r ∷ [])
        × (any (λ row. collides row (stored r)) rows ≡ false))
      ⊎ (((insert r rows).0 ≢ ok inserted)
          × ((insert r rows).1 ≡ rows)
          × (any (λ row. collides row (stored r)) rows ≡ true))
unfolding insert
insert_lem r rows = elim (Bool-cases (any (λ row. collides row (stored r)) rows)) [
  | inl h ↦ inr (rw h (classify_ignored-ne-inserted r rows), rw h refl, h)
  | inr h ↦ inl (rw h refl, rw h refl, h)
]

find_first :
    (p : CanaryActionRecord → Bool) (rows : Rows) (s : CanaryActionRecord)
    → any p rows ≡ false
    → p s ≡ true
    → find p (rows ++ s ∷ []) ≡ some s
find_first p [] s h k = rw k
find_first p (x ∷ rows) s h k = ground (arith, find_first p rows s)

any_last :
    (p : CanaryActionRecord → Bool) (rows : Rows) (s : CanaryActionRecord)
    → p s ≡ true
    → any p (rows ++ s ∷ []) ≡ true
any_last p [] s k = rw k
any_last p (x ∷ rows) s k = ground (arith, any_last p rows s k)

new_identity :
    (r : CanaryActionRecord) (rows : Rows)
    → any (λ row. collides row (stored r)) rows ≡ false
    → any (same_identity r) rows ≡ false
unfolding collides
new_identity r [] h = refl
new_identity r (x ∷ rows) h = ground (arith, new_identity r rows)

collides_self : (r : CanaryActionRecord) → collides r r ≡ true
unfolding collides
collides_self r = rw (text_eq_refl r.action_id)

again :
    (r : CanaryActionRecord) (rows : Rows)
    → any (λ row. collides row (stored r)) rows ≡ false
    → insert r (rows ++ stored r ∷ []) ≡ (ok duplicate, rows ++ stored r ∷ [])
unfolding insert
again r rows h = ground (
  arith,
  any_last (λ row. collides row (stored r)) rows (stored r) (collides_self (stored r)),
  find_first (same_identity r) rows (stored r) (new_identity r rows h),
  text_eq_refl r.action_id,
  text_eq_refl r.baseline_id,
)

-- An insert that is made again, as after a restart, answers DUPLICATE and changes nothing.
pub insert_again :
    (r : CanaryActionRecord) (rows : Rows)
    → (insert r rows).0 ≡ ok inserted
    → insert r (insert r rows).1 ≡ (ok duplicate, (insert r rows).1)
insert_again r rows h = elim (insert_lem r rows) [
  | inl (_, e, fresh) ↦ rw e (again r rows fresh)
  | inr (ne, _, _) ↦ absurd (ne h)
]
