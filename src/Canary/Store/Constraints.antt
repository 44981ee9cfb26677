-- ===== src/Canary/Store/Constraints.antt =====
-- The constraints of `canary_actions` in src/canary/store.ts: every call keeps them, and they leave
-- room for one committed buy.
use sentry_forensic_gate.Base.{
  ◌≤◌, ◌≡◌, refl, Bool, true, false, ◌&&◌, not, some, [], ◌∷◌, ◌++◌, arith, Text, text_eq_iff, any,
  find, update_where, any-append, count-any-false, update_where-none,
}
use sentry_forensic_gate.Canary.Types.{CanaryActionRecord, CanaryActionState}
use sentry_forensic_gate.Canary.Store.{
  Rows, collides, has_id, is_committed_buy, count_committed_buys,
}

-- No two rows are kept apart by a constraint.
abbrev pub IsKeyed : Rows → Type 0
IsKeyed [] = Unit
IsKeyed (r ∷ rows) = (any (collides r) rows ≡ false) × IsKeyed rows

pub append-IsKeyed :
    (rows : Rows) (s : CanaryActionRecord)
    → IsKeyed rows
    → any (λ row. collides row s) rows ≡ false
    → IsKeyed (rows ++ s ∷ [])
append-IsKeyed [] s v h = (refl, tt)
append-IsKeyed (r ∷ rows) s v h =
    ground (arith, any-append (collides r) rows (s ∷ []), append-IsKeyed rows s v.1)

no_other_buy :
    (r : CanaryActionRecord) (rows : Rows)
    → any (collides r) rows ≡ false
    → is_committed_buy r ≡ true
    → any is_committed_buy rows ≡ false
unfolding collides
no_other_buy r [] h k = refl
no_other_buy r (x ∷ rows) h k = ground (arith, no_other_buy r rows)

-- The index of committed buys admits one.
pub count_committed_buys-le : (rows : Rows) → IsKeyed rows → count_committed_buys rows ≤ 1
unfolding count_committed_buys
count_committed_buys-le [] v = omega arith
count_committed_buys-le (r ∷ rows) v = ground (
  arith,
  count_committed_buys-le rows v.1,
  count-any-false is_committed_buy rows,
  no_other_buy r rows v.0,
)

module _ (id : Text) (g : CanaryActionState → Bool) where
  -- The rows that an UPDATE changes: the one with the id, if its state passes.
  abbrev pub matches : CanaryActionRecord → Bool
  matches r = has_id id r && g r.state

  pub matches_once :
      (r : CanaryActionRecord) (rows : Rows)
      → any (collides r) rows ≡ false
      → has_id id r ≡ true
      → any (has_id id) rows ≡ false
  unfolding collides
  matches_once r [] h k = refl
  matches_once r (x ∷ rows) h k = ground (
    arith,
    matches_once r rows,
    text_eq_iff r.action_id id,
    text_eq_iff x.action_id id,
    text_eq_iff r.action_id x.action_id,
  )

  pub update_where-absent :
      (f : CanaryActionRecord → CanaryActionRecord) (rows : Rows)
      → any (has_id id) rows ≡ false
      → update_where matches f rows ≡ rows
  update_where-absent f [] h = refl
  update_where-absent f (x ∷ rows) h = ground (arith, update_where-absent f rows)

  -- A lookup of the row with the id says which row an UPDATE changes.
  pub update_where-found :
      (f : CanaryActionRecord → CanaryActionRecord) (rows : Rows) (row : CanaryActionRecord)
      → IsKeyed rows
      → find (has_id id) rows ≡ some row
      → g row.state ≡ true
      → update_where (has_id id) f rows ≡ update_where matches f rows
  update_where-found f [] row v e h = refl
  update_where-found f (x ∷ rows) row v e h = ground (
    arith,
    update_where-found f rows row v.1,
    matches_once x rows v.0,
    update_where-absent f rows,
    update_where-none (has_id id) f rows,
  )

  module _ (f : CanaryActionRecord → CanaryActionRecord) (q : CanaryActionRecord → Bool) where
    -- `f` brings no collision to a row that it changes, but with the rows that `q` names.
    abbrev pub IsTame : Type 0
    IsTame =
        (r x : CanaryActionRecord)
        → matches r ≡ true
        → q x ≡ false
        → ((collides r x ≡ false → collides (f r) x ≡ false)
            × (collides x r ≡ false → collides x (f r) ≡ false))

    any-collides-changed :
        (r : CanaryActionRecord) (rows : Rows)
        → IsTame
        → matches r ≡ true
        → any (has_id id) rows ≡ false
        → any (λ x. not (matches x) && q x) rows ≡ false
        → any (collides r) rows ≡ false
        → any (collides (f r)) rows ≡ false
    any-collides-changed r [] tame m a d h = refl
    any-collides-changed r (x ∷ rows) tame m a d h =
        ground (arith, any-collides-changed r rows tame, tame r x)

    any-collides-update :
        (r : CanaryActionRecord) (rows : Rows)
        → IsTame
        → q r ≡ false
        → any (collides r) rows ≡ false
        → any (collides r) (update_where matches f rows) ≡ false
    any-collides-update r [] tame d h = refl
    any-collides-update r (x ∷ rows) tame d h =
        ground (arith, any-collides-update r rows tame, tame x r)

    -- A tame UPDATE keeps the constraints.
    pub update_where-IsKeyed :
        (rows : Rows)
        → IsTame
        → any (λ x. not (matches x) && q x) rows ≡ false
        → IsKeyed rows
        → IsKeyed (update_where matches f rows)
    update_where-IsKeyed [] tame d v = tt
    update_where-IsKeyed (r ∷ rows) tame d v = ground (
      arith,
      update_where-IsKeyed rows tame,
      matches_once r rows v.0,
      update_where-absent f rows,
      any-collides-changed r rows tame,
      any-collides-update r rows tame,
    )
