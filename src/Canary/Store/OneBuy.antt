-- ===== src/Canary/Store/OneBuy.antt =====
-- Whatever calls of src/canary/store.ts come, in whatever order: one committed buy at most.
use sentry_forensic_gate.Base.{
  ℕ, ◌≤◌, ◌≡◌, refl, inl, inr, Bool, true, false, ◌&&◌, not, Option, none, some, List, [], ◌∷◌,
  arith, Text, text_eq_iff, any, find, update_where, update_where-none, to_lower_case, Option-cases,
}
use sentry_forensic_gate.Canary.Types.{
  CanaryActionRecord, CanaryActionState, skipped, reserved, signed, submitted, state_eq,
}
use sentry_forensic_gate.Canary.Store.{
  Rows, collides, has_id, is_committed_buy, is_unresolved, is_reconcilable, same_hash, stored,
  count_committed_buys, insert, mark_signed, mark_submitted, mark_safe_halt, mark_included,
  mark_reverted, signed_with, halted, included_with, reverted_at, SignedTransaction, Call, inserts,
  signs, submits, halts, includes, reverts, after, after_all,
}
use sentry_forensic_gate.Canary.Store.Constraints.{
  IsKeyed, IsTame, matches, append-IsKeyed, update_where-found, update_where-IsKeyed,
  count_committed_buys-le,
}

any_none :
    (p : CanaryActionRecord → Bool) (rows : Rows) → any (λ x. not (p x) && false) rows ≡ false
any_none p [] = refl
any_none p (x ∷ rows) = ground (arith, any_none p rows)

-- Between states that are not SKIPPED a row stays in or out of the index.
same_buy :
    (r r' : CanaryActionRecord)
    → r'.decision ≡ r.decision
    → state_eq r.state skipped ≡ false
    → state_eq r'.state skipped ≡ false
    → is_committed_buy r' ≡ is_committed_buy r
unfolding is_committed_buy
same_buy r r' d h k = rw (d, h, k)

module _ (id : Text) (g : CanaryActionState → Bool)
    (f : CanaryActionRecord → CanaryActionRecord) where
  -- A change of the state, the results and the times alone.
  abbrev IsStateChange : Type 0
  IsStateChange =
      (r : CanaryActionRecord)
      → g r.state ≡ true
      → ((f r).action_id ≡ r.action_id)
        × ((f r).launch_id ≡ r.launch_id)
        × ((f r).transaction_hash ≡ r.transaction_hash)
        × ((f r).decision ≡ r.decision)
        × (state_eq r.state skipped ≡ false)
        × (state_eq (f r).state skipped ≡ false)

  state_change_tame : IsStateChange → IsTame id g f (λ x. false)
  unfolding collides
  state_change_tame c r x m d =
      let (a, l, t, dec, s, s') = c r (ground arith) in
      let buy = same_buy r (f r) dec s s' in (λ h. rw (buy, a, l, t) h, λ h. rw (buy, a, l, t) h)

  state_change-IsKeyed :
      (rows : Rows) → IsStateChange → IsKeyed rows → IsKeyed (update_where (matches id g) f rows)
  state_change-IsKeyed rows c v =
      update_where-IsKeyed id g f (λ x. false) rows (state_change_tame c)
        (any_none (matches id g) rows) v

  -- The same after a lookup, as the calls write it.
  guarded-IsKeyed :
      (rows : Rows) (row : CanaryActionRecord)
      → IsStateChange
      → IsKeyed rows
      → find (has_id id) rows ≡ some row
      → g row.state ≡ true
      → IsKeyed (update_where (has_id id) f rows)
  guarded-IsKeyed rows row c v e h =
      rw (update_where-found id g f rows row v e h) (state_change-IsKeyed rows c v)

insert-IsKeyed : (r : CanaryActionRecord) (rows : Rows) → IsKeyed rows → IsKeyed (insert r rows).1
unfolding insert
insert-IsKeyed r rows v = ground (arith, append-IsKeyed rows (stored r) v)

mark_submitted-IsKeyed :
    (id : Text) (now : ℕ) (rows : Rows) → IsKeyed rows → IsKeyed (mark_submitted id now rows).1
unfolding mark_submitted
mark_submitted-IsKeyed id now rows v =
    state_change-IsKeyed id (λ s. state_eq s signed)
      (λ r. record r { updated_at_ms = now; state = submitted }) rows
      (λ r h. (refl, refl, refl, refl, ground arith, refl)) v

mark_safe_halt-IsKeyed :
    (id error : Text) (now : ℕ) (rows : Rows)
    → IsKeyed rows
    → IsKeyed (mark_safe_halt id error now rows).1
unfolding mark_safe_halt
mark_safe_halt-IsKeyed id error now rows v = elim (Option-cases (find (has_id id) rows)) [
  | inl e ↦ ground arith
  | inr (row, e) ↦ ground (
    arith,
    guarded-IsKeyed id is_unresolved (halted error now) rows row
        (λ r k. (refl, refl, refl, refl, ground arith, refl)) v e,
  )
]

mark_included-IsKeyed :
    (id : Text) (balance now : ℕ) (rows : Rows)
    → IsKeyed rows
    → IsKeyed (mark_included id balance now rows).1
unfolding mark_included
mark_included-IsKeyed id balance now rows v = elim (Option-cases (find (has_id id) rows)) [
  | inl e ↦ ground arith
  | inr (row, e) ↦ ground (
    arith,
    guarded-IsKeyed id is_reconcilable (included_with balance now) rows row
        (λ r k. (refl, refl, refl, refl, ground arith, refl)) v e,
  )
]

mark_reverted-IsKeyed :
    (id : Text) (now : ℕ) (rows : Rows) → IsKeyed rows → IsKeyed (mark_reverted id now rows).1
unfolding mark_reverted
mark_reverted-IsKeyed id now rows v = elim (Option-cases (find (has_id id) rows)) [
  | inl e ↦ ground arith
  | inr (row, e) ↦ ground (
    arith,
    guarded-IsKeyed id is_reconcilable (reverted_at now) rows row
        (λ r k. (refl, refl, refl, refl, ground arith, refl)) v e,
  )
]

-- The rows with a hash, of which the signed row must not be one.
abbrev bears : Text → CanaryActionRecord → Bool
bears hash x = same_hash x.transaction_hash (some hash)

same_hash_sym : (a b : Option Text) → same_hash a b ≡ same_hash b a
unfolding same_hash
same_hash_sym none none = refl
same_hash_sym none (some b) = refl
same_hash_sym (some a) none = refl
same_hash_sym (some a) (some b) = ground (arith, text_eq_iff a b, text_eq_iff b a)

signed_tame :
    (id : Text) (tx : SignedTransaction) (now : ℕ)
    → IsTame id
        (λ s. state_eq s reserved)
        (signed_with tx now)
        (bears (to_lower_case tx.transaction_hash))
unfolding collides
signed_tame id tx now r x m d =
    let h = some (to_lower_case tx.transaction_hash) in
    let buy = same_buy r (signed_with tx now r) refl (ground arith) refl in
    (ground (arith, buy, same_hash_sym h x.transaction_hash), ground (arith, buy))

mark_signed-IsKeyed :
    (id : Text) (tx : SignedTransaction) (now : ℕ) (rows : Rows)
    → IsKeyed rows
    → IsKeyed (mark_signed id tx now rows).1
unfolding mark_signed
mark_signed-IsKeyed id tx now rows v =
    let p = matches id (λ s. state_eq s reserved) in
    let q = bears (to_lower_case tx.transaction_hash) in
    ground (
      arith,
      update_where-IsKeyed id (λ s. state_eq s reserved) (signed_with tx now) q rows
          (signed_tame id tx now),
      update_where-none p (signed_with tx now) rows,
    )

-- Every call keeps the constraints of the table.
pub after-IsKeyed : (c : Call) (rows : Rows) → IsKeyed rows → IsKeyed (after c rows)
unfolding after
after-IsKeyed (inserts r) rows v = insert-IsKeyed r rows v
after-IsKeyed (signs id tx now) rows v = mark_signed-IsKeyed id tx now rows v
after-IsKeyed (submits id now) rows v = mark_submitted-IsKeyed id now rows v
after-IsKeyed (halts id error now) rows v = mark_safe_halt-IsKeyed id error now rows v
after-IsKeyed (includes id balance now) rows v = mark_included-IsKeyed id balance now rows v
after-IsKeyed (reverts id now) rows v = mark_reverted-IsKeyed id now rows v

pub after_all-IsKeyed : (cs : List Call) (rows : Rows) → IsKeyed rows → IsKeyed (after_all cs rows)
unfolding after_all
after_all-IsKeyed [] rows v = v
after_all-IsKeyed (c ∷ cs) rows v = after_all-IsKeyed cs (after c rows) (after-IsKeyed c rows v)

-- After any sequence of calls on an empty table at most one row is a committed buy, and no two
-- rows collide on an action, a launch or a transaction hash.
pub one_buy :
    (cs : List Call) → (count_committed_buys (after_all cs []) ≤ 1) × IsKeyed (after_all cs [])
one_buy cs = let v = after_all-IsKeyed cs [] tt in (count_committed_buys-le (after_all cs []) v, v)
