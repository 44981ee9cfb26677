-- ===== src/Canary/Store/History.antt =====
-- The rows of src/canary/store.ts over any history of calls: none is lost, none goes back, and no
-- action is signed twice.
use sentry_forensic_gate.Base.{
  count-none_of, ◌≢◌, ℕ, ◌≡◌, refl, inl, inr, subst, ◌∙◌, Bool, true, false, ◌&&◌, none, some, List,
  [], ◌∷◌, arith, Text, to_lower_case, find, count, update_where, Bool-cases, Option-cases,
  find_holds,
}
use sentry_forensic_gate.Base.Result.{ok}
use sentry_forensic_gate.Canary.Types.{
  CanaryActionRecord, CanaryActionState, reserved, signed, submitted, state_eq,
}
use sentry_forensic_gate.Canary.Store.{
  Rows, has_id, is_unresolved, is_reconcilable, stored, hash_taken, insert, mark_signed,
  mark_submitted, mark_safe_halt, mark_included, mark_reverted, signed_with, halted, included_with,
  reverted_at, SignedTransaction, get_action, Call, inserts, signs, submits, halts, includes,
  reverts, after, after_all,
}
use sentry_forensic_gate.Canary.Store.Constraints.{IsKeyed, matches, matches_once}
use sentry_forensic_gate.Canary.Store.OneBuy.{after-IsKeyed, after_all-IsKeyed}
use sentry_forensic_gate.Canary.Store.Lifecycle.{
  can_follow, Evolves, Evolves-refl, Evolves-trans, Carries, find-append, find-update_where,
  same_row,
}

module _ (id : Text) (rows : Rows) (r : CanaryActionRecord)
    (e : find (has_id id) rows ≡ some r) where
  unchanged : Carries id r rows
  unchanged = (r, e, Evolves-refl r)

  insert-Carries : (s : CanaryActionRecord) → Carries id r (insert s rows).1
  unfolding insert
  insert-Carries s = ground (arith, unchanged, find-append id rows (stored s ∷ []) r e)

  -- A guarded UPDATE of a row in one state.
  transition-Carries :
      (p : CanaryActionRecord → Bool) (f : CanaryActionRecord → CanaryActionRecord)
      → ((x : CanaryActionRecord) → (f x).action_id ≡ x.action_id)
      → (p r ≡ true → Evolves r (f r))
      → Carries id r (update_where p f rows)
  transition-Carries p f keeps ev = elim (Bool-cases (p r)) [
    | inl m ↦ (f r, find-update_where p f id rows r keeps e ∙ rw m refl, ev m)
    | inr m ↦ (r, find-update_where p f id rows r keeps e ∙ rw m refl, Evolves-refl r)
  ]

  mark_signed-Carries :
      (j : Text) (tx : SignedTransaction) (now : ℕ) → Carries id r (mark_signed j tx now rows).1
  unfolding mark_signed
  mark_signed-Carries j tx now =
      elim (Bool-cases (hash_taken j (to_lower_case tx.transaction_hash) rows)) [
        | inl h ↦ rw h unchanged
        | inr h ↦ rw h (
            transition-Carries (λ x. has_id j x && state_eq x.state reserved) (signed_with tx now)
              (λ x. refl) (λ m. ground arith))
      ]

  mark_submitted-Carries : (j : Text) (now : ℕ) → Carries id r (mark_submitted j now rows).1
  unfolding mark_submitted
  mark_submitted-Carries j now =
      transition-Carries (λ x. has_id j x && state_eq x.state signed)
        (λ x. record x { updated_at_ms = now; state = submitted }) (λ x. refl) (λ m. ground arith)

  -- An UPDATE after a lookup that found a row in a good state.
  guarded-Carries :
      (j : Text) (row : CanaryActionRecord) (g : CanaryActionState → Bool)
      (f : CanaryActionRecord → CanaryActionRecord)
      → ((x : CanaryActionRecord) → (f x).action_id ≡ x.action_id)
      → ((x : CanaryActionRecord) → g x.state ≡ true → Evolves x (f x))
      → find (has_id j) rows ≡ some row
      → g row.state ≡ true
      → Carries id r (update_where (has_id j) f rows)
  guarded-Carries j row g f keeps ev l h =
      transition-Carries (has_id j) f keeps
        λ m. ev r (subst (λ x. g x.state ≡ true) (same_row id j rows r row e l m) h)

  mark_safe_halt-Carries :
      (j error : Text) (now : ℕ) → Carries id r (mark_safe_halt j error now rows).1
  unfolding mark_safe_halt
  mark_safe_halt-Carries j error now = elim (Option-cases (find (has_id j) rows)) [
    | inl l ↦ ground (arith, unchanged)
    | inr (row, l) ↦ ground (
      arith,
      unchanged,
      guarded-Carries j row is_unresolved (halted error now) (λ x. refl) (λ x k. ground arith) l,
    )
  ]

  mark_included-Carries :
      (j : Text) (balance now : ℕ) → Carries id r (mark_included j balance now rows).1
  unfolding mark_included
  mark_included-Carries j balance now = elim (Option-cases (find (has_id j) rows)) [
    | inl l ↦ ground (arith, unchanged)
    | inr (row, l) ↦ ground (
      arith,
      unchanged,
      guarded-Carries j row is_reconcilable (included_with balance now) (λ x. refl)
          (λ x k. ground arith) l,
    )
  ]

  mark_reverted-Carries : (j : Text) (now : ℕ) → Carries id r (mark_reverted j now rows).1
  unfolding mark_reverted
  mark_reverted-Carries j now = elim (Option-cases (find (has_id j) rows)) [
    | inl l ↦ ground (arith, unchanged)
    | inr (row, l) ↦ ground (
      arith,
      unchanged,
      guarded-Carries j row is_reconcilable (reverted_at now) (λ x. refl) (λ x k. ground arith) l,
    )
  ]

  after-Carries : (c : Call) → Carries id r (after c rows)
  unfolding after
  after-Carries (inserts s) = insert-Carries s
  after-Carries (signs j tx now) = mark_signed-Carries j tx now
  after-Carries (submits j now) = mark_submitted-Carries j now
  after-Carries (halts j error now) = mark_safe_halt-Carries j error now
  after-Carries (includes j balance now) = mark_included-Carries j balance now
  after-Carries (reverts j now) = mark_reverted-Carries j now

after_all-Carries :
    (id : Text) (cs : List Call) (rows : Rows) (r : CanaryActionRecord)
    → find (has_id id) rows ≡ some r
    → Carries id r (after_all cs rows)
unfolding after_all
after_all-Carries id [] rows r e = (r, e, Evolves-refl r)
after_all-Carries id (c ∷ cs) rows r e =
    let (r', e', h) = after-Carries id rows r e c in
    let (r'', e'', k) = after_all-Carries id cs (after c rows) r' e' in
    (r'', e'', Evolves-trans r r' r'' h k)

-- A row that is found once is found after any calls, with its identity, decision and intent, in a
-- state that can follow, and with its signed transaction if it had left RESERVED.
pub after_all-Evolves :
    (id : Text) (cs : List Call) (rows : Rows) (r : CanaryActionRecord)
    → get_action id rows ≡ some r
    → (r' : CanaryActionRecord) × (get_action id (after_all cs rows) ≡ some r') × Evolves r r'
unfolding get_action
after_all-Evolves id cs rows r e = after_all-Carries id cs rows r e

-- A row that has left RESERVED cannot be signed.
count_reserved :
    (id : Text) (rows : Rows) (r : CanaryActionRecord)
    → IsKeyed rows
    → find (has_id id) rows ≡ some r
    → state_eq r.state reserved ≡ false
    → count (matches id (λ s. state_eq s reserved)) rows ≡ 0
count_reserved id [] r v e h = refl
count_reserved id (x ∷ rows) r v e h = ground (
  arith,
  count_reserved id rows r v.1,
  matches_once id (λ s. state_eq s reserved) x rows v.0,
  count-none_of (has_id id) (λ (y : CanaryActionRecord). state_eq y.state reserved) rows,
)

find-none :
    (id : Text) (rows : Rows)
    → find (has_id id) rows ≡ none
    → count (matches id (λ s. state_eq s reserved)) rows ≡ 0
find-none id [] h = refl
find-none id (x ∷ rows) h = ground (arith, find-none id rows)

-- `markSigned` fails for an action without a row, and for one whose row has left RESERVED.
mark_signed_fails :
    (id : Text) (tx : SignedTransaction) (now : ℕ) (rows : Rows)
    → count (matches id (λ s. state_eq s reserved)) rows ≡ 0
    → (mark_signed id tx now rows).0 ≢ ok tt
unfolding mark_signed
mark_signed_fails id tx now rows h e = ground arith

signed_written :
    (id : Text) (tx : SignedTransaction) (now : ℕ) (rows : Rows) (r : CanaryActionRecord)
    → (mark_signed id tx now rows).0 ≡ ok tt
    → find (has_id id) rows ≡ some r
    → state_eq r.state reserved ≡ true
    → find (has_id id) (mark_signed id tx now rows).1 ≡ some (signed_with tx now r)
unfolding mark_signed
signed_written id tx now rows r h e k = ground (
  arith,
  find-update_where (λ x. has_id id x && state_eq x.state reserved) (signed_with tx now) id rows r
      (λ x. refl) e,
  find_holds (has_id id) rows r e,
)

-- A signature that succeeds finds a RESERVED row, and leaves it SIGNED.
signed_row :
    (id : Text) (tx : SignedTransaction) (now : ℕ) (rows : Rows)
    → IsKeyed rows
    → (mark_signed id tx now rows).0 ≡ ok tt
    → (r : CanaryActionRecord) × (find (has_id id) (mark_signed id tx now rows).1 ≡ some r)
      × (r.state ≡ signed)
signed_row id tx now rows v h = elim (Option-cases (find (has_id id) rows)) [
  | inl e ↦ absurd (mark_signed_fails id tx now rows (find-none id rows e) h)
  | inr (r, e) ↦ elim (Bool-cases (state_eq r.state reserved)) [
    | inl k ↦ (signed_with tx now r, signed_written id tx now rows r h e k, refl)
    | inr k ↦ absurd (mark_signed_fails id tx now rows (count_reserved id rows r v e k) h)
  ]
]

-- Once `markSigned` has succeeded for an action, it fails for that action after any further calls.
pub never_signed_twice :
    (id : Text) (tx tx' : SignedTransaction) (now later : ℕ) (rows : Rows) (cs : List Call)
    → IsKeyed rows
    → (mark_signed id tx now rows).0 ≡ ok tt
    → (mark_signed id tx' later (after_all cs (mark_signed id tx now rows).1)).0 ≢ ok tt
unfolding after
never_signed_twice id tx tx' now later rows cs v h =
    let (r, e, s) = signed_row id tx now rows v h in
    let (r', e', k) = after_all-Carries id cs (mark_signed id tx now rows).1 r e in
    let w = after_all-IsKeyed cs _ (after-IsKeyed (signs id tx now) rows v) in
    mark_signed_fails id tx' later _ (count_reserved id _ r' w e' (gone r r' s k.forward))
  where
    gone :
        (r r' : CanaryActionRecord)
        → r.state ≡ signed
        → can_follow r.state r'.state ≡ true
        → state_eq r'.state reserved ≡ false
    gone r r' s k = ground arith
