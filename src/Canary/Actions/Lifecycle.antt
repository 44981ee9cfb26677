-- ===== src/Canary/Actions/Lifecycle.antt =====
-- The life of a row of the action tables of src/canary, as a machine over its state alone.
use sentry_forensic_gate.Base.{
  ℕ, ◌≡◌, ◌⊎◌, ◌∙◌, refl, sym, subst, inl, inr, Bool, true, false, ◌&&◌, some, List, [], ◌∷◌, ◌++◌,
  arith, Text, to_lower_case, text_eq_iff, find, update_where, Bool-cases, Option-cases, find_holds,
  if◌then◌else◌, get_or_else,
}
use sentry_forensic_gate.Base.Result.{Result, ok, Result-cases}
use sentry_forensic_gate.Canary.Types.{
  CanaryActionState, skipped, reserved, signed, submitted, included, reverted, safe_halt, state_eq,
}
use sentry_forensic_gate.Canary.Store.{SignedTransaction, is_unresolved, is_reconcilable}
use sentry_forensic_gate.Canary.Actions.{
  ActionRow, ActionError, has_id, insert_or_ignore, patch_signed, submit, halt, include, revert,
  transition, clean, clean_included, mark_signed, mark_submitted, mark_safe_halt, mark_included,
  mark_reverted, hash_taken, check_provenance, check_signed,
}

-- The moves of the machine.
pub data Step : CanaryActionState → CanaryActionState → Type 0 where
  signing : Step reserved signed
  submitting : Step signed submitted
  halting : {s : CanaryActionState} → is_unresolved s ≡ true → Step s safe_halt
  including : {s : CanaryActionState} → is_reconcilable s ≡ true → Step s included
  reverting : {s : CanaryActionState} → is_reconcilable s ≡ true → Step s reverted
  cleaning : Step included skipped

pub data Reach (s : CanaryActionState) : CanaryActionState → Type 0 where
  here : Reach s s
  next : {t u : CanaryActionState} → Reach s t → Step t u → Reach s u

pub Reach-trans : {s t u : CanaryActionState} → Reach s t → Reach t u → Reach s u
Reach-trans r here = r
Reach-trans r (next q st) = next (Reach-trans r q) st

-- The calls that write a table.
pub data Call (P : Type 0) : Type 0 where
  inserts : ActionRow P → Call P
  signs : Text → SignedTransaction → ℕ → Call P
  submits : Text → ℕ → Call P
  halts : Text → Text → ℕ → Call P
  includes : Text → ℕ → ℕ → Call P
  reverts : Text → ℕ → Call P
  cleans : Text → Text → ℕ → Call P

-- What stays of a transaction.
abbrev pub SameTransaction : {P : Type 0} → ActionRow P → ActionRow P → Type 0
SameTransaction r r' =
    (r'.nonce ≡ r.nonce)
    × (r'.transaction_hash ≡ r.transaction_hash)
    × (r'.serialized_transaction ≡ r.serialized_transaction)

-- A row is settled: its inclusion or its reversal is of a transaction with the hash of its row.
unfoldable pub is_settled : CanaryActionState → Bool
is_settled included = true
is_settled reverted = true
is_settled _ = false

module _ {P : Type 0} (keccak256 : Text → Text) (unique : P → P → Bool)
    (accepts : P → ℕ → Result ActionError P) (zeroed : P → P) where
  unfoldable pub after : Call P → List (ActionRow P) → List (ActionRow P)
  after (inserts r) rows = get_or_else (insert_or_ignore unique r rows) rows
  after (signs id tx now) rows = (mark_signed keccak256 id tx now rows).1
  after (submits id now) rows = (mark_submitted id now rows).1
  after (halts id error now) rows = (mark_safe_halt id error now rows).1
  after (includes id observed now) rows = (mark_included keccak256 accepts id observed now rows).1
  after (reverts id now) rows = (mark_reverted keccak256 id now rows).1
  after (cleans id error now) rows = clean_included zeroed id error now rows

  unfoldable pub after_all : List (Call P) → List (ActionRow P) → List (ActionRow P)
  after_all [] rows = rows
  after_all (c ∷ cs) rows = after_all cs (after c rows)

  -- A settled row's hash is the `keccak256` of its serialized transaction.
  abbrev pub Proven : ActionRow P → Type 0
  Proven r =
      (is_settled r.state ≡ false)
      ⊎ (check_provenance keccak256 r.action_id r.transaction_hash r.serialized_transaction ≡ ok tt)

  -- What a call makes of a row that it changes.
  pub record Moves (r r' : ActionRow P) : Type 0 where
    pub step : Step r.state r'.state
    pub kept : (r.state ≡ reserved) ⊎ SameTransaction r r'
    pub proven : Proven r'

  abbrev pub Becomes : ActionRow P → ActionRow P → Type 0
  Becomes r r' = (r' ≡ r) ⊎ Moves r r'

  -- What any number of calls make of a row.
  pub record Follows (r r' : ActionRow P) : Type 0 where
    pub reached : Reach r.state r'.state
    pub kept : (r.state ≡ reserved) ⊎ SameTransaction r r'
    pub proven : Proven r → Proven r'

  abbrev pub Keeps : Text → ActionRow P → List (ActionRow P) → Type 0
  Keeps id r rows = (r' : ActionRow P) × (find (has_id id) rows ≡ some r') × Becomes r r'

module _ {P : Type 0} where
  pub find-append :
      (id : Text) (rows rest : List (ActionRow P)) (r : ActionRow P)
      → find (has_id id) rows ≡ some r
      → find (has_id id) (rows ++ rest) ≡ some r
  find-append id [] rest r h = cc
  find-append id (x ∷ rows) rest r h = ground (arith, find-append id rows rest r)

  pub find-update_where :
      (id : Text) (p : ActionRow P → Bool) (f : ActionRow P → ActionRow P)
      (rows : List (ActionRow P)) (r : ActionRow P)
      → ((x : ActionRow P) → (f x).action_id ≡ x.action_id)
      → find (has_id id) rows ≡ some r
      → find (has_id id) (update_where p f rows) ≡ some (if p r then f r else r)
  find-update_where id p f [] r keeps h = cc
  find-update_where id p f (x ∷ rows) r keeps h =
      ground (arith, keeps x, find-update_where id p f rows r keeps)

  found_id :
      (id : Text) (rows : List (ActionRow P)) (r : ActionRow P)
      → find (has_id id) rows ≡ some r
      → r.action_id ≡ id
  found_id id rows r h = (text_eq_iff r.action_id id).0 (find_holds (has_id id) rows r h)

module _ {P : Type 0} (keccak256 : Text → Text) (unique : P → P → Bool)
    (accepts : P → ℕ → Result ActionError P) (zeroed : P → P) where
  abbrev Kept : Text → ActionRow P → List (ActionRow P) → Type 0
  Kept = Keeps keccak256 unique accepts zeroed

  updated :
      (id : Text) (p : ActionRow P → Bool) (f : ActionRow P → ActionRow P)
      (rows : List (ActionRow P)) (r : ActionRow P)
      → ((x : ActionRow P) → (f x).action_id ≡ x.action_id)
      → find (has_id id) rows ≡ some r
      → (p r ≡ true → Moves keccak256 unique accepts zeroed r (f r))
      → Kept id r (update_where p f rows)
  updated id p f rows r keeps e moves = elim (Bool-cases (p r)) [
    | inl m ↦ (f r, find-update_where id p f rows r keeps e ∙ rw m refl, inr (moves m))
    | inr m ↦ (r, find-update_where id p f rows r keeps e ∙ rw m refl, inl refl)
  ]

  insert-Keeps :
      (id : Text) (x : ActionRow P) (rows : List (ActionRow P)) (r : ActionRow P)
      → find (has_id id) rows ≡ some r
      → Kept id r (get_or_else (insert_or_ignore unique x rows) rows)
  unfolding insert_or_ignore
  insert-Keeps id x rows r e = (r, ground (arith, e, find-append id rows (x ∷ []) r), inl refl)

  in_state :
      (r : ActionRow P) (j : Text) (s : CanaryActionState)
      → (has_id j r && state_eq r.state s) ≡ true
      → r.state ≡ s
  in_state r j s h = ground arith

  sign-Keeps :
      (id j : Text) (tx : SignedTransaction) (now : ℕ) (rows : List (ActionRow P)) (r : ActionRow P)
      → find (has_id id) rows ≡ some r
      → Kept id r (mark_signed keccak256 j tx now rows).1
  unfolding mark_signed transition is_settled
  sign-Keeps id j tx now rows r e =
      let k =
        updated id (λ x. has_id j x && state_eq x.state reserved) (patch_signed tx now) rows r
          (λ x. refl) e
          (λ m.
            let s = in_state r j reserved m in
            record {
              step = subst (λ t. Step t signed) (sym s) signing;
              kept = inl s;
              proven = inl refl;
            }) in
      elim (Result-cases (check_signed keccak256 tx)) [
        | inr (x, q) ↦ rw (q, mark_signed) (r, e, inl refl)
        | inl (u, q) ↦ elim (Bool-cases (hash_taken j (to_lower_case tx.transaction_hash) rows)) [
          | inl t ↦ rw (q, t, mark_signed) (r, e, inl refl)
          | inr t ↦ rw (q, t, mark_signed) k
        ]
      ]

  submit-Keeps :
      (id j : Text) (now : ℕ) (rows : List (ActionRow P)) (r : ActionRow P)
      → find (has_id id) rows ≡ some r
      → Kept id r (mark_submitted j now rows).1
  unfolding mark_submitted transition is_settled
  submit-Keeps id j now rows r e =
      updated id (λ x. has_id j x && state_eq x.state signed) (submit now) rows r (λ x. refl) e
        (λ m.
          let s = in_state r j signed m in
          record {
            step = subst (λ t. Step t submitted) (sym s) submitting;
            kept = inr (refl, refl, refl);
            proven = inl refl;
          })

  the_same_row :
      (id j : Text) (rows : List (ActionRow P)) (r row : ActionRow P)
      → find (has_id id) rows ≡ some r
      → find (has_id j) rows ≡ some row
      → has_id j r ≡ true
      → row ≡ r
  the_same_row id j rows r row e q h =
      ground (arith, e, q, found_id id rows r e, text_eq_iff r.action_id j, text_eq_iff id j)

  halt-Keeps :
      (id j error : Text) (now : ℕ) (rows : List (ActionRow P)) (r : ActionRow P)
      → find (has_id id) rows ≡ some r
      → Kept id r (mark_safe_halt j error now rows).1
  unfolding mark_safe_halt is_settled
  halt-Keeps id j error now rows r e = elim (Option-cases (find (has_id j) rows)) [
    | inl q ↦ rw (q, mark_safe_halt) (r, e, inl refl)
    | inr (row, q) ↦ elim (Bool-cases (is_unresolved row.state)) [
      | inr t ↦ rw (q, t, mark_safe_halt) (r, e, inl refl)
      | inl t ↦
          rw (q, t, mark_safe_halt)
            (updated id (has_id j) (halt error now) rows r (λ x. refl) e
              (λ m. record {
                step = halting (
                    subst (λ x. is_unresolved x.state ≡ true) (the_same_row id j rows r row e q m)
                      t);
                kept = inr (refl, refl, refl);
                proven = inl refl;
              }))
    ]
  ]

  proven_row :
      (j : Text) (r row : ActionRow P) (u : Unit {0})
      → has_id j r ≡ true
      → row ≡ r
      → check_provenance keccak256 j row.transaction_hash row.serialized_transaction ≡ ok u
      → check_provenance keccak256 r.action_id r.transaction_hash r.serialized_transaction ≡ ok tt
  proven_row j r row u m same c =
      subst (λ i. check_provenance keccak256 i r.transaction_hash r.serialized_transaction ≡ ok tt)
        (sym ((text_eq_iff r.action_id j).0 m))
        (subst
          (λ (x : ActionRow P).
            check_provenance keccak256 j x.transaction_hash x.serialized_transaction ≡ ok tt)
          same c)

  include-Keeps :
      (id j : Text) (observed now : ℕ) (rows : List (ActionRow P)) (r : ActionRow P)
      → find (has_id id) rows ≡ some r
      → Kept id r (mark_included keccak256 accepts j observed now rows).1
  unfolding mark_included is_settled
  include-Keeps id j observed now rows r e = elim (Option-cases (find (has_id j) rows)) [
    | inl q ↦ rw (q, mark_included) (r, e, inl refl)
    | inr (row, q) ↦ elim (Bool-cases (is_reconcilable row.state)) [
      | inr t ↦ rw (q, t, mark_included) (r, e, inl refl)
      | inl t ↦
          elim (Result-cases
            (check_provenance keccak256 j row.transaction_hash row.serialized_transaction)) [
              | inr (x, c) ↦ rw (q, t, c, mark_included) (r, e, inl refl)
              | inl (u, c) ↦ elim (Result-cases (accepts row.payload observed)) [
                | inr (x, a) ↦ rw (q, t, c, a, mark_included) (r, e, inl refl)
                | inl (payload, a) ↦
                    rw (q, t, c, a, mark_included)
                      (updated id (has_id j) (include payload now) rows r (λ x. refl) e
                        (λ m.
                          let same = the_same_row id j rows r row e q m in
                          record {
                            step = including (subst (λ x. is_reconcilable x.state ≡ true) same t);
                            kept = inr (refl, refl, refl);
                            proven = inr (proven_row j r row u m same c);
                          }))
              ]
            ]
    ]
  ]

  revert-Keeps :
      (id j : Text) (now : ℕ) (rows : List (ActionRow P)) (r : ActionRow P)
      → find (has_id id) rows ≡ some r
      → Kept id r (mark_reverted keccak256 j now rows).1
  unfolding mark_reverted is_settled
  revert-Keeps id j now rows r e = elim (Option-cases (find (has_id j) rows)) [
    | inl q ↦ rw (q, mark_reverted) (r, e, inl refl)
    | inr (row, q) ↦ elim (Bool-cases (is_reconcilable row.state)) [
      | inr t ↦ rw (q, t, mark_reverted) (r, e, inl refl)
      | inl t ↦
          elim (Result-cases
            (check_provenance keccak256 j row.transaction_hash row.serialized_transaction)) [
              | inr (x, c) ↦ rw (q, t, c, mark_reverted) (r, e, inl refl)
              | inl (u, c) ↦
                  rw (q, t, c, mark_reverted)
                    (updated id (has_id j) (revert now) rows r (λ x. refl) e
                      (λ m.
                        let same = the_same_row id j rows r row e q m in
                        record {
                          step = reverting (subst (λ x. is_reconcilable x.state ≡ true) same t);
                          kept = inr (refl, refl, refl);
                          proven = inr (proven_row j r row u m same c);
                        }))
            ]
    ]
  ]

  clean-Keeps :
      (id j error : Text) (now : ℕ) (rows : List (ActionRow P)) (r : ActionRow P)
      → find (has_id id) rows ≡ some r
      → Kept id r (clean_included zeroed j error now rows)
  unfolding clean_included is_settled
  clean-Keeps id j error now rows r e = elim (Option-cases (find (has_id j) rows)) [
    | inl q ↦ rw (q, clean_included) (r, e, inl refl)
    | inr (row, q) ↦ elim (Bool-cases (state_eq row.state included)) [
      | inr t ↦ rw (q, t, clean_included) (r, e, inl refl)
      | inl t ↦
          rw (q, t, clean_included)
            (updated id (λ x. has_id j x && state_eq x.state included) (clean zeroed error now) rows
              r (λ x. refl) e
              (λ m.
                let s = in_state r j included m in
                record {
                  step = subst (λ t. Step t skipped) (sym s) cleaning;
                  kept = inr (refl, refl, refl);
                  proven = inl refl;
                }))
    ]
  ]

  after-Keeps :
      (c : Call P) (id : Text) (rows : List (ActionRow P)) (r : ActionRow P)
      → find (has_id id) rows ≡ some r
      → Kept id r (after keccak256 unique accepts zeroed c rows)
  unfolding after
  after-Keeps (inserts x) id rows r e = insert-Keeps id x rows r e
  after-Keeps (signs j tx now) id rows r e = sign-Keeps id j tx now rows r e
  after-Keeps (submits j now) id rows r e = submit-Keeps id j now rows r e
  after-Keeps (halts j error now) id rows r e = halt-Keeps id j error now rows r e
  after-Keeps (includes j observed now) id rows r e = include-Keeps id j observed now rows r e
  after-Keeps (reverts j now) id rows r e = revert-Keeps id j now rows r e
  after-Keeps (cleans j error now) id rows r e = clean-Keeps id j error now rows r e

  only_reserved : {s t : CanaryActionState} → Reach s t → t ≡ reserved → s ≡ reserved
  only_reserved here e = e
  only_reserved (next q signing) e = ground arith
  only_reserved (next q submitting) e = ground arith
  only_reserved (next q (halting u)) e = ground arith
  only_reserved (next q (including u)) e = ground arith
  only_reserved (next q (reverting u)) e = ground arith
  only_reserved (next q cleaning) e = ground arith

  abbrev Rest : ActionRow P → ActionRow P → Type 0
  Rest = Follows keccak256 unique accepts zeroed

  then-Becomes :
      (r s t : ActionRow P) → Rest r s → Becomes keccak256 unique accepts zeroed s t → Rest r t
  then-Becomes r s t f (inl e) = subst (λ x. Rest r x) (sym e) f
  then-Becomes r s t f (inr m) = record {
    reached = next f.reached m.step;
    kept = elim m.kept [
      | inl q ↦ inl (only_reserved f.reached q)
      | inr (a, b, c) ↦ elim f.kept [
        | inl q ↦ inl q
        | inr (a', b', c') ↦ inr (a ∙ a', b ∙ b', c ∙ c')
      ]
    ];
    proven = λ p. m.proven;
  }

  after_all-from :
      (cs : List (Call P)) (id : Text) (rows : List (ActionRow P)) (r s : ActionRow P)
      → Rest r s
      → find (has_id id) rows ≡ some s
      → (r' : ActionRow P) × (find (has_id id) (after_all keccak256 unique accepts zeroed cs rows)
          ≡ some r')
        × Rest r r'
  unfolding after_all
  after_all-from [] id rows r s f e = (s, e, f)
  after_all-from (c ∷ cs) id rows r s f e =
      let (s', e', b) = after-Keeps c id rows s e in
      after_all-from cs id (after keccak256 unique accepts zeroed c rows) r s'
        (then-Becomes r s s' f b) e'

  -- A row of an action table stays there whatever calls are made, the cleanup among them: its state
  -- goes along the arrows of the machine `Step` alone, its nonce, hash and serialized transaction do not change once it
  -- is past RESERVED, and when it is INCLUDED or REVERTED by these calls (or was so rightly) its
  -- hash is the `keccak256` of its serialized transaction.
  pub after_all-Follows :
      (cs : List (Call P)) (id : Text) (rows : List (ActionRow P)) (r : ActionRow P)
      → find (has_id id) rows ≡ some r
      → (r' : ActionRow P) × (find (has_id id) (after_all keccak256 unique accepts zeroed cs rows)
          ≡ some r')
        × Follows keccak256 unique accepts zeroed r r'
  after_all-Follows cs id rows r e =
      after_all-from cs id rows r r
        (record { reached = here; kept = inr (refl, refl, refl); proven = λ p. p }) e
