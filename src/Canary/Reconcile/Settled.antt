-- ===== src/Canary/Reconcile/Settled.antt =====
-- What a reconciliation of src/canary/cycle.ts can write, and when it reports a buy as included.
use sentry_forensic_gate.Base.{
  ℕ, ◌≡◌, ◌∙◌, ap, ◌⊎◌, ◌↔◌, sym, subst, some_injective, inl, inr, refl, true, false, Option, none,
  some, [], ◌∷◌, arith, Text, codes, text_eq, text_eq_iff, Bool-cases, find, find_holds,
  update_where,
}
use sentry_forensic_gate.Base.Result.{ok, Result-cases}
use sentry_forensic_gate.Canary.Types.{
  CanarySwapIntent, CanaryActionRecord, reserved, included, reverted, safe_halt, state_eq,
}
use sentry_forensic_gate.Canary.Store.{
  Rows, has_id, is_unresolved, is_reconcilable, mark_included, mark_reverted, mark_safe_halt,
  included_with, reverted_at, halted,
}
use sentry_forensic_gate.Canary.Store.Lifecycle.{find-update_where}
use sentry_forensic_gate.Canary.Reconcile.{
  ReceiptStatus, success, failure, CanaryExecutor, included_buy, ReconcileReport, known_hash,
  halt_with, settle, reconcile_with, reconcile_one,
}

-- The row of another action is found as it was.
find-other :
    (id j : Text) (f : CanaryActionRecord → CanaryActionRecord) (rows : Rows)
    → ((x : CanaryActionRecord) → (f x).action_id ≡ x.action_id)
    → text_eq id j ≡ false
    → find (has_id id) (update_where (has_id j) f rows) ≡ find (has_id id) rows
find-other id j f [] keeps ne = refl
find-other id j f (x ∷ rows) keeps ne = ground (
  arith,
  keeps x,
  find-other id j f rows keeps,
  text_eq_iff x.action_id id,
  text_eq_iff x.action_id j,
  text_eq_iff id j,
)

-- The executor has a successful receipt for the action's hash, and a balance of its output.
abbrev pub Succeeded : CanaryActionRecord → CanaryExecutor → Type 0
Succeeded a executor =
    (hash : Text) × (intent : CanarySwapIntent) × (balance : ℕ) × (known_hash a.transaction_hash
      ≡ some hash)
    × (a.intent ≡ some intent)
    × (executor.get_receipt_if_present hash ≡ ok (some success))
    × (executor.get_token_balance intent.token_out ≡ ok balance)

-- The executor has a receipt for the action's hash that is not successful.
abbrev pub Failed : CanaryActionRecord → CanaryExecutor → Type 0
Failed a executor =
    (hash : Text) × (intent : CanarySwapIntent) × (known_hash a.transaction_hash ≡ some hash)
    × (a.intent ≡ some intent)
    × (executor.get_receipt_if_present hash ≡ ok (some failure))

-- There is no hash to ask for, or no intent.
abbrev pub Unidentified : CanaryActionRecord → Type 0
Unidentified a = (known_hash a.transaction_hash ≡ none) ⊎ (a.intent ≡ none)

-- What has become of the row of an action.
pub record Settles (a : CanaryActionRecord) (executor : CanaryExecutor) (r : CanaryActionRecord)
    : Type 0 where
  pub included_iff : (r.state ≡ included) ↔ Succeeded a executor
  pub reverted_iff : (r.state ≡ reverted) ↔ Failed a executor
  pub halted_if : Unidentified a → r.state ≡ safe_halt
  pub halted_only : r.state ≡ safe_halt → (a.state ≡ safe_halt) ⊎ Unidentified a

module _ (now : ℕ) where
  -- The row of the action settles, and the rows of the others stay.
  abbrev pub IsSettled : CanaryActionRecord → CanaryExecutor → Rows → Rows → Type 0
  IsSettled a executor rows rows' =
      ((r : CanaryActionRecord) × (find (has_id a.action_id) rows' ≡ some r) × Settles a executor r)
      × ((id : Text)
          → text_eq id a.action_id ≡ false
          → find (has_id id) rows' ≡ find (has_id id) rows)

  -- A write to the row of the action.
  written :
      (a : CanaryActionRecord) (executor : CanaryExecutor) (rows : Rows)
      (f : CanaryActionRecord → CanaryActionRecord)
      → find (has_id a.action_id) rows ≡ some a
      → ((x : CanaryActionRecord) → (f x).action_id ≡ x.action_id)
      → Settles a executor (f a)
      → IsSettled a executor rows (update_where (has_id a.action_id) f rows)
  written a executor rows f e keeps v = (
    (
      f a,
      find-update_where (has_id a.action_id) f a.action_id rows a keeps e
          ∙ rw (find_holds (has_id a.action_id) rows a e) refl,
      v,
    ),
    λ id ne. find-other id a.action_id f rows keeps ne,
  )

  module _ (a : CanaryActionRecord) (executor : CanaryExecutor) (rows : Rows)
      (e : find (has_id a.action_id) rows ≡ some a) (u : is_reconcilable a.state ≡ true) where
    unchanged : Settles a executor a → IsSettled a executor rows rows
    unchanged v = ((a, e, v), λ id ne. refl)

    stays : ¬ Succeeded a executor → ¬ Failed a executor → ¬ Unidentified a → Settles a executor a
    stays ns nf nu = record {
      included_iff = (λ s. ground (arith, u, s), λ x. absurd (ns x));
      reverted_iff = (λ s. ground (arith, u, s), λ x. absurd (nf x));
      halted_if = λ n. absurd (nu n);
      halted_only = λ s. inl s;
    }

    module _ (hash : Text) (intent : CanarySwapIntent)
        (k : known_hash a.transaction_hash ≡ some hash) (i : a.intent ≡ some intent) where
      identified : ¬ Unidentified a
      identified (inl n) = ground (arith, k, n)
      identified (inr n) = ground (arith, i, n)

      succeeded :
          Succeeded a executor
          → (executor.get_receipt_if_present hash ≡ ok (some success))
            × (balance : ℕ) × (executor.get_token_balance intent.token_out ≡ ok balance)
      succeeded (h, j, balance, k', i', q, t) =
          let is_hash : h ≡ hash = some_injective h hash (sym k' ∙ k) in
          let is_intent : j ≡ intent = some_injective j intent (sym i' ∙ i) in
          (
            subst (λ x. executor.get_receipt_if_present x ≡ ok (some success)) is_hash q,
            balance,
            subst (λ (x : CanarySwapIntent). executor.get_token_balance x.token_out ≡ ok balance)
                is_intent t,
          )

      failed : Failed a executor → executor.get_receipt_if_present hash ≡ ok (some failure)
      failed (h, j, k', i', q) =
          subst (λ x. executor.get_receipt_if_present x ≡ ok (some failure))
            (some_injective h hash (sym k' ∙ k)) q

      settle-IsSettled :
          (receipt : Option ReceiptStatus)
          → executor.get_receipt_if_present hash ≡ ok receipt
          → IsSettled a executor rows (settle now executor a hash intent receipt rows).1
      unfolding settle mark_included mark_reverted
      settle-IsSettled none q = unchanged (
          stays (λ x. let (r, b, t) = succeeded x in ground (arith, q, r))
            (λ x. ground (arith, q, failed x)) identified)
      settle-IsSettled (some success) q =
          elim (Result-cases (executor.get_token_balance intent.token_out)) [
            | inl (balance, t) ↦
                rw (t, e, u, settle, mark_included)
                  (written a executor rows (included_with balance now) e (λ x. refl)
                    (record {
                      included_iff = (λ s. (hash, intent, balance, k, i, q, t), λ x. refl);
                      reverted_iff = (λ s. ground (arith, s), λ x. ground (arith, q, failed x));
                      halted_if = λ n. absurd (identified n);
                      halted_only = λ s. ground (arith, s);
                    }))
            | inr (x, t) ↦
                rw (t, settle)
                  (unchanged (
                    stays (λ x. let (r, b, t') = succeeded x in ground (arith, t, t'))
                      (λ x. ground (arith, q, failed x)) identified))
          ]
      settle-IsSettled (some failure) q =
          rw (e, u, mark_reverted)
            (written a executor rows (reverted_at now) e (λ x. refl)
              (record {
                included_iff = (
                  λ s. ground (arith, s),
                  λ x. let (r, b, t) = succeeded x in ground (arith, q, r),
                );
                reverted_iff = (λ s. (hash, intent, k, i, q), λ x. refl);
                halted_if = λ n. absurd (identified n);
                halted_only = λ s. ground (arith, s);
              }))

    unresolved : is_unresolved a.state ≡ true
    unresolved = ground (arith, u)

    halt_with-IsSettled :
        (reason : Text) → Unidentified a → IsSettled a executor rows (halt_with now a reason rows).1
    unfolding halt_with mark_safe_halt
    halt_with-IsSettled reason n =
        rw (e, unresolved, mark_safe_halt)
          (written a executor rows (halted reason now) e (λ x. refl)
            (record {
              included_iff =
                  (λ s. ground (arith, s), λ (h, j, b, k, i, r, t). absurd (identified h j k i n));
              reverted_iff =
                  (λ s. ground (arith, s), λ (h, j, k, i, r). absurd (identified h j k i n));
              halted_if = λ x. refl;
              halted_only = λ s. inr n;
            }))

    with-IsSettled :
        (hash : Option Text) (intent : Option CanarySwapIntent)
        → known_hash a.transaction_hash ≡ hash
        → a.intent ≡ intent
        → IsSettled a executor rows (reconcile_with now executor a hash intent rows).1
    unfolding reconcile_with
    with-IsSettled (some hash) (some intent) k i =
        elim (Result-cases (executor.get_receipt_if_present hash)) [
          | inl (receipt, q) ↦ rw (q, reconcile_with) (settle-IsSettled hash intent k i receipt q)
          | inr (x, q) ↦
              rw (q, reconcile_with)
                (unchanged (
                  stays (λ x. let (r, b, t) = succeeded hash intent k i x in ground (arith, q, r))
                    (λ x. ground (arith, q, failed hash intent k i x))
                    (identified hash intent k i)))
        ]
    with-IsSettled (some hash) none k i =
        halt_with-IsSettled (codes "CANARY_UNRESOLVED_IDENTITY_INCOMPLETE") (inr i)
    with-IsSettled none intent k i = elim (Bool-cases (state_eq a.state reserved)) [
      | inl q ↦
          rw (q, reconcile_with)
            (halt_with-IsSettled (codes "CANARY_RESTART_AFTER_RESERVATION_NO_RETRY") (inl k))
      | inr q ↦
          rw (q, reconcile_with)
            (halt_with-IsSettled (codes "CANARY_UNRESOLVED_IDENTITY_INCOMPLETE") (inl k))
    ]

  -- A reconciliation with an executor makes a row that is SIGNED, SUBMITTED or SAFE_HALT INCLUDED
  -- exactly if there is a successful receipt for its hash, and a balance of its output; it makes it
  -- REVERTED exactly if there is a receipt that is not successful; it halts it if there is no hash
  -- to ask for or no intent, and only then; and the rows of other actions stay.
  pub reconcile_one-IsSettled :
      (a : CanaryActionRecord) (executor : CanaryExecutor) (rows : Rows)
      → find (has_id a.action_id) rows ≡ some a
      → is_reconcilable a.state ≡ true
      → IsSettled a executor rows (reconcile_one now a (some executor) rows).1
  unfolding reconcile_one
  reconcile_one-IsSettled a executor rows e u =
      with-IsSettled a executor rows e u (known_hash a.transaction_hash) a.intent refl refl

module _ (now : ℕ) where
  settle_included :
      (executor : CanaryExecutor) (a : CanaryActionRecord) (hash : Text) (intent : CanarySwapIntent)
      (receipt : Option ReceiptStatus) (rows : Rows) (report : ReconcileReport)
      → (settle now executor a hash intent receipt rows).0 ≡ ok report
      → report.action ≡ included_buy
      → receipt ≡ some success
  unfolding settle
  settle_included executor a hash intent none rows report e h = ground arith
  settle_included executor a hash intent (some success) rows report e h = refl
  settle_included executor a hash intent (some failure) rows report e h = ground arith

  hash_known : (o : Option Text) (x : Text) → known_hash o ≡ some x → o ≡ some x
  hash_known none x e = cc
  hash_known (some h) x e = ground arith

  with_included :
      (executor : CanaryExecutor) (a : CanaryActionRecord) (hash : Option Text)
      (intent : Option CanarySwapIntent) (rows : Rows) (report : ReconcileReport)
      → (reconcile_with now executor a hash intent rows).0 ≡ ok report
      → report.action ≡ included_buy
      → (x : Text) × (hash ≡ some x) × (executor.get_receipt_if_present x ≡ ok (some success))
  unfolding reconcile_with
  with_included executor a (some hash) (some intent) rows report e h =
      elim (Result-cases (executor.get_receipt_if_present hash)) [
        | inl (receipt, q) ↦ (
          hash,
          refl,
          q
              ∙ ap ok (
                  settle_included executor a hash intent receipt rows report (ground (arith, q, e))
                    h),
        )
        | inr (x, q) ↦ ground (arith, q, e)
      ]
  with_included executor a (some hash) none rows report e h = ground (arith, e, h)
  with_included executor a none intent rows report e h = ground (arith, e, h)

  -- A reconciliation reports INCLUDED only if the executor has a successful receipt for the hash
  -- that the action was signed with.
  pub reconcile_one_included :
      (a : CanaryActionRecord) (executor : CanaryExecutor) (rows : Rows) (report : ReconcileReport)
      → (reconcile_one now a (some executor) rows).0 ≡ ok report
      → report.action ≡ included_buy
      → (hash : Text) × (a.transaction_hash ≡ some hash)
        × (executor.get_receipt_if_present hash ≡ ok (some success))
  unfolding reconcile_one
  reconcile_one_included a executor rows report e h =
      let (x, q, r) =
        with_included executor a (known_hash a.transaction_hash) a.intent rows report e h in
      (x, hash_known a.transaction_hash x q, r)
