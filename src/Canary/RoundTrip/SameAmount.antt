-- ===== src/Canary/RoundTrip/SameAmount.antt =====
-- The amounts of the approval and of the exit that src/canary/approvalStore.ts and
-- src/canary/exitStore.ts reserve for one buy.
use sentry_forensic_gate.Base.{
  ℕ, ◌+◌, ◌<◌, ◌≡◌, arith, true, subst, some, List, Text, find, Option-cases, inl, inr,
}
use sentry_forensic_gate.Base.Result.{ok, Result-cases}
use sentry_forensic_gate.Canary.Types.{
  CanaryActionState, included, CanaryActionRecord, CanarySwapIntent, state_eq,
}
use sentry_forensic_gate.Canary.SwapIntent.{Platform}
use sentry_forensic_gate.Canary.Store.{Rows, has_id}
use sentry_forensic_gate.Canary.EntryApproval.{ApprovalCoder}
use sentry_forensic_gate.Canary.RoundTrip.Acquired.{
  acquired_balance, included_parent, check_acquired,
}
use sentry_forensic_gate.Canary.RoundTrip.ExitStore.{
  ExitRecord, check_exit_insertion, insert_reserved_exit, inserted, assert_exit_calldata,
  assert_exit_bound,
}
use sentry_forensic_gate.Canary.RoundTrip.ApprovalStore.{
  ApprovalRecord, ApprovalStore, ApprovalStoreError, check_record, check_parent,
  insert_reserved_approval,
}
use sentry_forensic_gate.Canary.RoundTrip.ApprovalStore

-- The balance that an included buy acquired.
pub record IsAcquired (buys : Rows) (id : Text) (amount : ℕ) : Type 0 where
  pub buy : CanaryActionRecord
  pub found : find (has_id id) buys ≡ some buy
  pub buy_included : buy.state ≡ included
  pub before : ℕ
  pub after : ℕ
  pub before_recorded : buy.output_balance_before ≡ some before
  pub after_recorded : buy.output_balance_after ≡ some after
  pub positive : 0 < amount
  pub exact : amount + before ≡ after

is_included : (s : CanaryActionState) → state_eq s included ≡ true → s ≡ included
is_included s h = ground arith

acquired_lem :
    (buys : Rows) (id launch baseline : Text) (amount : ℕ) (b : CanaryActionRecord)
    (intent : CanarySwapIntent) (u : Unit {0})
    → included_parent id launch baseline buys ≡ ok (b, intent)
    → check_acquired amount b ≡ ok u
    → IsAcquired buys id amount
unfolding included_parent check_acquired acquired_balance
acquired_lem buys id launch baseline amount b intent u p c =
    elim (Option-cases (find (has_id id) buys)) [
      | inl f ↦ ground (arith, f, p)
      | inr (x, f) ↦ elim (Option-cases b.output_balance_before) [
        | inl e ↦ ground (arith, e, c)
        | inr (before, e) ↦ elim (Option-cases b.output_balance_after) [
          | inl d ↦ ground (arith, e, d, c)
          | inr (after, d) ↦ record {
            buy = b;
            found = ground (arith, f, p);
            buy_included = ground (arith, f, p, is_included x.state);
            before = before;
            after = after;
            before_recorded = e;
            after_recorded = d;
            positive = ground (arith, e, d, c);
            exact = ground (arith, e, d, c);
          }
        ]
      ]
    ]

exit-IsAcquired :
    (platform : Platform) (buys : Rows) (r : ExitRecord) (u : Unit {0})
    → check_exit_insertion platform buys r ≡ ok u
    → IsAcquired buys r.payload.parent_buy_action_id r.payload.intent.swap.amount_in
unfolding check_exit_insertion
exit-IsAcquired platform buys r u h =
    let p = r.payload in
    elim (Result-cases (assert_exit_calldata platform p.intent)) [
      | inr (e, k) ↦ ground (arith, k, h)
      | inl (v, k) ↦
          elim (Result-cases
            (included_parent p.parent_buy_action_id p.launch_id p.baseline_id buys)) [
              | inr (e, q) ↦ ground (arith, k, q, h)
              | inl ((b, intent), q) ↦
                  elim (Result-cases (check_acquired p.intent.swap.amount_in b)) [
                    | inr (e, c) ↦ elim (Result-cases (assert_exit_bound p.intent b intent)) [
                      | inr (e', d) ↦ ground (arith, k, q, d, h)
                      | inl (w, d) ↦ ground (arith, k, q, d, c, h)
                    ]
                    | inl (w, c) ↦
                        acquired_lem buys p.parent_buy_action_id p.launch_id p.baseline_id
                          p.intent.swap.amount_in b intent w q c
                  ]
            ]
    ]

approval-IsAcquired :
    (platform : Platform) (coder : ApprovalCoder) (buys : Rows) (r : ApprovalRecord) (u : Unit {0})
    → check_parent platform coder buys r ≡ ok u
    → IsAcquired buys r.payload.parent_buy_action_id r.payload.intent.amount
unfolding check_parent
approval-IsAcquired platform coder buys r u h =
    let p = r.payload in
    elim (Result-cases (included_parent p.parent_buy_action_id p.launch_id p.baseline_id buys)) [
      | inr (e, q) ↦ ground (arith, q, h)
      | inl ((b, intent), q) ↦ elim (Result-cases (check_acquired p.intent.amount b)) [
        | inr (e, c) ↦ ground (arith, q, c, h)
        | inl (w, c) ↦
            acquired_lem buys p.parent_buy_action_id p.launch_id p.baseline_id p.intent.amount b
              intent w q c
      ]
    ]

one_amount :
    (buys : Rows) (id : Text) (m n : ℕ) → IsAcquired buys id m → IsAcquired buys id n → m ≡ n
one_amount buys id m n a b = ground (
  arith, a.found, b.found, a.before_recorded, b.before_recorded, a.after_recorded, b.after_recorded,
  a.exact, b.exact,
)

-- An exit and an approval that are reserved for one buy, on the same rows of buys, have the same
-- amount: it is what the buy, which is INCLUDED, acquired, and it is positive.
pub reserved-SameAmount :
    (platform : Platform) (coder : ApprovalCoder) (buys : Rows) (fresh : Text) (exit : ExitRecord)
    (exits : List ExitRecord) (approval : ApprovalRecord) (s : ApprovalStore)
    → approval.payload.parent_buy_action_id ≡ exit.payload.parent_buy_action_id
    → (insert_reserved_exit platform buys exit exits).0 ≡ ok inserted
    → (insert_reserved_approval platform coder buys fresh approval s).0
      ≡ ok (ApprovalStore.inserted fresh)
    → (approval.payload.intent.amount ≡ exit.payload.intent.swap.amount_in)
      × IsAcquired buys exit.payload.parent_buy_action_id exit.payload.intent.swap.amount_in
unfolding insert_reserved_exit insert_reserved_approval
reserved-SameAmount platform coder buys fresh exit exits approval s same h k =
    elim (Result-cases (check_exit_insertion platform buys exit)) [
      | inr (e, q) ↦ ground (arith, q, h)
      | inl (u, q) ↦ elim (Result-cases (check_record platform coder approval)) [
        | inr (e, c) ↦ ground (arith, c, k)
        | inl (v, c) ↦ elim (Result-cases (check_parent platform coder buys approval)) [
          | inr (e, d) ↦ ground (arith, c, d, k)
          | inl (w, d) ↦
              let a = exit-IsAcquired platform buys exit u q in
              let b =
                subst (λ id. IsAcquired buys id approval.payload.intent.amount) same
                  (approval-IsAcquired platform coder buys approval w d) in
              (
                one_amount buys exit.payload.parent_buy_action_id approval.payload.intent.amount
                    exit.payload.intent.swap.amount_in b a,
                a,
              )
        ]
      ]
    ]
