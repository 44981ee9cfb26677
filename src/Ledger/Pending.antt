-- ===== src/Ledger/Pending.antt =====
-- What `listLaunchesPendingBaseline` of src/db/memoryStore.ts lists, and what it leaves.
use mathlib.Core.List.{Perm}
use mathlib.Core.List.Perm
use sentry_forensic_gate.Base.{
  ℕ, ◌≤◌, ◌<◌, ◌≡◌, ◌⊎◌, inl, inr, sym, subst, arith, Bool, true, false, ◌≢◌, text_eq_iff, ◌&&◌,
  not, List, [], ◌∷◌, ◌++◌, Text, All, any, select, leb, length, sort_by, length-take_le,
  Bool-cases,
}
use sentry_forensic_gate.Base.Sorting.{
  IsOrdered, sort_by-perm, sort_by-All, sort_by-IsOrdered, select-perm, take-rest,
}
use sentry_forensic_gate.Domain.{LaunchObserved}
use sentry_forensic_gate.Shadow.Baseline.{ExecutableBaselineBatch}
use sentry_forensic_gate.Ledger.{MemoryStore, is_baseline_of}
use sentry_forensic_gate.Ledger.Queries.{list_launches_pending_baseline, by_block_and_log}

-- A launch waits for a baseline: its block is in range, and no baseline is of it.
abbrev pub IsPending : MemoryStore → ℕ → LaunchObserved → Type 0
IsPending ledger max_launch_block launch =
    (launch.block_number ≤ max_launch_block)
    × All (λ (batch : ExecutableBaselineBatch). batch.launch_id ≢ launch.launch_id) ledger.baselines

-- A launch that is not pending is out of range, or a baseline is of it.
abbrev pub IsDone : MemoryStore → ℕ → LaunchObserved → Type 0
IsDone ledger max_launch_block launch =
    (max_launch_block < launch.block_number)
    ⊎ (any (is_baseline_of launch.launch_id) ledger.baselines ≡ true)

-- The launches of a ledger are those that a query lists, which are at most `limit`, those that it
-- leaves, and those that are not pending. The first two are pending, and stand in the order of their
-- block and log; there are none that it leaves, unless it lists `limit`.
pub record IsFirst (ledger : MemoryStore) (max_launch_block limit : ℕ)
    (listed : List LaunchObserved) : Type 0 where
  pub left : List LaunchObserved
  pub done : List LaunchObserved
  pub all : Perm ((listed ++ left) ++ done) ledger.launches
  pub pending : All (IsPending ledger max_launch_block) (listed ++ left)
  pub others : All (IsDone ledger max_launch_block) done
  pub in_order : IsOrdered by_block_and_log (listed ++ left)
  pub limited : length listed ≤ limit
  pub full : (left ≡ []) ⊎ (length listed ≡ limit)

by_block_and_log_trans :
    (a b c : LaunchObserved)
    → by_block_and_log a b ≡ true
    → by_block_and_log b c ≡ true
    → by_block_and_log a c ≡ true
by_block_and_log_trans a b c h k = ground arith

by_block_and_log_total :
    (a b : LaunchObserved) → by_block_and_log a b ≡ false → by_block_and_log b a ≡ true
by_block_and_log_total a b h = ground arith

none_of :
    (id : Text) (batches : List ExecutableBaselineBatch)
    → any (is_baseline_of id) batches ≡ false
    → All (λ (batch : ExecutableBaselineBatch). batch.launch_id ≢ id) batches
none_of id [] h = tt
none_of id (b ∷ batches) h = (
  (λ e. ground (arith, h, (text_eq_iff b.launch_id id).1 e)),
  none_of id batches (ground (arith, h)),
)

module _ (ledger : MemoryStore) (max_launch_block : ℕ) where
  abbrev is_pending : LaunchObserved → Bool
  is_pending launch =
      leb launch.block_number max_launch_block
      && not (any (is_baseline_of launch.launch_id) ledger.baselines)

  selected-IsPending :
      (xs : List LaunchObserved) → All (IsPending ledger max_launch_block) (select is_pending xs)
  selected-IsPending [] = tt
  selected-IsPending (x ∷ xs) = elim (Bool-cases (is_pending x)) [
    | inl e ↦
        rw (e, select)
          (
            (ground (arith, e), none_of x.launch_id ledger.baselines (ground (arith, e))),
            selected-IsPending xs,
          )
    | inr e ↦ rw (e, select) (selected-IsPending xs)
  ]

  rejected-IsDone :
      (xs : List LaunchObserved)
      → All (IsDone ledger max_launch_block) (select (λ x. not (is_pending x)) xs)
  rejected-IsDone [] = tt
  rejected-IsDone (x ∷ xs) = elim (Bool-cases (is_pending x)) [
    | inl e ↦ rw (e, select) (rejected-IsDone xs)
    | inr e ↦ rw (e, select) (is_done e, rejected-IsDone xs)
  ]
    where
      is_done : is_pending x ≡ false → IsDone ledger max_launch_block x
      is_done e = elim (Bool-cases (any (is_baseline_of x.launch_id) ledger.baselines)) [
        | inl b ↦ inr b
        | inr b ↦ inl (ground (arith, e, b))
      ]

-- The list for baselines is the first part of the pending launches in the order of their blocks and
-- logs: it has no more than its limit, and leaves a pending launch only if it is as long as its
-- limit, and the launches of the ledger beside it and those it leaves are not pending.
pub list_launches_pending_baseline-IsFirst :
    (ledger : MemoryStore) (max_launch_block limit : ℕ)
    → IsFirst ledger max_launch_block limit
        (list_launches_pending_baseline ledger max_launch_block limit)
unfolding list_launches_pending_baseline
list_launches_pending_baseline-IsFirst ledger max_launch_block limit =
    let pending = is_pending ledger max_launch_block in
    let kept = select pending ledger.launches in
    let dropped = select (λ x. not (pending x)) ledger.launches in
    let sorted = sort_by by_block_and_log kept in
    let (left, e, full) = take-rest limit sorted in
    record {
      left = left;
      done = dropped;
      all =
          subst (λ xs. Perm (xs ++ dropped) ledger.launches) (sym e)
            (Perm.trans (Perm.append_right dropped (sort_by-perm by_block_and_log kept))
              (select-perm pending ledger.launches));
      pending =
          subst (λ xs. All (IsPending ledger max_launch_block) xs) (sym e)
            (sort_by-All by_block_and_log (IsPending ledger max_launch_block) kept
              (selected-IsPending ledger max_launch_block ledger.launches));
      others = rejected-IsDone ledger max_launch_block ledger.launches;
      in_order =
          subst (λ xs. IsOrdered by_block_and_log xs) (sym e)
            (sort_by-IsOrdered by_block_and_log by_block_and_log_trans by_block_and_log_total kept);
      limited = length-take_le limit sorted;
      full = full;
    }
