-- ===== src/Ledger/Consistent.antt =====
-- What every call of src/db/memoryStore.ts keeps true of a ledger: its evidence is about launches
-- that it holds, and no two values claim one identity.
use sentry_forensic_gate.Base.{
  ℕ, ◌≡◌, refl, Bool, true, false, ◌||◌, not, none, List, [], ◌∷◌, ◌++◌, arith, Text, text_eq, leb,
  any, find, select, any-append, IsApart, select-IsApart,
}
use sentry_forensic_gate.Domain.{LaunchObserved}
use sentry_forensic_gate.Receipts.{ProvenanceFact, OutcomeReceipt}
use sentry_forensic_gate.Shadow.Baseline.{ExecutableBaselineBatch}
use sentry_forensic_gate.Ledger.{
  MemoryStore, has_launch_id, is_known, same_economics, same_slot, removed, rewind_from_block,
}

-- The values that a map keeps apart.
abbrev pub rival_launches : LaunchObserved → LaunchObserved → Bool
rival_launches a b = text_eq a.launch_id b.launch_id || same_economics a b

abbrev pub rival_facts : ProvenanceFact → ProvenanceFact → Bool
rival_facts a b = text_eq a.fact_id b.fact_id || text_eq a.launch_id b.launch_id

abbrev pub rival_outcomes : OutcomeReceipt → OutcomeReceipt → Bool
rival_outcomes a b = text_eq a.outcome_id b.outcome_id || same_slot a b

abbrev pub rival_baselines : ExecutableBaselineBatch → ExecutableBaselineBatch → Bool
rival_baselines a b = text_eq a.launch_id b.launch_id

-- Every value is about a launch that is known.
abbrev pub IsGrounded : {A : Type 0} → List LaunchObserved → (A → Text) → List A → Type 0
IsGrounded launches launch_of xs = any (λ x. not (is_known launches (launch_of x))) xs ≡ false

pub record IsConsistent (ledger : MemoryStore) : Type 0 where
  pub launches_apart : IsApart rival_launches ledger.launches
  pub facts_apart : IsApart rival_facts ledger.provenance_facts
  pub outcomes_apart : IsApart rival_outcomes ledger.outcomes
  pub baselines_apart : IsApart rival_baselines ledger.baselines
  pub facts_grounded : IsGrounded ledger.launches (λ f. f.launch_id) ledger.provenance_facts
  pub outcomes_grounded : IsGrounded ledger.launches (λ o. o.launch_id) ledger.outcomes
  pub baselines_grounded : IsGrounded ledger.launches (λ b. b.launch_id) ledger.baselines

pub find-none : {A : Type 0} (p : A → Bool) (xs : List A) → find p xs ≡ none → any p xs ≡ false
find-none p [] h = refl
find-none p (x ∷ xs) h = ground (arith, find-none p xs)

pub any-or :
    {A : Type 0} (p q : A → Bool) (xs : List A)
    → any p xs ≡ false
    → any q xs ≡ false
    → any (λ x. p x || q x) xs ≡ false
any-or p q [] h k = refl
any-or p q (x ∷ xs) h k = ground (arith, any-or p q xs)

module _ {A : Type 0} (launch_of : A → Text) where
  -- Another launch leaves evidence grounded.
  pub IsGrounded-append :
      (launches : List LaunchObserved) (l : LaunchObserved) (xs : List A)
      → IsGrounded launches launch_of xs
      → IsGrounded (launches ++ l ∷ []) launch_of xs
  unfolding is_known
  IsGrounded-append launches l [] g = refl
  IsGrounded-append launches l (x ∷ xs) g = ground (
    arith,
    IsGrounded-append launches l xs,
    any-append (has_launch_id (launch_of x)) launches (l ∷ []),
  )

  -- So does another value about a launch that is known.
  pub IsGrounded-add :
      (launches : List LaunchObserved) (xs : List A) (x : A)
      → IsGrounded launches launch_of xs
      → is_known launches (launch_of x) ≡ true
      → IsGrounded launches launch_of (xs ++ x ∷ [])
  IsGrounded-add launches xs x g h =
      ground (arith, any-append (λ x. not (is_known launches (launch_of x))) xs (x ∷ []))

-- A launch that a rewind does not remove stays known.
known-rewind :
    (from_block : ℕ) (launches : List LaunchObserved) (id : Text)
    → is_known launches id ≡ true
    → removed from_block launches id ≡ false
    → is_known (select (λ l. not (leb from_block l.block_number)) launches) id ≡ true
unfolding is_known removed
known-rewind from_block [] id h k = h
known-rewind from_block (l ∷ launches) id h k = ground (arith, known-rewind from_block launches id)

-- Evidence that a rewind keeps is about a launch that it keeps.
IsGrounded-rewind :
    {A : Type 0} (launch_of : A → Text) (block_of : A → ℕ) (from_block : ℕ)
    (launches : List LaunchObserved) (xs : List A)
    → IsGrounded launches launch_of xs
    → IsGrounded (select (λ l. not (leb from_block l.block_number)) launches) launch_of (
        select
          (λ x. not (removed from_block launches (launch_of x) || leb from_block (block_of x)))
          xs)
IsGrounded-rewind launch_of block_of from_block launches [] g = refl
IsGrounded-rewind launch_of block_of from_block launches (x ∷ xs) g = ground (
  arith,
  IsGrounded-rewind launch_of block_of from_block launches xs,
  known-rewind from_block launches (launch_of x),
)

pub rewind_from_block-IsConsistent :
    (from_block : ℕ) (ledger : MemoryStore)
    → IsConsistent ledger
    → IsConsistent (rewind_from_block from_block ledger)
unfolding rewind_from_block
rewind_from_block-IsConsistent from_block ledger v = record {
  launches_apart = select-IsApart _ _ ledger.launches v.launches_apart;
  facts_apart = select-IsApart _ _ ledger.provenance_facts v.facts_apart;
  outcomes_apart = select-IsApart _ _ ledger.outcomes v.outcomes_apart;
  baselines_apart = select-IsApart _ _ ledger.baselines v.baselines_apart;
  facts_grounded =
      IsGrounded-rewind (λ f. f.launch_id) (λ f. f.observed_block) from_block ledger.launches
        ledger.provenance_facts v.facts_grounded;
  outcomes_grounded =
      IsGrounded-rewind (λ o. o.launch_id) (λ o. o.observed_block) from_block ledger.launches
        ledger.outcomes v.outcomes_grounded;
  baselines_grounded =
      IsGrounded-rewind (λ b. b.launch_id) (λ b. b.decision_block) from_block ledger.launches
        ledger.baselines v.baselines_grounded;
}
