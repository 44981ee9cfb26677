-- ===== src/Base/Collections.antt =====
-- Maps whose values carry their keys, as lists in the order of insertion, and sorting.
use Prim.Native.Nat.{ℕ, zero, suc, ◌≤◌}
use mathlib.Core.Path.{◌≡◌, refl}
use mathlib.Core.Bool.{Bool, true, false}
use mathlib.Core.List.{List, [], ◌∷◌, ◌++◌}
use native.Mathlib.Omega.{arith}
use sentry_forensic_gate.Base.Tests.{if◌then◌else◌}
use sentry_forensic_gate.Base.Lists.{any, select, any-append, take, length}

module _ {ℓ} {A : Type ℓ} where
  unfoldable pub insert_by : (A → A → Bool) → A → List A → List A
  insert_by le x [] = x ∷ []
  insert_by le x (y ∷ ys) = if le x y then x ∷ y ∷ ys else y ∷ insert_by le x ys

  -- `sort` by a total comparison
  unfoldable pub sort_by : (A → A → Bool) → List A → List A
  unfolding insert_by
  sort_by le [] = []
  sort_by le (x ∷ xs) = insert_by le x (sort_by le xs)

  -- No value stands in the relation to a later one.
  abbrev pub IsApart : (A → A → Bool) → List A → Type 0
  IsApart r [] = Unit
  IsApart r (x ∷ xs) = (any (r x) xs ≡ false) × IsApart r xs

  pub append-IsApart :
      (r : A → A → Bool) (xs : List A) (y : A)
      → IsApart r xs
      → any (λ x. r x y) xs ≡ false
      → IsApart r (xs ++ y ∷ [])
  append-IsApart r [] y v h = (refl, tt)
  append-IsApart r (x ∷ xs) y v h =
      ground (arith, any-append (r x) xs (y ∷ []), append-IsApart r xs y v.1)

  -- What holds of no value holds of none that is selected.
  pub any-select : (p q : A → Bool) (xs : List A) → any p xs ≡ false → any p (select q xs) ≡ false
  any-select p q [] h = refl
  any-select p q (x ∷ xs) h = ground (arith, any-select p q xs)

  pub any-select_none :
      (p q : A → Bool) (xs : List A)
      → ((x : A) → q x ≡ true → p x ≡ false)
      → any p (select q xs) ≡ false
  any-select_none p q [] h = refl
  any-select_none p q (x ∷ xs) h = ground (arith, h x, any-select_none p q xs h)

  pub select-all :
      (p q : A → Bool) (xs : List A)
      → ((x : A) → p x ≡ false → q x ≡ true)
      → any p xs ≡ false
      → select q xs ≡ xs
  select-all p q [] h k = refl
  select-all p q (x ∷ xs) h k = ground (arith, h x, select-all p q xs h)

  pub select-IsApart :
      (r : A → A → Bool) (q : A → Bool) (xs : List A) → IsApart r xs → IsApart r (select q xs)
  select-IsApart r q [] v = tt
  select-IsApart r q (x ∷ xs) v = ground (arith, any-select (r x) q xs, select-IsApart r q xs v.1)

  -- What holds of no value holds of none that is sorted or taken.
  any-insert_by :
      (p : A → Bool) (le : A → A → Bool) (x : A) (xs : List A)
      → p x ≡ false
      → any p xs ≡ false
      → any p (insert_by le x xs) ≡ false
  unfolding insert_by
  any-insert_by p le x [] h k = ground arith
  any-insert_by p le x (y ∷ ys) h k = ground (arith, any-insert_by p le x ys)

  pub any-sort_by :
      (p : A → Bool) (le : A → A → Bool) (xs : List A)
      → any p xs ≡ false
      → any p (sort_by le xs) ≡ false
  unfolding sort_by
  any-sort_by p le [] h = refl
  any-sort_by p le (x ∷ xs) h =
      ground (arith, any-sort_by p le xs, any-insert_by p le x (sort_by le xs))

  pub any-take : (p : A → Bool) (n : ℕ) (xs : List A) → any p xs ≡ false → any p (take n xs) ≡ false
  any-take p zero xs h = refl
  any-take p (suc n) [] h = refl
  any-take p (suc n) (x ∷ xs) h = ground (arith, any-take p n xs)

  pub length-take_le : (n : ℕ) (xs : List A) → length (take n xs) ≤ n
  length-take_le zero xs = omega arith
  length-take_le (suc n) [] = omega arith
  length-take_le (suc n) (x ∷ xs) = omega (arith, length-take_le n xs)
