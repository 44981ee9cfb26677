-- ===== src/Base/Sorting.antt =====
-- `sort` and `slice` keep the values: what is sorted is a permutation in order, and what is taken is
-- the first part.
use Prim.Native.Nat.{ℕ, zero, suc}
use mathlib.Core.Path.{◌≡◌, refl, ap}
use mathlib.Core.Bool.{Bool, true, false, not}
use mathlib.Core.Logic.{◌⊎◌, inl, inr}
use mathlib.Core.List.{List, [], ◌∷◌, ◌++◌, Perm, perm_middle}
use mathlib.Core.List.Perm
use native.Mathlib.Omega.{arith}
use sentry_forensic_gate.Base.Tests.{Bool-cases}
use sentry_forensic_gate.Base.Lists.{All, take, length, select}
use sentry_forensic_gate.Base.Collections.{insert_by, sort_by}

module _ {A : Type 0} (le : A → A → Bool) where
  -- Each value is before all that follow.
  abbrev pub IsOrdered : List A → Type 0
  IsOrdered [] = Unit
  IsOrdered (x ∷ xs) = All (λ y. le x y ≡ true) xs × IsOrdered xs

  insert_by-perm : (x : A) (xs : List A) → Perm (insert_by le x xs) (x ∷ xs)
  unfolding insert_by
  insert_by-perm x [] = Perm.refl (x ∷ [])
  insert_by-perm x (y ∷ ys) = elim (Bool-cases (le x y)) [
    | inl e ↦ rw (e, insert_by) (Perm.refl (x ∷ y ∷ ys))
    | inr e ↦ rw (e, insert_by) (Perm.trans (Perm.cons y (insert_by-perm x ys)) (Perm.swap x y ys))
  ]

  pub sort_by-perm : (xs : List A) → Perm (sort_by le xs) xs
  unfolding sort_by
  sort_by-perm [] = Perm.refl []
  sort_by-perm (x ∷ xs) =
      Perm.trans (insert_by-perm x (sort_by le xs)) (Perm.cons x (sort_by-perm xs))

  insert_by-All :
      (P : A → Type 0) (x : A) (xs : List A) → P x → All P xs → All P (insert_by le x xs)
  unfolding insert_by
  insert_by-All P x [] p h = (p, tt)
  insert_by-All P x (y ∷ ys) p h = elim (Bool-cases (le x y)) [
    | inl e ↦ rw (e, insert_by) (p, h)
    | inr e ↦ rw (e, insert_by) (h.0, insert_by-All P x ys p h.1)
  ]

  pub sort_by-All : (P : A → Type 0) (xs : List A) → All P xs → All P (sort_by le xs)
  unfolding sort_by
  sort_by-All P [] h = tt
  sort_by-All P (x ∷ xs) h = insert_by-All P x (sort_by le xs) h.0 (sort_by-All P xs h.1)

  All-imp : (P Q : A → Type 0) (xs : List A) → ((x : A) → P x → Q x) → All P xs → All Q xs
  All-imp P Q [] f h = tt
  All-imp P Q (x ∷ xs) f h = (f x h.0, All-imp P Q xs f h.1)

  module _ (le_trans : (a b c : A) → le a b ≡ true → le b c ≡ true → le a c ≡ true)
      (le_total : (a b : A) → le a b ≡ false → le b a ≡ true) where
    insert_by-IsOrdered : (x : A) (xs : List A) → IsOrdered xs → IsOrdered (insert_by le x xs)
    unfolding insert_by
    insert_by-IsOrdered x [] v = (tt, tt)
    insert_by-IsOrdered x (y ∷ ys) v = elim (Bool-cases (le x y)) [
      | inl e ↦
          rw (e, insert_by)
            (
              (
                e,
                All-imp (λ z. le y z ≡ true) (λ z. le x z ≡ true) ys (λ z h. le_trans x y z e h)
                    v.0,
              ),
              v,
            )
      | inr e ↦
          rw (e, insert_by)
            (
              insert_by-All (λ z. le y z ≡ true) x ys (le_total x y e) v.0,
              insert_by-IsOrdered x ys v.1,
            )
    ]

    pub sort_by-IsOrdered : (xs : List A) → IsOrdered (sort_by le xs)
    unfolding sort_by
    sort_by-IsOrdered [] = tt
    sort_by-IsOrdered (x ∷ xs) = insert_by-IsOrdered x (sort_by le xs) (sort_by-IsOrdered xs)

-- What a filter keeps and what it drops.
pub select-perm :
    {A : Type 0} (p : A → Bool) (xs : List A) → Perm (select p xs ++ select (λ x. not (p x)) xs) xs
select-perm p [] = Perm.refl []
select-perm p (x ∷ xs) = elim (Bool-cases (p x)) [
  | inl e ↦ rw (e, select) (Perm.cons x (select-perm p xs))
  | inr e ↦
      rw (e, select)
        (Perm.trans (perm_middle (select p xs) (select (λ x. not (p x)) xs))
          (Perm.cons x (select-perm p xs)))
]

-- What a `slice(0, n)` leaves: nothing, unless it has taken `n` values.
pub take-rest :
    {A : Type 0} (n : ℕ) (xs : List A)
    → (rest : List A) × (take n xs ++ rest ≡ xs) × ((rest ≡ []) ⊎ (length (take n xs) ≡ n))
take-rest zero xs = (xs, refl, inr refl)
take-rest (suc n) [] = ([], refl, inl refl)
take-rest (suc n) (x ∷ xs) =
    let (rest, e, h) = take-rest n xs in
    (rest, ap (λ ys. x ∷ ys) e, elim h [ inl q ↦ inl q | inr q ↦ inr (omega (arith, q)) ])
