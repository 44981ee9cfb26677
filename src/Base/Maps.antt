-- ===== src/Base/Maps.antt =====
-- `Map` and `Set` with text keys, as lists in the order of insertion.
use Prim.Native.Nat.{suc, ◌+◌, ◌≤◌}
use mathlib.Core.Path.{◌≡◌, ap}
use mathlib.Core.Bool.{Bool, true, false, ◌||◌}
use mathlib.Core.Option.{Option, none, some}
use mathlib.Core.List.{List, [], ◌∷◌}
use native.Mathlib.Omega.{arith}
use sentry_forensic_gate.Base.Tests.{if◌then◌else◌, is_some}
use sentry_forensic_gate.Base.Lists.{length}
use sentry_forensic_gate.Base.Texts.{Text, text_eq, text_eq_iff}

module _ {A : Type 0} where
  unfoldable pub get_key : Text → List (Text × A) → Option A
  get_key k [] = none
  get_key k ((j, a) ∷ m) = if text_eq j k then some a else get_key k m

  -- `set`: a key that is there keeps its place.
  unfoldable pub set_key : Text → A → List (Text × A) → List (Text × A)
  set_key k a [] = (k, a) ∷ []
  set_key k a ((j, b) ∷ m) = if text_eq j k then (j, a) ∷ m else (j, b) ∷ set_key k a m

  unfoldable pub delete_key : Text → List (Text × A) → List (Text × A)
  delete_key k [] = []
  delete_key k ((j, b) ∷ m) = if text_eq j k then delete_key k m else (j, b) ∷ delete_key k m

  pub get_key-delete_key :
      (k j : Text) (m : List (Text × A))
      → get_key j (delete_key k m) ≡ (if text_eq k j then none else get_key j m)
  unfolding get_key delete_key
  get_key-delete_key k j [] = ground arith
  get_key-delete_key k j ((i, b) ∷ m) =
      ground (arith, get_key-delete_key k j m, text_eq_iff i k, text_eq_iff i j, text_eq_iff k j)

  pub get_key-set_key :
      (k j : Text) (a : A) (m : List (Text × A))
      → get_key j (set_key k a m) ≡ (if text_eq k j then some a else get_key j m)
  unfolding get_key set_key
  get_key-set_key k j a [] = ground (arith, text_eq_iff k j)
  get_key-set_key k j a ((i, b) ∷ m) =
      ground (arith, get_key-set_key k j a m, text_eq_iff i k, text_eq_iff i j, text_eq_iff k j)

module _ {A : Type 0} where
  pub length-set_key :
      (k : Text) (a : A) (m : List (Text × A)) → length (set_key k a m) ≤ suc (length m)
  unfolding set_key
  length-set_key k a [] = omega arith
  length-set_key k a ((j, b) ∷ m) = ground (arith, length-set_key k a m)

  pub length-delete_key :
      (k : Text) (m : List (Text × A))
      → length (delete_key k m) + (if is_some (get_key k m) then 1 else 0) ≤ length m
  unfolding delete_key get_key
  length-delete_key k [] = omega arith
  length-delete_key k ((j, b) ∷ m) = ground (arith, length-delete_key k m)

unfoldable pub has_member : Text → List Text → Bool
has_member k [] = false
has_member k (j ∷ s) = text_eq j k || has_member k s

unfoldable pub add_member : Text → List Text → List Text
unfolding has_member
add_member k s = if has_member k s then s else k ∷ s

unfoldable pub delete_member : Text → List Text → List Text
delete_member k [] = []
delete_member k (j ∷ s) = if text_eq j k then delete_member k s else j ∷ delete_member k s

pub has_member-add_member :
    (k j : Text) (s : List Text) → has_member j (add_member k s) ≡ (text_eq k j || has_member j s)
unfolding has_member add_member
has_member-add_member k j s = ground (arith, text_eq_iff k j, same k j s)
  where
    same : (k j : Text) (s : List Text) → text_eq k j ≡ true → has_member k s ≡ has_member j s
    same k j s e = ap (λ t. has_member t s) ((text_eq_iff k j).0 e)

pub has_member-delete_member :
    (k j : Text) (s : List Text)
    → has_member j (delete_member k s) ≡ (if text_eq k j then false else has_member j s)
unfolding has_member delete_member
has_member-delete_member k j [] = ground arith
has_member-delete_member k j (i ∷ s) =
    ground
      (arith, has_member-delete_member k j s, text_eq_iff i k, text_eq_iff i j, text_eq_iff k j)

pub length-add_member : (k : Text) (s : List Text) → length (add_member k s) ≤ suc (length s)
unfolding add_member
length-add_member k s = ground arith

pub length-delete_member :
    (k : Text) (s : List Text)
    → length (delete_member k s) + (if has_member k s then 1 else 0) ≤ length s
unfolding delete_member has_member
length-delete_member k [] = omega arith
length-delete_member k (j ∷ s) = ground (arith, length-delete_member k s)
