-- ===== src/Base/Texts.antt =====
-- JavaScript strings as lists of code units, compared by `===` and folded by `toLowerCase`.
-- The program folds only hexadecimal text, so the fold is that of the ASCII letters.
use Prim.Native.Char.{code}
use Prim.Native.String.{String}
use Prim.Native.Nat.{ℕ, ◌+◌}
use mathlib.Core.Path.{◌≡◌, refl}
use mathlib.Core.Logic.{◌↔◌}
use mathlib.Core.Bool.{Bool, true, false, ◌&&◌}
use mathlib.Core.Option.{Option, none, some}
use mathlib.Core.List.{List, [], ◌∷◌, map}
use native.Mathlib.Omega.{arith}
use sentry_forensic_gate.Base.Tests.{leb, ◌==◌, if◌then◌else◌}

abbrev pub Text : Type 0
Text = List ℕ

-- The code units of a literal.
abbrev pub codes : String → Text
codes String.[] = []
codes (String.◌∷◌ c s) = code c ∷ codes s

-- `===` on strings
unfoldable pub text_eq : Text → Text → Bool
text_eq [] [] = true
text_eq (a ∷ s) (b ∷ t) = a == b && text_eq s t
text_eq _ _ = false

-- `===` where one side can be undefined
unfoldable pub same_text : Option Text → Option Text → Bool
unfolding text_eq
same_text none none = true
same_text (some a) (some b) = text_eq a b
same_text _ _ = false

-- `!s`: a string is falsy when it is empty.
abbrev pub is_empty : Text → Bool
is_empty [] = true
is_empty (c ∷ s) = false

pub text_eq_refl : (s : Text) → text_eq s s ≡ true
unfolding text_eq
text_eq_refl [] = refl
text_eq_refl (c ∷ s) = ground (arith, text_eq_refl s)

pub eq_of_text_eq : (s t : Text) → text_eq s t ≡ true → s ≡ t
unfolding text_eq
eq_of_text_eq [] [] h = refl
eq_of_text_eq (a ∷ s) (b ∷ t) h = ground (arith, eq_of_text_eq s t)
eq_of_text_eq [] (b ∷ t) h = cc
eq_of_text_eq (a ∷ s) [] h = cc

pub text_eq_iff : (s t : Text) → (text_eq s t ≡ true) ↔ (s ≡ t)
text_eq_iff s t = (eq_of_text_eq s t, λ e. subst_refl e)
  where
    subst_refl : s ≡ t → text_eq s t ≡ true
    subst_refl e = rw e (text_eq_refl t)

lower_char : ℕ → ℕ
lower_char c = if leb b'A' c && leb c b'Z' then c + 32 else c

lower_char_idem : (c : ℕ) → lower_char (lower_char c) ≡ lower_char c
unfolding lower_char
lower_char_idem c = ground arith

-- `toLowerCase`
unfoldable pub to_lower_case : Text → Text
unfolding lower_char
to_lower_case s = map lower_char s

pub is_empty-to_lower_case : (s : Text) → is_empty (to_lower_case s) ≡ is_empty s
unfolding to_lower_case
is_empty-to_lower_case [] = refl
is_empty-to_lower_case (c ∷ s) = refl

pub to_lower_case_idem : (s : Text) → to_lower_case (to_lower_case s) ≡ to_lower_case s
unfolding to_lower_case
to_lower_case_idem [] = refl
to_lower_case_idem (c ∷ s) = cc (lower_char_idem c, to_lower_case_idem s)

-- `sameHex` of runtime/sentryTruth.ts: equality that ignores the case of the digits.
unfoldable pub same_hex : Text → Text → Bool
unfolding to_lower_case text_eq
same_hex a b = text_eq (to_lower_case a) (to_lower_case b)
