-- ===== src/Base/Decimal.antt =====
-- The decimal print of a bigint that is not negative, `toString(10)`, and its reading, `BigInt` of
-- `/^\d+$/`.
use Prim.Native.Nat.{ℕ, zero, suc, ◌+◌, ◌-◌, ◌*◌, ◌/◌, ◌%◌}
use mathlib.Core.Bool.{Bool, true, ◌&&◌, not}
use mathlib.Core.List.{[], ◌∷◌, ◌++◌}
use sentry_forensic_gate.Base.Tests.{ltb, leb, if◌then◌else◌}
use sentry_forensic_gate.Base.Texts.{Text, is_empty}

-- The digits of `n`, least significant last; the fuel `n` is enough, as `n / 10 < n`.
decimal_digits : ℕ → ℕ → Text
decimal_digits zero n = (n % 10 + b'0') ∷ []
decimal_digits (suc f) n =
    let more = decimal_digits f (n / 10) ++ (n % 10 + b'0') ∷ [] in
    if ltb n 10 then (n + b'0') ∷ [] else more

unfoldable pub to_decimal : ℕ → Text
unfolding decimal_digits
to_decimal n = decimal_digits n n

abbrev is_digit : ℕ → Bool
is_digit c = leb b'0' c && leb c b'9'

all_digits : Text → Bool
all_digits [] = true
all_digits (c ∷ s) = is_digit c && all_digits s

-- `/^\d+$/.test(s)`
unfoldable pub is_decimal : Text → Bool
unfolding all_digits
is_decimal s = not (is_empty s) && all_digits s

digits_from : ℕ → Text → ℕ
digits_from n [] = n
digits_from n (c ∷ s) = digits_from (n * 10 + (c - b'0')) s

unfoldable pub big_int : Text → ℕ
unfolding digits_from
big_int s = digits_from 0 s
