-- ===== src/Evidence/Canonical.antt =====
-- src/evidence/canonical.ts: values with their object keys in order, and their digests.
-- `JSON.stringify`, the UTF-8 encoder, SHA-256 and the hexadecimal print of its bytes are one
-- parameter, `digest`, on values that are normalized; where text is compared and not digested,
-- `JSON.stringify` alone is a parameter.
pub mod Order
pub mod KeyOrder
mod Tests
use sentry_forensic_gate.Base.{
  codes, to_decimal, ℕ, zero, suc, ◌+◌, ◌/◌, ◌%◌, Bool, true, false, ◌≡◌, refl, [], ◌∷◌, ◌++◌, Text,
  ltb, ◌==◌, if◌then◌else◌,
}

-- `unknown` values that the program digests: numbers, other than bigints, are not negative in them.
mutual
  pub data Json : Type 0 where
    null : Json
    bool : Bool → Json
    num : ℕ → Json
    bigint : ℕ → Json
    -- `-1n - n`
    negative_bigint : ℕ → Json
    str : Text → Json
    arr : Items → Json
    obj : Fields → Json

  pub data Items : Type 0 where
    nil : Items
    cons : Json → Items → Items

  pub data Fields : Type 0 where
    end : Fields
    field : Text → Json → Fields → Fields

-- The order of `sort()` on strings, by code units.
unfoldable pub text_lt : Text → Text → Bool
text_lt [] [] = false
text_lt [] (b ∷ t) = true
text_lt (a ∷ s) [] = false
text_lt (a ∷ s) (b ∷ t) = if ltb a b then true else if a == b then text_lt s t else false

unfoldable pub insert_field : Text → Json → Fields → Fields
unfolding text_lt
insert_field k v end = field k v end
insert_field k v (field j w fs) =
    if text_lt j k then field j w (insert_field k v fs) else field k v (field j w fs)

unfoldable mutual
  unfolding insert_field to_decimal

  pub normalize : Json → Json
  normalize null = null
  normalize (bool b) = bool b
  normalize (num n) = num n
  normalize (bigint n) = str (to_decimal n)
  normalize (negative_bigint n) = str (codes "-" ++ to_decimal (suc n))
  normalize (str s) = str s
  normalize (arr xs) = arr (normalize_items xs)
  normalize (obj fs) = obj (normalize_fields fs)

  pub normalize_items : Items → Items
  normalize_items nil = nil
  normalize_items (cons x xs) = cons (normalize x) (normalize_items xs)

  pub normalize_fields : Fields → Fields
  normalize_fields end = end
  normalize_fields (field k v fs) = insert_field k (normalize v) (normalize_fields fs)

-- `canonicalJson`, where `stringify` is `JSON.stringify`
unfoldable pub canonical_json : (Json → Text) → Json → Text
canonical_json stringify value = stringify (normalize value)

-- `sha256Hex`
unfoldable pub sha256_hex : (Json → Text) → Json → Text
sha256_hex digest value = digest (normalize value)
