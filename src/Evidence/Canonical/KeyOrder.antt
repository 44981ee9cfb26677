-- ===== src/Evidence/Canonical/KeyOrder.antt =====
-- What the normal form of src/evidence/canonical.ts forgets: the order of an object's keys.
use sentry_forensic_gate.Base.{◌≡◌, ◌≢◌, refl, ◌∙◌, ap, arith, Text}
use sentry_forensic_gate.Evidence.Canonical.{
  Json, obj, Fields, end, field, insert_field, normalize, normalize_fields, sha256_hex,
}
use sentry_forensic_gate.Evidence.Canonical.Order.{text_lt-asymm, text_lt_trans, text_lt_total}

-- Two lists of properties with the same properties, each key once, in any order.
pub data SameProperties : Fields → Fields → Type 0 where
  same : (fs : Fields) → SameProperties fs fs
  keep :
      (k : Text) (v : Json) {fs gs : Fields}
      → SameProperties fs gs
      → SameProperties (field k v fs) (field k v gs)
  swap :
      (j k : Text) (v w : Json) (fs : Fields)
      → j ≢ k
      → SameProperties (field j v (field k w fs)) (field k w (field j v fs))
  chain : {fs gs hs : Fields} → SameProperties fs gs → SameProperties gs hs → SameProperties fs hs

pub insert_field_comm :
    (j k : Text) (v w : Json) (fs : Fields)
    → j ≢ k
    → insert_field j v (insert_field k w fs) ≡ insert_field k w (insert_field j v fs)
unfolding insert_field
insert_field_comm j k v w end ne = ground (arith, text_lt-asymm j k, text_lt_total j k)
insert_field_comm j k v w (field i x fs) ne = ground (
  arith,
  insert_field_comm j k v w fs ne,
  text_lt-asymm j k,
  text_lt-asymm k j,
  text_lt_total j k,
  text_lt_trans i j k,
  text_lt_trans i k j,
)

normalize_fields-SameProperties :
    {fs gs : Fields} → SameProperties fs gs → normalize_fields fs ≡ normalize_fields gs
unfolding normalize
normalize_fields-SameProperties (same fs) = refl
normalize_fields-SameProperties (keep k v s) =
    ap (insert_field k (normalize v)) (normalize_fields-SameProperties s)
normalize_fields-SameProperties (swap j k v w fs ne) = insert_field_comm j k _ _ _ ne
normalize_fields-SameProperties (chain s t) =
    normalize_fields-SameProperties s ∙ normalize_fields-SameProperties t

-- Objects with the same properties, in whatever order they were built, have one digest.
pub sha256_hex-SameProperties :
    (digest : Json → Text) {fs gs : Fields}
    → SameProperties fs gs
    → sha256_hex digest (obj fs) ≡ sha256_hex digest (obj gs)
unfolding sha256_hex normalize
sha256_hex-SameProperties digest s = ap (λ f. digest (obj f)) (normalize_fields-SameProperties s)
