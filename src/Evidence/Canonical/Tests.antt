-- ===== src/Evidence/Canonical/Tests.antt =====
-- src/evidence/canonical.ts on two objects that differ in the order of their keys.
use sentry_forensic_gate.Base.{◌≡◌, refl, [], ◌∷◌, Text, codes, arith}
use sentry_forensic_gate.Evidence.Canonical.{
  Json, num, bigint, str, obj, end, field, normalize, sha256_hex, text_lt,
}
use sentry_forensic_gate.Evidence.Canonical.KeyOrder.{swap, sha256_hex-SameProperties}

abbrev digest : Json → Text
digest value = 1 ∷ []

normalize_run :
    normalize (obj (field (2 ∷ []) (num 1) (field (1 ∷ []) (bigint 12) end)))
    ≡ obj (field (1 ∷ []) (str (codes "12")) (field (2 ∷ []) (num 1) end))
unfolding normalize text_lt
normalize_run = refl

sha256_hex-SameProperties_example :
    sha256_hex digest (obj (field (2 ∷ []) (num 1) (field (1 ∷ []) (bigint 12) end)))
    ≡ sha256_hex digest (obj (field (1 ∷ []) (bigint 12) (field (2 ∷ []) (num 1) end)))
sha256_hex-SameProperties_example =
    sha256_hex-SameProperties digest
      (swap (2 ∷ []) (1 ∷ []) (num 1) (bigint 12) end (λ e. ground arith))
