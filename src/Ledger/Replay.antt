-- ===== src/Ledger/Replay.antt =====
-- Launches that src/db/memoryStore.ts sees twice.
use sentry_forensic_gate.Base.{
  ◌≡◌, ap, Bool, true, none, some, List, [], ◌∷◌, ◌++◌, arith, Text, text_eq_refl, find,
  Option-cases, inl, inr,
}
use sentry_forensic_gate.Base.Result.{ok}
use sentry_forensic_gate.Domain.{LaunchObserved}
use sentry_forensic_gate.Evidence.Canonical.{Json, canonical_json}
use sentry_forensic_gate.Sentry.Identity.{
  normalize_launch_hex, same_launch_authority, launch_authority,
}
use sentry_forensic_gate.Ledger.{MemoryStore, has_launch_id, put_launch, inserted, duplicate}

-- The same launch, seen at another time or written in other cases of its hexadecimal digits.
abbrev pub SameLaunch : LaunchObserved → LaunchObserved → Type 0
SameLaunch a b =
    normalize_launch_hex a ≡ normalize_launch_hex (record b { observed_at_ms = a.observed_at_ms })

find-last :
    {A : Type 0} (p : A → Bool) (xs : List A) (x : A)
    → find p xs ≡ none
    → p x ≡ true
    → find p (xs ++ x ∷ []) ≡ some x
find-last p [] x h k = ground arith
find-last p (y ∷ xs) x h k = ground (arith, find-last p xs x)

same_id : (a b : LaunchObserved) → SameLaunch a b → a.launch_id ≡ b.launch_id
unfolding normalize_launch_hex
same_id a b h = ap (λ (l : LaunchObserved). l.launch_id) h

same_authority :
    (a b : LaunchObserved)
    → SameLaunch a b
    → launch_authority (normalize_launch_hex a) ≡ launch_authority (normalize_launch_hex b)
unfolding launch_authority
same_authority a b h = ap (λ (l : LaunchObserved). launch_authority l) h

module _ (stringify : Json → Text) where
  -- A launch that was inserted is a duplicate when it is seen again at once, at another time or in
  -- other cases of its digits, and the ledger stays as it is.
  pub put_launch-SameLaunch :
      (a b : LaunchObserved) (ledger : MemoryStore)
      → SameLaunch a b
      → (put_launch stringify a ledger).0 ≡ ok inserted
      → put_launch stringify b (put_launch stringify a ledger).1
        ≡ (ok duplicate, (put_launch stringify a ledger).1)
  unfolding put_launch same_launch_authority normalize_launch_hex
  put_launch-SameLaunch a b ledger h e =
      let one = launch_authority (normalize_launch_hex a) in
      elim (Option-cases (find (has_launch_id a.launch_id) ledger.launches)) [
        | inl n ↦ ground (
          arith,
          same_id a b h,
          same_authority a b h,
          text_eq_refl a.launch_id,
          text_eq_refl (canonical_json stringify one),
          find-last (has_launch_id a.launch_id) ledger.launches (normalize_launch_hex a) n,
        )
        | inr (r, n) ↦ ground arith
      ]
