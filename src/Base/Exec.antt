-- ===== src/Base/Exec.antt =====
-- Async methods that write a store and can throw: what was written before a throw stays.
use mathlib.Core.Bool.{Bool, true, false}
use sentry_forensic_gate.Base.Result.{Result, ok, err}

abbrev pub Exec : Type 0 → Type 0 → Type 0 → Type 0
Exec E S A = S → Result E A × S

module _ {E S A : Type 0} where
  abbrev pub pure : A → Exec E S A
  pure a s = (ok a, s)

  abbrev pub throw : E → Exec E S A
  throw e s = (err e, s)

  abbrev pub lift : Result E A → Exec E S A
  lift r s = (r, s)

  abbrev pub gets : (S → A) → Exec E S A
  gets f s = (ok (f s), s)

module _ {E S : Type 0} where
  abbrev pub modify : (S → S) → Exec E S (Unit {0})
  modify f s = (ok tt, f s)

  abbrev pub throw_when : Bool → E → Exec E S (Unit {0})
  throw_when true e s = (err e, s)
  throw_when false e s = (ok tt, s)

module _ {E S A B : Type 0} where
  abbrev pub continue : Result E A → (A → Exec E S B) → Exec E S B
  continue (ok a) f s = f a s
  continue (err e) f s = (err e, s)

  infixl 5 ◌>>=◌
  abbrev pub ◌>>=◌ : Exec E S A → (A → Exec E S B) → Exec E S B
  ◌>>=◌ m f s = let (r, s') = m s in continue r f s'

module _ {E S A : Type 0} where
  infixl 5 ◌>>◌
  abbrev pub ◌>>◌ : Exec E S (Unit {0}) → Exec E S A → Exec E S A
  m >> n = m >>= λ _. n

  abbrev pub recover : Result E A → (E → Exec E S A) → Exec E S A
  recover (ok a) handler s = (ok a, s)
  recover (err e) handler s = handler e s

  -- `try { m } catch (error) { handler(error) }`
  abbrev pub catch_with : Exec E S A → (E → Exec E S A) → Exec E S A
  catch_with m handler s = let (r, s') = m s in recover r handler s'
