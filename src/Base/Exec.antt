-- ===== src/Base/Exec.antt =====
-- Methods that change a state and may raise. What was written before an exception stays written,
-- so the state comes back beside the exception too.
pub mod Keeps
pub mod Triple
use bigrag.Base.{◌≡◌, refl, Bool, true, false}
use bigrag.Base.Result.{Result, ok, err}

abbrev pub Exec {ℓ κ ι} : Type ι → Type ℓ → Type κ → Type (ℓ ⊔ κ ⊔ ι)
Exec E S A = S → Result E A × S

module _ {ℓ κ ι} {E : Type ι} {S : Type ℓ} {A : Type κ} where
  abbrev pub pure : A → Exec E S A
  pure a s = (ok a, s)

  abbrev pub raise : E → Exec E S A
  raise e s = (err e, s)

  -- A pure computation that may raise.
  abbrev pub lift : Result E A → Exec E S A
  lift r s = (r, s)

  abbrev pub gets : (S → A) → Exec E S A
  gets f s = (ok (f s), s)

module _ {ℓ ι} {E : Type ι} {S : Type ℓ} where
  abbrev pub modify : (S → S) → Exec E S (Unit {0})
  modify f s = (ok tt, f s)

  -- `if test: action`
  abbrev pub when : Bool → Exec E S (Unit {0}) → Exec E S (Unit {0})
  when true m = m
  when false m = pure tt

module _ {ℓ κ μ ι} {E : Type ι} {S : Type ℓ} {A : Type κ} {B : Type μ} where
  abbrev pub continue : Result E A → (A → Exec E S B) → Exec E S B
  continue (ok a) f s = f a s
  continue (err e) f s = (err e, s)

  infixl 10 ◌>>=◌
  abbrev pub ◌>>=◌ : Exec E S A → (A → Exec E S B) → Exec E S B
  ◌>>=◌ m f s = let (r, s') = m s in continue r f s'

module _ {ℓ μ ι} {E : Type ι} {S : Type ℓ} {B : Type μ} where
  infixl 10 ◌>>◌
  abbrev pub ◌>>◌ : Exec E S (Unit {0}) → Exec E S B → Exec E S B
  m >> n = m >>= λ _. n

-- Inversion of a block that returned.
module _ {ℓ κ μ ι} {E : Type ι} {S : Type ℓ} {A : Type κ} {B : Type μ} where
  continue-eq-ok :
      (r : Result E A) (f : A → Exec E S B) (s : S) {b : B}
      → (continue r f s).0 ≡ ok b
      → (a : A) × (r ≡ ok a) × ((f a s).0 ≡ ok b)
  continue-eq-ok (ok a) f s h = (a, refl, h)
  continue-eq-ok (err e) f s h = cc

  pub >>=-eq-ok :
      (m : Exec E S A) (f : A → Exec E S B) (s : S) {b : B}
      → ((m >>= f) s).0 ≡ ok b
      → (a : A) × ((m s).0 ≡ ok a) × ((f a (m s).1).0 ≡ ok b)
  >>=-eq-ok m f s h = let (r, s') = m s in continue-eq-ok r f s' h
