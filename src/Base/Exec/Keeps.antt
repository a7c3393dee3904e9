-- ===== src/Base/Exec/Keeps.antt =====
-- Invariants of methods, one rule for each way to build a method. The invariant holds of the state
-- that comes back, whether the method returned or raised.
use bigrag.Base.{◌≡◌, refl, Bool, true, false, if◌then◌else◌}
use bigrag.Base.Result.{Result, ok, err}
use bigrag.Base.Exec.{Exec, pure, raise, lift, gets, continue, ◌>>=◌, when}

pub record Keeps {ℓ κ ι π} {E : Type ι} {S : Type ℓ} {A : Type κ} (P : S → Type π) (m : Exec E S A)
    : Type (ℓ ⊔ π) where
  pub at : (s : S) → P s → P (m s).1

module _ {ℓ κ ι π} {E : Type ι} {S : Type ℓ} {A : Type κ} {P : S → Type π} where
  pub Keeps-pure : (a : A) → Keeps P (pure {E = E} a)
  Keeps-pure a = record { at = λ s h. h }

  pub Keeps-raise : (e : E) → Keeps P (raise {A = A} e)
  Keeps-raise e = record { at = λ s h. h }

  pub Keeps-lift : (r : Result E A) → Keeps P (lift r)
  Keeps-lift r = record { at = λ s h. h }

  pub Keeps-gets : (f : S → A) → Keeps P (gets {E = E} f)
  Keeps-gets f = record { at = λ s h. h }

  pub Keeps-if :
      (b : Bool) (m n : Exec E S A) → Keeps P m → Keeps P n → Keeps P (if b then m else n)
  Keeps-if true m n km kn = km
  Keeps-if false m n km kn = kn

module _ {ℓ ι π} {E : Type ι} {S : Type ℓ} {P : S → Type π} where
  pub Keeps-when :
      (b : Bool) (m : Exec E S (Unit {0})) → (b ≡ true → Keeps P m) → Keeps P (when b m)
  Keeps-when true m k = k refl
  Keeps-when false m k = Keeps-pure tt

module _ {ℓ κ μ ι π} {E : Type ι} {S : Type ℓ} {A : Type κ} {B : Type μ} {P : S → Type π} where
  continue-Keeps :
      (r : Result E A) (f : A → Exec E S B) (s : S)
      → ((a : A) → Keeps P (f a))
      → P s
      → P (continue r f s).1
  continue-Keeps (ok a) f s k h = (k a).at s h
  continue-Keeps (err e) f s k h = h

  -- The same at one state, where the invariant after `m` needs more than the invariant.
  pub Keeps-bind_at :
      (m : Exec E S A) (f : A → Exec E S B) (s : S)
      → P (m s).1
      → ((a : A) → Keeps P (f a))
      → P ((m >>= f) s).1
  Keeps-bind_at m f s h kf = let (r, s') = m s in continue-Keeps r f s' kf h

  pub Keeps-bind :
      (m : Exec E S A) (f : A → Exec E S B)
      → Keeps P m
      → ((a : A) → Keeps P (f a))
      → Keeps P (m >>= f)
  Keeps-bind m f km kf = record {
    at = λ s h. let (r, s') = m s in continue-Keeps r f s' kf (km.at s h);
  }

pub ruleset keeps_rules = (Keeps-pure, Keeps-raise, Keeps-lift, Keeps-gets, Keeps-if, Keeps-bind)
