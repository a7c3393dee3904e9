-- ===== src/Base/Exec/Triple.antt =====
-- Conditions before and after a method: one after it returned, one after it raised.
use bigrag.Base.{Bool, true, false}
use bigrag.Base.Result.{Result, ok, err}
use bigrag.Base.Exec.{Exec, pure, raise, lift, gets, modify, continue, ◌>>=◌, when}

module _ {ℓ κ ι π} {E : Type ι} {S : Type ℓ} {A : Type κ} where
  -- What holds of an outcome.
  abbrev pub Post : (S → Type π) → (S → Type π) → Result E A → S → Type π
  Post Q R (ok a) s = Q s
  Post Q R (err e) s = R s

  pub Post-same : (Q : S → Type π) (r : Result E A) (s : S) → Q s → Post Q Q r s
  Post-same Q (ok a) s h = h
  Post-same Q (err e) s h = h

pub record Triple {ℓ κ ι π} {E : Type ι} {S : Type ℓ} {A : Type κ} (P : S → Type π) (m : Exec E S A)
    (Q R : S → Type π) : Type (ℓ ⊔ π) where
  pub at : (s : S) → P s → Post Q R (m s).0 (m s).1

module _ {ℓ κ ι π} {E : Type ι} {S : Type ℓ} {A : Type κ} {Q R : S → Type π} where
  pub Triple-pure : (a : A) → Triple Q (pure {E = E} a) Q R
  Triple-pure a = record { at = λ s h. h }

  pub Triple-raise : (e : E) → Triple R (raise {A = A} e) Q R
  Triple-raise e = record { at = λ s h. h }

module _ {ℓ κ ι π} {E : Type ι} {S : Type ℓ} {A : Type κ} {Q R : S → Type π} where
  pub Triple-gets : (f : S → A) → Triple Q (gets {E = E} f) Q R
  Triple-gets f = record { at = λ s h. h }

module _ {ℓ κ ι π} {E : Type ι} {S : Type ℓ} {A : Type κ} {Q : S → Type π} where
  pub Triple-lift : (r : Result E A) → Triple Q (lift r) Q Q
  Triple-lift (ok a) = record { at = λ s h. h }
  Triple-lift (err e) = record { at = λ s h. h }

module _ {ℓ ι π} {E : Type ι} {S : Type ℓ} {P : S → Type π} where
  pub Triple-modify :
      {Q R : S → Type π} (f : S → S) → ((s : S) → P s → Q (f s)) → Triple P (modify {E = E} f) Q R
  Triple-modify f k = record { at = k }

  pub Triple-when :
      {R : S → Type π} (b : Bool) (m : Exec E S (Unit {0}))
      → Triple P m P R
      → Triple P (when b m) P R
  Triple-when true m k = k
  Triple-when false m k = Triple-pure tt

module _ {ℓ κ μ ι π} {E : Type ι} {S : Type ℓ} {A : Type κ} {B : Type μ} {Q U R : S → Type π} where
  continue-Post :
      (r : Result E A) (f : A → Exec E S B) (s : S)
      → Post Q R r s
      → ((a : A) → Triple Q (f a) U R)
      → Post U R (continue r f s).0 (continue r f s).1
  continue-Post (ok a) f s h k = (k a).at s h
  continue-Post (err e) f s h k = h

  pub Triple-bind :
      {P : S → Type π} (m : Exec E S A) (f : A → Exec E S B)
      → Triple P m Q R
      → ((a : A) → Triple Q (f a) U R)
      → Triple P (m >>= f) U R
  Triple-bind m f km kf = record {
    at = λ s h. let (r, s') = m s in continue-Post r f s' (km.at s h) kf;
  }

module _ {ℓ κ ι π} {E : Type ι} {S : Type ℓ} {A : Type κ} {Q U R T : S → Type π} where
  weaken_Post :
      (r : Result E A) (s : S)
      → ((t : S) → Q t → U t)
      → ((t : S) → R t → T t)
      → Post Q R r s
      → Post U T r s
  weaken_Post (ok a) s f g h = f s h
  weaken_Post (err e) s f g h = g s h

  -- Weaker conditions after the method.
  pub Triple-weaken :
      {P : S → Type π} {m : Exec E S A}
      → Triple P m Q R
      → ((t : S) → Q t → U t)
      → ((t : S) → R t → T t)
      → Triple P m U T
  Triple-weaken {m} k f g = record {
    at = λ s h. let (r, s') = m s in weaken_Post r s' f g (k.at s h);
  }
