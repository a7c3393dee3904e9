-- ===== src/Base/Result.antt =====
-- Code that may raise: a value or the exception, with `do` blocks.
use bigrag.Base.{◌≡◌, refl, Bool, true, false}

pub data Result {ℓ κ} (E : Type κ) (A : Type ℓ) : Type (ℓ ⊔ κ) where
  err : E → Result E A
  ok : A → Result E A

infixl 5 ◌>>=◌
infixl 5 ◌>>◌
abbrev pub ◌>>=◌ {ℓ κ ι} :
    {E : Type ι} {A : Type ℓ} {B : Type κ} → Result E A → (A → Result E B) → Result E B
err x >>= rest = err x
ok v >>= rest = rest v

abbrev pub ◌>>◌ {κ ι} : {E : Type ι} {B : Type κ} → Result E (Unit {0}) → Result E B → Result E B
first >> rest = first >>= λ v. rest

-- `if test: raise e`
abbrev pub raise_if {ι} : {E : Type ι} → Bool → E → Result E (Unit {0})
raise_if true e = err e
raise_if false e = ok tt

pub >>=-eq-ok {ℓ κ ι} :
    {E : Type ι} {A : Type ℓ} {B : Type κ} (first : Result E A) (rest : A → Result E B) {b : B}
    → (first >>= rest) ≡ ok b
    → (v : A) × (first ≡ ok v) × (rest v ≡ ok b)
>>=-eq-ok (err x) rest h = cc
>>=-eq-ok (ok v) rest h = (v, refl, h)
