-- ===== src/Base/Outcome.antt =====
-- Exceptions as values, generic in the error.
use mathlib.Core.Path.{◌≡◌, refl, ap}
use mathlib.Core.Logic.{◌⊎◌, inl, inr}

pub data Outcome {ℓ κ} (E : Type κ) (A : Type ℓ) : Type (ℓ ⊔ κ) where
  ok : A → Outcome E A
  err : E → Outcome E A

infixl 5 ◌>>=◌ ◌>>◌
abbrev pub ◌>>=◌ {ℓ κ ι} :
    {E : Type κ} {A : Type ℓ} {B : Type ι} → Outcome E A → (A → Outcome E B) → Outcome E B
err why >>= next = err why
ok value >>= next = next value

abbrev pub ◌>>◌ {ℓ κ} : {E : Type κ} {B : Type ℓ} → Outcome E (Unit {0}) → Outcome E B → Outcome E B
first >> second = first >>= (λ done. second)

module _ {ℓ κ} {E : Type κ} {A : Type ℓ} where
  pub Outcome-cases : (o : Outcome E A) → ((a : A) × (o ≡ ok a)) ⊎ ((why : E) × (o ≡ err why))
  Outcome-cases (err why) = inr (why, refl)
  Outcome-cases (ok a) = inl (a, refl)

  pub ok-injective : {a b : A} → ◌≡◌ {A = Outcome E A} (ok a) (ok b) → a ≡ b
  ok-injective same = cc

  pub err-injective : {a b : E} → ◌≡◌ {A = Outcome E A} (err a) (err b) → a ≡ b
  err-injective same = cc

module _ {ℓ κ ι} {E : Type κ} {A : Type ℓ} {B : Type ι} where
  pub >>=-eq-err :
      (o : Outcome E A) (next : A → Outcome E B) {why : E}
      → (o >>= next) ≡ err why
      → (o ≡ err why) ⊎ ((value : A) × (o ≡ ok value) × (next value ≡ err why))
  >>=-eq-err (err why) next failed = inl (ap err (err-injective failed))
  >>=-eq-err (ok value) next failed = inr (value, refl, failed)

  pub >>=-eq-ok :
      (o : Outcome E A) (next : A → Outcome E B) {result : B}
      → (o >>= next) ≡ ok result
      → (value : A) × (o ≡ ok value) × (next value ≡ ok result)
  >>=-eq-ok (err why) next worked = cc
  >>=-eq-ok (ok value) next worked = (value, refl, worked)
