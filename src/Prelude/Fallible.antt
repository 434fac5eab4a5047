-- ===== src/Prelude/Fallible.antt =====
-- `Result<T, E>` with its bind.
use mathlib.Core.Path.{◌≡◌, refl}
use mathlib.Core.Logic.{◌⊎◌, inl, inr}
use mathlib.Core.Bool.{Bool, true, false}

pub data Result {ℓ κ} (E : Type ℓ) (A : Type κ) : Type (ℓ ⊔ κ) where
  ok : A → Result E A
  err : E → Result E A

module _ {ℓ κ} {E : Type ℓ} {A : Type κ} where
  abbrev pub is_ok : Result E A → Bool
  is_ok (ok a) = true
  is_ok (err e) = false

  pub Result-cases : (r : Result E A) → ((a : A) × (r ≡ ok a)) ⊎ ((e : E) × (r ≡ err e))
  Result-cases (ok a) = inl (a, refl)
  Result-cases (err e) = inr (e, refl)

module _ {ℓ κ μ} {E : Type ℓ} {A : Type κ} {B : Type μ} where
  infixl 5 ◌>>=◌
  abbrev pub ◌>>=◌ : Result E A → (A → Result E B) → Result E B
  err why >>= next = err why
  ok x >>= next = next x

  -- What came before a result.
  pub bind_inverse :
      {b : B} (r : Result E A) (next : A → Result E B)
      → (r >>= next) ≡ ok b
      → (x : A) × (r ≡ ok x) × (next x ≡ ok b)
  bind_inverse (err why) next h = cc
  bind_inverse (ok x) next h = (x, refl, h)
