-- ===== src/Base/Result.antt =====
-- `Result<T, E>` and the `?` operator.
use mathlib.Core.Path.{◌≡◌, refl}
use mathlib.Core.Bool.{Bool, true, false}
use mathlib.Core.Logic.{◌⊎◌, inl, inr}
use native.Mathlib.Omega.{arith}

pub data Result {ℓ κ} (E : Type ℓ) (A : Type κ) : Type (ℓ ⊔ κ) where
  err : E → Result E A
  ok : A → Result E A

module _ {ℓ κ μ} {E : Type ℓ} {A : Type κ} {B : Type μ} where
  infixl 5 ◌>>=◌
  abbrev pub ◌>>=◌ : Result E A → (A → Result E B) → Result E B
  err x >>= next = err x
  ok a >>= next = next a

  -- A chain that returns Ok went through both of its parts.
  pub >>=_ok_inv :
      {b : B} (next : A → Result E B) (first : Result E A)
      → first >>= next ≡ ok b
      → (a : A) × (first ≡ ok a) × (next a ≡ ok b)
  >>=_ok_inv next (err x) returned = cc
  >>=_ok_inv next (ok a) returned = (a, refl, returned)

module _ {ℓ κ} {E : Type ℓ} {B : Type κ} where
  infixl 5 ◌>>◌
  abbrev pub ◌>>◌ : Result E (Unit {0}) → Result E B → Result E B
  err x >> next = err x
  ok _ >> next = next

module _ {ℓ κ} {E : Type ℓ} {A : Type κ} where
  unfoldable pub is_ok : Result E A → Bool
  is_ok (ok a) = true
  is_ok (err e) = false

  pub is_ok-eq : (m : Result E A) → is_ok m ≡ true → (a : A) × (m ≡ ok a)
  unfolding is_ok
  is_ok-eq m h = ground arith

  pub Result-cases : (m : Result E A) → ((a : A) × (m ≡ ok a)) ⊎ ((x : E) × (m ≡ err x))
  Result-cases (ok a) = inl (a, refl)
  Result-cases (err x) = inr (x, refl)
