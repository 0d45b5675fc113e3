-- ===== src/Base/Vec.antt =====
-- `Vec` read and written at an index, and the vectors that `vec![x; n]` builds.
use Prim.Native.Nat.{ℕ, zero, suc, ◌≤◌, ◌<◌}
use mathlib.Core.Path.{◌≡◌, refl, ap}
use mathlib.Core.Bool.{◌&&◌}
use mathlib.Core.List.{List, [], ◌∷◌, ◌++◌}
use mathlib.Core.Option.{Option, none, some}
use native.Mathlib.Omega.{arith}
use tricti.Base.Tests.{ltb, nat_beq, if◌then◌else◌}
use tricti.Base.Lists.{length}

module _ {ℓ} {A : Type ℓ} where
  -- `v.get(i)`
  unfoldable pub get_elem? : List A → ℕ → Option A
  get_elem? [] i = none
  get_elem? (x ∷ xs) zero = some x
  get_elem? (x ∷ xs) (suc i) = get_elem? xs i

  -- `if let Some(slot) = v.get_mut(i) { *slot = x }`
  unfoldable pub set : List A → ℕ → A → List A
  set [] i v = []
  set (x ∷ xs) zero v = v ∷ xs
  set (x ∷ xs) (suc i) v = x ∷ set xs i v

  -- `vec![x; n]`
  unfoldable pub replicate : ℕ → A → List A
  replicate zero x = []
  replicate (suc n) x = x ∷ replicate n x

  pub length-set : (xs : List A) (i : ℕ) (v : A) → length (set xs i v) ≡ length xs
  unfolding set
  length-set [] i v = refl
  length-set (x ∷ xs) zero v = refl
  length-set (x ∷ xs) (suc i) v = ap suc (length-set xs i v)

  pub length-replicate : (n : ℕ) (x : A) → length (replicate n x) ≡ n
  unfolding replicate
  length-replicate zero x = refl
  length-replicate (suc n) x = ap suc (length-replicate n x)

  pub get_elem?-set :
      (xs : List A) (i j : ℕ) (v : A)
      → get_elem? (set xs i v) j
        ≡ (if nat_beq i j && ltb i (length xs) then some v else get_elem? xs j)
  unfolding get_elem? set
  get_elem?-set [] i j v = ground arith
  get_elem?-set (x ∷ xs) zero zero v = ground arith
  get_elem?-set (x ∷ xs) zero (suc j) v = ground arith
  get_elem?-set (x ∷ xs) (suc i) zero v = ground arith
  get_elem?-set (x ∷ xs) (suc i) (suc j) v = ground (arith, get_elem?-set xs i j v)

  pub get_elem?-replicate :
      (n j : ℕ) (x : A) → get_elem? (replicate n x) j ≡ (if ltb j n then some x else none)
  unfolding get_elem? replicate
  get_elem?-replicate zero j x = ground arith
  get_elem?-replicate (suc n) zero x = ground arith
  get_elem?-replicate (suc n) (suc j) x = ground (arith, get_elem?-replicate n j x)

  pub get_elem?-append :
      (xs ys : List A) (j : ℕ) → j < length xs → get_elem? (xs ++ ys) j ≡ get_elem? xs j
  unfolding get_elem?
  get_elem?-append [] ys j h = absurd (omega arith)
  get_elem?-append (x ∷ xs) ys zero h = refl
  get_elem?-append (x ∷ xs) ys (suc j) h = get_elem?-append xs ys j (omega arith)

  pub get_elem?-none : (xs : List A) (j : ℕ) → length xs ≤ j → get_elem? xs j ≡ none
  unfolding get_elem?
  get_elem?-none [] j h = refl
  get_elem?-none (x ∷ xs) zero h = absurd (omega arith)
  get_elem?-none (x ∷ xs) (suc j) h = get_elem?-none xs j (omega arith)

  pub get_elem?-some_lt : (xs : List A) (j : ℕ) {v : A} → get_elem? xs j ≡ some v → j < length xs
  unfolding get_elem?
  get_elem?-some_lt [] j h = cc
  get_elem?-some_lt (x ∷ xs) zero h = omega arith
  get_elem?-some_lt (x ∷ xs) (suc j) h = omega (arith, get_elem?-some_lt xs j h)

  pub get_elem?-none_le : (xs : List A) (j : ℕ) → get_elem? xs j ≡ none → length xs ≤ j
  unfolding get_elem?
  get_elem?-none_le [] j h = omega arith
  get_elem?-none_le (x ∷ xs) zero h = cc
  get_elem?-none_le (x ∷ xs) (suc j) h = omega (arith, get_elem?-none_le xs j h)
