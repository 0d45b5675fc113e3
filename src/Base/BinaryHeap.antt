-- ===== src/Base/BinaryHeap.antt =====
-- `std::collections::BinaryHeap`: a list, from which `pop` takes a greatest element. Between elements
-- that the order does not tell apart, it takes the first one.
use Prim.Native.Nat.{suc}
use mathlib.Core.Path.{◌≡◌, refl, ap, subst}
use mathlib.Core.Bool.{Bool, true, false}
use mathlib.Core.List.{List, [], ◌∷◌, Perm}
use mathlib.Core.List.Perm
use mathlib.Core.Logic.{inl, inr}
use mathlib.Core.Option.{Option, none, some}
use native.Mathlib.Omega.{arith}
use tricti.Base.Lists.{length, All, All-map}
use tricti.Base.Tests.{if◌then◌else◌, Bool-cases}

-- `le a b` is true where `a.cmp(b)` is not `Greater`.
module _ {ℓ} {A : Type ℓ} (le : A → A → Bool) where
  -- A greatest element and the others; `peek` is its first part.
  unfoldable pub pop : List A → Option (A × List A)
  pop [] = none
  pop (x ∷ xs) = elim (pop xs) [
    | none ↦ some (x, xs)
    | some (y, ys) ↦ if le y x then some (x, xs) else some (y, x ∷ ys)
  ]

  pub pop-none : (xs : List A) → pop xs ≡ none → xs ≡ []
  unfolding pop
  pop-none [] e = refl
  pop-none (x ∷ xs) e = absurd (never (pop xs) e)
    where
      never :
          (o : Option (A × List A))
          → elim o as (λ _. Option (A × List A)) [
            | none ↦ some (x, xs)
            | some (y, ys) ↦ if le y x then some (x, xs) else some (y, x ∷ ys)
          ]
            ≡ none
          → ⊥
      never none e = cc
      never (some (y, ys)) e = ground (arith, e)

some_inj {ℓ} : {B : Type ℓ} {a b : B} → some a ≡ some b → a ≡ b
some_inj e = cc

-- What `pop` takes, and what it leaves.
pub record Popped {ℓ} {A : Type ℓ} (le : A → A → Bool) (xs : List A) (y : A) (ys : List A)
    : Type ℓ where
  pub same : Perm (y ∷ ys) xs
  pub greatest : All (λ z. le z y ≡ true) xs
  pub shorter : suc (length ys) ≡ length xs
  pub keeps : (p : A → Bool) → All (λ z. p z ≡ true) xs → All (λ z. p z ≡ true) (y ∷ ys)

module _ {ℓ} {A : Type ℓ} (le : A → A → Bool) (total : (x y : A) → le x y ≡ false → le y x ≡ true)
    (reflexive : (x : A) → le x x ≡ true)
    (trans : (x y z : A) → le x y ≡ true → le y z ≡ true → le x z ≡ true) where
  Popped-next :
      (x y : A) (xs ys : List A)
      → Popped le xs y ys
      → (r : A × List A) → (if le y x then (x, xs) else (y, x ∷ ys)) ≡ r
      → Popped le (x ∷ xs) r.0 r.1
  Popped-next x y xs ys p r e = elim (Bool-cases (le y x)) [
    | inl h ↦
        subst (λ q. Popped le (x ∷ xs) q.0 q.1) e
          (rw h (record {
            same = Perm.refl (x ∷ xs);
            greatest = (reflexive x, All-map _ _ (λ z k. trans z y x k h) xs p.greatest);
            shorter = refl;
            keeps = λ q k. k;
          }))
    | inr h ↦
        subst (λ q. Popped le (x ∷ xs) q.0 q.1) e
          (rw h (record {
            same = Perm.trans (Perm.swap x y ys) (Perm.cons x p.same);
            greatest = (total y x h, p.greatest);
            shorter = ap suc p.shorter;
            keeps = λ q k. let (front, back) = p.keeps q k.1 in (front, (k.0, back));
          }))
  ]

  Popped-one : (x : A) (xs : List A) → xs ≡ [] → Popped le (x ∷ xs) x xs
  Popped-one x [] e = record {
    same = Perm.refl (x ∷ []);
    greatest = (reflexive x, tt);
    shorter = refl;
    keeps = λ q k. k;
  }
  Popped-one x (y ∷ xs) e = cc

  pub pop-Popped :
      (xs : List A) (y : A) (ys : List A) → pop le xs ≡ some (y, ys) → Popped le xs y ys
  unfolding pop
  pop-Popped [] y ys e = cc
  pop-Popped (x ∷ xs) y ys e = step (pop le xs) refl e (λ z zs h. pop-Popped xs z zs h)
    where
      step :
          (o : Option (A × List A))
          → pop le xs ≡ o
          → elim o as (λ _. Option (A × List A)) [
            | none ↦ some (x, xs)
            | some (z, zs) ↦ if le z x then some (x, xs) else some (z, x ∷ zs)
          ]
            ≡ some (y, ys)
          → ((z : A) (zs : List A) → pop le xs ≡ some (z, zs) → Popped le xs z zs)
          → Popped le (x ∷ xs) y ys
      step none h e rec =
          subst (λ q. Popped le (x ∷ xs) q.0 q.1) (some_inj e) (Popped-one x xs (pop-none le xs h))
      step (some (z, zs)) h e rec = Popped-next x z xs zs (rec z zs h) (y, ys) (ground (arith, e))
