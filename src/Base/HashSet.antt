-- ===== src/Base/HashSet.antt =====
-- `std::collections::HashSet`: a list whose order stands for the set's iteration order.
use Prim.Native.Nat.{◌≤◌, ◌+◌}
use mathlib.Core.Path.{◌≡◌, refl, subst}
use mathlib.Core.Bool.{Bool, true, false, not, ◌&&◌, ◌||◌}
use mathlib.Core.List.{List, [], ◌∷◌, ◌++◌}
use native.Mathlib.Omega.{arith}
use mathlib.Core.Logic.{inl, inr}
use tricti.Base.Tests.{if◌then◌else◌, PartialEq, ◌==◌, ==_iff, Bool-cases}
use tricti.Base.Lists.{length, length-append, retain, length-retain-le, All, All-append, All-retain}

module _ {ℓ} {K : Type ℓ} ⦃key : PartialEq K⦄ where
  unfoldable pub contains : List K → K → Bool
  contains [] k = false
  contains (x ∷ s) k = x == k || contains s k

  unfoldable pub insert : K → List K → List K
  insert k s = if contains s k then s else s ++ k ∷ []

  unfoldable pub remove : K → List K → List K
  remove k s = retain (λ x. not (x == k)) s

  pub contains-snoc : (s : List K) (k j : K) → contains (s ++ k ∷ []) j ≡ (contains s j || k == j)
  unfolding contains
  contains-snoc [] k j = ground arith
  contains-snoc (x ∷ s) k j = ground (arith, contains-snoc s k j)

  pub contains-insert : (s : List K) (k j : K) → contains (insert k s) j ≡ (contains s j || k == j)
  unfolding insert
  contains-insert s k j = ground (arith, contains-snoc s k j, ==_iff k j)

  pub contains-remove :
      (s : List K) (k j : K) → contains (remove k s) j ≡ (contains s j && not (k == j))
  unfolding contains remove retain
  contains-remove [] k j = refl
  contains-remove (x ∷ s) k j =
      ground (arith, contains-remove s k j, ==_iff x k, ==_iff x j, ==_iff k j)

  pub length-remove-le : (k : K) (s : List K) → length (remove k s) ≤ length s
  unfolding remove
  length-remove-le k s = length-retain-le (λ x. not (x == k)) s

  pub All-insert {κ} : (P : K → Type κ) (k : K) (s : List K) → P k → All P s → All P (insert k s)
  unfolding insert
  All-insert P k s p h = elim (Bool-cases (contains s k)) [
    | inl e ↦ rw e h
    | inr e ↦ rw e (All-append P s (k ∷ []) h (p, tt))
  ]

  pub All-remove {κ} : (P : K → Type κ) (k : K) (s : List K) → All P s → All P (remove k s)
  unfolding remove
  All-remove P k s h = All-retain P (λ x. not (x == k)) s h

  pub All-contains {κ} : (P : K → Type κ) (s : List K) (k : K) → All P s → contains s k ≡ true → P k
  unfolding contains
  All-contains P [] k h m = cc
  All-contains P (x ∷ s) k h m = elim (Bool-cases (x == k)) [
    | inl e ↦ subst P ((==_iff x k).0 e) h.0
    | inr e ↦ All-contains P s k h.1 (ground (arith, m, e))
  ]

  pub length-insert-le : (k : K) (s : List K) → length (insert k s) ≤ length s + 1
  unfolding insert
  length-insert-le k s = ground (arith, length-append s (k ∷ []))
