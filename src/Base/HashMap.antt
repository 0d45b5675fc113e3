-- ===== src/Base/HashMap.antt =====
-- `std::collections::HashMap`: an association list whose order stands for the map's iteration order.
use mathlib.Core.Path.{◌≡◌, refl, sym, subst}
use mathlib.Core.Logic.{inl, inr}
use mathlib.Core.Bool.{Bool, true, false}
use mathlib.Core.List.{List, [], ◌∷◌}
use mathlib.Core.Option.{Option, none, some}
use mathlib.Core.Option
use native.Mathlib.Omega.{arith}
use tricti.Base.Lists.{All}
use tricti.Base.Tests.{Bool-cases, if◌then◌else◌, PartialEq, ◌==◌, ==_iff}

abbrev pub HashMap {ℓ κ} : Type ℓ → Type κ → Type (ℓ ⊔ κ)
HashMap K V = List (K × V)

module _ {ℓ κ} {K : Type ℓ} {V : Type κ} ⦃key : PartialEq K⦄ where
  unfoldable pub get : K → HashMap K V → Option V
  get wanted [] = none
  get wanted ((k, v) ∷ rest) = if k == wanted then some v else get wanted rest

  -- A key that is there keeps its place and takes the new value.
  unfoldable pub insert : K → V → HashMap K V → HashMap K V
  insert new v [] = (new, v) ∷ []
  insert new v ((k, old) ∷ rest) = if k == new then (k, v) ∷ rest else (k, old) ∷ insert new v rest

  unfoldable pub remove : K → HashMap K V → HashMap K V
  remove k [] = []
  remove k ((j, v) ∷ m) = let rest = remove k m in if j == k then rest else (j, v) ∷ rest

  -- `if let Some(v) = m.get_mut(k) { *v = f(v) }`
  unfoldable pub modify : K → (V → V) → HashMap K V → HashMap K V
  modify k f [] = []
  modify k f ((j, v) ∷ m) = if j == k then (j, f v) ∷ m else (j, v) ∷ modify k f m

  unfoldable pub keys : HashMap K V → List K
  keys [] = []
  keys ((k, v) ∷ m) = k ∷ keys m

  unfoldable pub contains_key : K → HashMap K V → Bool
  unfolding get
  contains_key k m = elim (get k m) [ none ↦ false | some _ ↦ true ]

  -- `m.entry(k).or_insert(v)` for its effect alone.
  unfoldable pub or_insert : K → V → HashMap K V → HashMap K V
  or_insert k v m = elim (get k m) [ none ↦ insert k v m | some _ ↦ m ]

  -- `for v in m.values_mut() { *v = f(v) }`
  unfoldable pub map_values : (V → V) → HashMap K V → HashMap K V
  map_values f [] = []
  map_values f ((k, v) ∷ m) = (k, f v) ∷ map_values f m

  pub get-map_values :
      (k : K) (f : V → V) (m : HashMap K V) → get k (map_values f m) ≡ Option.map f (get k m)
  unfolding get map_values
  get-map_values k f [] = refl
  get-map_values k f ((j, v) ∷ m) = ground (arith, get-map_values k f m)

  pub get-insert :
      (new wanted : K) (v : V) (entries : HashMap K V)
      → get wanted (insert new v entries) ≡ (if new == wanted then some v else get wanted entries)
  unfolding get insert
  get-insert new wanted v [] = refl
  get-insert new wanted v ((k, old) ∷ rest) =
      ground (arith, get-insert new wanted v rest, ==_iff k new, ==_iff k wanted, ==_iff new wanted)

  pub get-remove :
      (k j : K) (m : HashMap K V) → get j (remove k m) ≡ (if k == j then none else get j m)
  unfolding get remove
  get-remove k j [] = ground arith
  get-remove k j ((i, w) ∷ m) = ground (arith, get-remove k j m, ==_iff k j, ==_iff i k, ==_iff i j)

  pub get-modify :
      (k j : K) (f : V → V) (m : HashMap K V)
      → get j (modify k f m) ≡ (if k == j then Option.map f (get j m) else get j m)
  unfolding get modify
  get-modify k j f [] = ground arith
  get-modify k j f ((i, w) ∷ m) =
      ground (arith, get-modify k j f m, ==_iff k j, ==_iff i k, ==_iff i j)

  pub contains_key-some :
      (k : K) (m : HashMap K V) → contains_key k m ≡ true → (v : V) × (get k m ≡ some v)
  unfolding contains_key
  contains_key-some k m h = ground (arith, h)

  pub contains_key-none : (k : K) (m : HashMap K V) → contains_key k m ≡ false → get k m ≡ none
  unfolding contains_key
  contains_key-none k m h = ground (arith, h)

-- No key has two entries.
module _ {ℓ κ} {K : Type ℓ} {V : Type κ} ⦃key : PartialEq K⦄ where
  abbrev pub HasUniqueKeys : HashMap K V → Type κ
  HasUniqueKeys [] = Unit
  HasUniqueKeys ((k, v) ∷ m) = (get k m ≡ none) × HasUniqueKeys m

  pub insert-HasUniqueKeys :
      (k : K) (v : V) (m : HashMap K V) → HasUniqueKeys m → HasUniqueKeys (insert k v m)
  unfolding get insert
  insert-HasUniqueKeys k v [] u = (refl, tt)
  insert-HasUniqueKeys k v ((j, w) ∷ m) u =
      ground (arith, insert-HasUniqueKeys k v m u.1, get-insert k j v m, ==_iff j k, ==_iff k j)

  pub remove-HasUniqueKeys :
      (k : K) (m : HashMap K V) → HasUniqueKeys m → HasUniqueKeys (remove k m)
  unfolding remove
  remove-HasUniqueKeys k [] u = tt
  remove-HasUniqueKeys k ((j, w) ∷ m) u = elim (Bool-cases (j == k)) [
    | inl e ↦ rw e (remove-HasUniqueKeys k m u.1)
    | inr e ↦ rw e (
      ground (arith, get-remove k j m, u.0, ==_iff k j, ==_iff j k),
      remove-HasUniqueKeys k m u.1,
    )
  ]

  pub modify-HasUniqueKeys :
      (k : K) (f : V → V) (m : HashMap K V) → HasUniqueKeys m → HasUniqueKeys (modify k f m)
  unfolding get modify
  modify-HasUniqueKeys k f [] u = tt
  modify-HasUniqueKeys k f ((j, w) ∷ m) u =
      ground (arith, modify-HasUniqueKeys k f m u.1, get-modify k j f m, ==_iff j k, ==_iff k j)

-- A property of all entries.
module _ {ℓ κ μ} {K : Type ℓ} {V : Type κ} ⦃key : PartialEq K⦄ (P : K → V → Type μ) where
  abbrev pub Entries : HashMap K V → Type μ
  Entries m = All (λ entry. P entry.0 entry.1) m

  pub insert-Entries :
      (k : K) (v : V) (m : HashMap K V) → P k v → Entries m → Entries (insert k v m)
  unfolding insert
  insert-Entries k v [] p h = (p, tt)
  insert-Entries k v ((j, w) ∷ m) p h = elim (Bool-cases (j == k)) [
    | inl e ↦ rw e (subst (λ i. P i v) (sym ((==_iff j k).0 e)) p, h.1)
    | inr e ↦ rw e (h.0, insert-Entries k v m p h.1)
  ]

  pub remove-Entries : (k : K) (m : HashMap K V) → Entries m → Entries (remove k m)
  unfolding remove
  remove-Entries k [] h = tt
  remove-Entries k ((j, w) ∷ m) h = elim (Bool-cases (j == k)) [
    | inl e ↦ rw e (remove-Entries k m h.1)
    | inr e ↦ rw e (h.0, remove-Entries k m h.1)
  ]

  pub get-Entries : (k : K) (m : HashMap K V) {v : V} → Entries m → get k m ≡ some v → P k v
  unfolding get
  get-Entries k [] h e = cc
  get-Entries k ((j, w) ∷ m) h e = elim (Bool-cases (j == k)) [
    | inl same ↦
        subst (P k) (ground (arith, e, same)) (subst (λ i. P i w) ((==_iff j k).0 same) h.0)
    | inr other ↦ get-Entries k m h.1 (ground (arith, e, other))
  ]
