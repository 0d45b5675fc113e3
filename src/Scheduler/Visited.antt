-- ===== src/Scheduler/Visited.antt =====
-- A measure for graph searches: the keys of a map that are not yet in the visited set.
use tricti.Base.{
  ℕ, ◌+◌, ◌≤◌, ◌<◌, String, ◌≡◌, true, false, some, List, [], ◌∷◌, length, if◌then◌else◌, text_key,
  eq_iff, arith,
}
use tricti.Base.HashMap.{HashMap}
use tricti.Base.HashMap
use tricti.Base.HashSet
use tricti.Base.HashSet.{contains-insert}

-- Nothing that was visited is forgotten.
abbrev pub Extends : List String → List String → Type 0
Extends v w = (x : String) → HashSet.contains v x ≡ true → HashSet.contains w x ≡ true

module _ {V : Type 0} where
  -- The keys of the map that a search has not visited.
  pub unvisited : List String → HashMap String V → ℕ
  unvisited visited [] = 0
  unvisited visited ((k, v) ∷ m) =
      (if HashSet.contains visited k then 0 else 1) + unvisited visited m

  pub unvisited-le : (visited : List String) (m : HashMap String V) → unvisited visited m ≤ length m
  unfolding unvisited
  unvisited-le visited [] = omega arith
  unvisited-le visited ((k, v) ∷ m) = ground (arith, unvisited-le visited m)

  pub unvisited_mono :
      (v w : List String) (m : HashMap String V) → Extends v w → unvisited w m ≤ unvisited v m
  unfolding unvisited
  unvisited_mono v w [] h = omega arith
  unvisited_mono v w ((k, s) ∷ m) h = ground (arith, h k, unvisited_mono v w m h)

  -- Marking a registered system that was not visited leaves one fewer.
  pub unvisited-insert :
      (c : String) (v : List String) (m : HashMap String V)
      → HashSet.contains v c ≡ false
      → (s : V) → HashMap.get c m ≡ some s
      → unvisited (HashSet.insert c v) m < unvisited v m
  unfolding unvisited HashMap.get
  unvisited-insert c v [] n s g = cc
  unvisited-insert c v ((k, w) ∷ m) n s g = ground (
    arith,
    contains-insert v c k,
    eq_iff k c,
    eq_iff c k,
    unvisited-insert c v m n s,
    unvisited_mono v (HashSet.insert c v) m (λ x h. ground (arith, contains-insert v c x)),
  )
