-- ===== src/Scheduler/Conflicts/Graph.antt =====
-- src/scheduler.rs: the edges of `ConflictGraph` after `add_conflict`.
use tricti.Base.{
  String, ◌≡◌, inl, inr, Bool, false, ◌&&◌, ◌||◌, none, some, List, [], ◌∷◌, ◌++◌, any, arith, ◌==◌,
  text_key, eq_iff, Option-cases,
}
use tricti.Base.HashMap.{HashMap, get-insert}
use tricti.Base.HashMap
use tricti.Scheduler.Error.{ConflictType}
use tricti.Scheduler.Conflicts.{
  is_conflict, ConflictGraph, add_graph_system, push_edge, add_conflict, has_conflict,
}

-- An edge of the adjacency lists.
abbrev has_edge : HashMap String (List (String × ConflictType)) → String → String → Bool
has_edge edges a b = elim (HashMap.get a edges) [
  | none ↦ false
  | some conflicts ↦ any (λ c. c.0 == b) conflicts
]

any-snoc :
    (b : String) (cs : List (String × ConflictType)) (c : String × ConflictType)
    → any (λ d. d.0 == b) (cs ++ c ∷ []) ≡ (any (λ d. d.0 == b) cs || c.0 == b)
unfolding any
any-snoc b [] c = ground arith
any-snoc b (d ∷ cs) c = ground (arith, any-snoc b cs c)

has_edge-push_edge :
    (s a b : String) (edge : String × ConflictType)
    (edges : HashMap String (List (String × ConflictType)))
    → has_edge (push_edge s edge edges) a b ≡ (has_edge edges a b || (s == a && edge.0 == b))
unfolding push_edge any
has_edge-push_edge s a b edge edges = elim (Option-cases (HashMap.get s edges)) [
  | inl e ↦ ground (arith, e, get-insert s a (edge ∷ []) edges, eq_iff s a)
  | inr (cs, e) ↦
      ground (arith, e, get-insert s a (cs ++ edge ∷ []) edges, eq_iff s a, any-snoc b cs edge)
]

-- An edge is added in both directions, for a conflict only, and no other pair is affected.
pub has_conflict-add_conflict :
    (g : ConflictGraph) (system1 system2 a b : String) (conflict : ConflictType)
    → has_conflict (add_conflict g system1 system2 conflict) a b ≡ (
        has_conflict g a b
        || (is_conflict conflict
            && ((system1 == a && system2 == b) || (system2 == a && system1 == b))))
unfolding has_conflict add_conflict
has_conflict-add_conflict g s1 s2 a b c = ground (
  arith,
  has_edge-push_edge s1 a b (s2, c) g.edges,
  has_edge-push_edge s2 a b (s1, c) (push_edge s1 (s2, c) g.edges),
)

-- Every conflict is recorded at both of its ends.
abbrev pub IsSymmetric : ConflictGraph → Type 0
IsSymmetric g = (a b : String) → has_conflict g a b ≡ has_conflict g b a

pub add_conflict-IsSymmetric :
    (g : ConflictGraph) (system1 system2 : String) (conflict : ConflictType)
    → IsSymmetric g
    → IsSymmetric (add_conflict g system1 system2 conflict)
add_conflict-IsSymmetric g s1 s2 c h a b =
    ground (
      arith,
      has_conflict-add_conflict g s1 s2 a b c,
      has_conflict-add_conflict g s1 s2 b a c,
      h a b,
    )

pub has_conflict-add_graph_system :
    (g : ConflictGraph) (system a b : String)
    → has_conflict (add_graph_system g system) a b ≡ has_conflict g a b
unfolding has_conflict add_graph_system any
has_conflict-add_graph_system g s a b = elim (Option-cases (HashMap.get s g.edges)) [
  | inl e ↦ ground (arith, e, get-insert s a [] g.edges, eq_iff s a)
  | inr (cs, e) ↦ ground (arith, e)
]
