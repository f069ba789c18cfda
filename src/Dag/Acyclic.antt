-- ===== src/Dag/Acyclic.antt =====
-- `AddEdge` keeps the graph free of cycles, and refuses no edge without cause.
use tempest.Base.{
  String, ◌≡◌, refl, sym, ap, ◌∙◌, subst, ◌↔◌, ◌⊎◌, inl, inr, Bool, true, false, ◌&&◌, some, [],
  ◌∷◌, ◌++◌, arith, if◌then◌else◌, Bool-cases, ◌=?◌, string_eq, nat_eq,
}
use tempest.Base.GoMap.{insert}
use mathlib.Core.List.{Memᴰ}
use mathlib.Core.List.Memᴰ
use text.Mathlib.TextEquality.{eq_iff}
use tempest.Dag.{Graph, at, flag, has_path, node_not_found, would_create_cycle, ok, err, add_edge}
use tempest.Dag.Walk.{Edges, Edge, Walk, here, step, Walk-trans, at-insert}
use tempest.Dag.Search.{has_path_decides}

-- No edge leads back to a node from which there is a walk to its start.
abbrev pub IsAcyclic : Edges → Type 0
IsAcyclic m = (a b : String) → Edge m a b → ¬ Walk m b a

-- The edge map after `AddEdge(from, to)`.
abbrev pub linked : Edges → String → String → Edges
linked m from to = insert m from (at m from ++ to ∷ [])

-- An edge of the new graph is an old one, or the new one.
linked-Edge :
    (m : Edges) (from to a b : String)
    → Edge (linked m from to) a b
    → Edge m a b ⊎ ((a ≡ from) × (b ≡ to))
linked-Edge m from to a b e = elim (Bool-cases (from =? a)) [
  | inl hit ↦
      let same = (eq_iff from a).0 hit in
      elim (Memᴰ.append_cases (at m from)
        (subst (Memᴰ b) (at-insert m from a (at m from ++ to ∷ []) ∙ rw hit) e)) [
          | inl old ↦ inl (subst (λ k. Memᴰ b (at m k)) same old)
          | inr last ↦ inr (sym same, Memᴰ.eq_of_singleton last)
        ]
  | inr miss ↦ inl (subst (Memᴰ b) (at-insert m from a (at m from ++ to ∷ []) ∙ rw miss) e)
]

-- A walk of the new graph stays in the old one, or goes through the new edge.
linked_walk :
    (m : Edges) (from to a : String) {b : String}
    → Walk (linked m from to) a b
    → Walk m a b ⊎ (Walk m a from × Walk m to b)
linked_walk m from to a here = inl here
linked_walk m from to a (step {b = b} {c = c} p e) =
    extend b c (linked_walk m from to a p) (linked-Edge m from to b c e)
  where
    extend :
        (b c : String)
        → Walk m a b ⊎ (Walk m a from × Walk m to b)
        → Edge m b c ⊎ ((b ≡ from) × (c ≡ to))
        → Walk m a c ⊎ (Walk m a from × Walk m to c)
    extend b c (inl p) (inl e) = inl (step p e)
    extend b c (inl p) (inr (x, y)) = inr (subst (Walk m a) x p, subst (Walk m to) (sym y) here)
    extend b c (inr (p, q)) (inl e) = inr (p, step q e)
    extend b c (inr (p, q)) (inr (x, y)) = inr (p, subst (Walk m to) (sym y) here)

pub linked-IsAcyclic :
    (m : Edges) (from to : String) → ¬ Walk m to from → IsAcyclic m → IsAcyclic (linked m from to)
linked-IsAcyclic m from to no_way acyclic a b e p =
    cycle (linked-Edge m from to a b e) (linked_walk m from to b p)
  where
    cycle : Edge m a b ⊎ ((a ≡ from) × (b ≡ to)) → Walk m b a ⊎ (Walk m b from × Walk m to a) → ⊥
    cycle (inl old) (inl back) = acyclic a b old back
    cycle (inl old) (inr (q, r)) = no_way (Walk-trans (step r old) q)
    cycle (inr (x, y)) (inl back) = no_way (subst (Walk m to) x (subst (λ k. Walk m k a) y back))
    cycle (inr (x, y)) (inr (q, r)) = no_way (subst (Walk m to) x r)

abbrev pub both_known : Graph → String → String → Bool
both_known g from to = flag g.nodes from && flag g.nodes to

add_edge_unknown :
    (g : Graph) (from to : String)
    → both_known g from to ≡ false
    → add_edge g from to ≡ err node_not_found
unfolding add_edge
add_edge_unknown g from to h = ground arith

add_edge_searched :
    (g : Graph) (from to : String) (b : Bool)
    → both_known g from to ≡ true
    → has_path g to from ≡ some b
    → add_edge g from to ≡ (
        if b
        then err would_create_cycle
        else ok (record g {
          edges = linked g.edges from to;
          reverse_edges = linked g.reverse_edges to from;
        }))
unfolding add_edge
add_edge_searched g from to b h e = ground arith

-- What `AddEdge` answers. Where a node is unknown, that error; where a walk leads from `to` back to
-- `from`, the refusal of a cycle; otherwise the graph with the edge put last among the dependents of
-- `from` and the dependencies of `to`, and nothing else changed. The search never runs out of fuel.
pub add_edge_lem :
    (g : Graph) (from to : String)
    → (both_known g from to ≡ false → add_edge g from to ≡ err node_not_found)
      × (both_known g from to ≡ true
          → Walk g.edges to from
          → add_edge g from to ≡ err would_create_cycle)
      × (both_known g from to ≡ true
          → ¬ Walk g.edges to from
          → add_edge g from to
            ≡ ok (record g {
              edges = linked g.edges from to;
              reverse_edges = linked g.reverse_edges to from;
            }))
add_edge_lem g from to =
    let (b, e, decides) = has_path_decides g to from in
    (
      add_edge_unknown g from to,
      λ known p. add_edge_searched g from to true known (e ∙ ap (λ c. some c) (decides.1 p)),
      λ known no_way.
          add_edge_searched g from to false known
            (e ∙ ap (λ c. some c) (not_true b decides no_way)),
    )
  where
    not_true : (b : Bool) → ((b ≡ true) ↔ Walk g.edges to from) → ¬ Walk g.edges to from → b ≡ false
    not_true true d no_way = absurd (no_way (d.0 refl))
    not_true false d no_way = refl
