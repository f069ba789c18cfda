-- ===== src/Dag/History.antt =====
-- A graph that starts empty has no cycle, whatever is done to it.
use tempest.Base.{
  String, ◌≡◌, subst, inl, inr, Bool, true, false, List, [], ◌∷◌, arith, Bool-cases, string_eq,
  nat_eq,
}
use tempest.Base.GoMap.{lookup, lookup-insert}
use text.Mathlib.TextEquality.{eq_iff}
use mathlib.Core.List.{Memᴰ}
use mathlib.Core.List.Memᴰ
use tempest.Dag.{
  Graph, new, at, ensure, add_node, remove_node, remove_edge, add_edge, Result, ok, err,
}
use tempest.Dag.Walk.{Edges, Walk}
use tempest.Dag.Search.{has_path_decides}
use tempest.Dag.Acyclic.{IsAcyclic, linked-IsAcyclic, add_edge_lem, both_known}
use tempest.Dag.Removal.{Within, Walk-within, remove_edge-Within, remove_node-Within}

pub data Call : Type 0 where
  adds_node removes_node : String → Call
  adds_edge removes_edge : String → String → Call

-- A refused edge leaves the graph as it was.
abbrev pub after : Graph → Result → Graph
after g (ok h) = h
after g (err e) = g

unfoldable pub step : Graph → Call → Graph
step g (adds_node name) = add_node g name
step g (removes_node name) = remove_node g name
step g (adds_edge from to) = after g (add_edge g from to)
step g (removes_edge from to) = remove_edge g from to

unfoldable pub run : Graph → List Call → Graph
run g [] = g
run g (c ∷ cs) = run (step g c) cs

Within-IsAcyclic : (m' m : Edges) → Within m' m → IsAcyclic m → IsAcyclic m'
Within-IsAcyclic m' m w acyclic a b e p = acyclic a b (w a b e) (Walk-within w p)

at-ensure : (m : Edges) (k j : String) → at (ensure m k) j ≡ at m j
unfolding ensure at
at-ensure m k j = ground (arith, lookup-insert m k j [], eq_iff k j)

ensure-Within : (m : Edges) (k : String) → Within (ensure m k) m
ensure-Within m k a b e = subst (Memᴰ b) (at-ensure m k a) e

add_edge-IsAcyclic :
    (g : Graph) (from to : String)
    → IsAcyclic g.edges
    → IsAcyclic (after g (add_edge g from to)).edges
add_edge-IsAcyclic g from to v =
    let (unknown, cyclic, linked_in) = add_edge_lem g from to in
    let (b, e, decides) = has_path_decides g to from in
    elim (Bool-cases (both_known g from to)) [
      | inl known ↦ elim (Bool-cases b) [
        | inl way ↦ rw (cyclic known (decides.0 way)) v
        | inr no_way ↦
            let none_back = λ (p : Walk g.edges to from). differ b (decides.1 p) no_way in
            rw (linked_in known none_back) (linked-IsAcyclic g.edges from to none_back v)
      ]
      | inr missing ↦ rw (unknown missing) v
    ]
  where
    differ : (b : Bool) → b ≡ true → b ≡ false → ⊥
    differ b x y = cc

step-IsAcyclic : (g : Graph) (c : Call) → IsAcyclic g.edges → IsAcyclic (step g c).edges
unfolding step add_node
step-IsAcyclic g (adds_node name) v =
    Within-IsAcyclic (ensure g.edges name) g.edges (ensure-Within g.edges name) v
step-IsAcyclic g (removes_node name) v =
    Within-IsAcyclic (remove_node g name).edges g.edges (remove_node-Within g name) v
step-IsAcyclic g (adds_edge from to) v = add_edge-IsAcyclic g from to v
step-IsAcyclic g (removes_edge from to) v =
    Within-IsAcyclic (remove_edge g from to).edges g.edges (remove_edge-Within g from to) v

run-IsAcyclic : (g : Graph) (cs : List Call) → IsAcyclic g.edges → IsAcyclic (run g cs).edges
unfolding run
run-IsAcyclic g [] v = v
run-IsAcyclic g (c ∷ cs) v = run-IsAcyclic (step g c) cs (step-IsAcyclic g c v)

-- A graph made by `New` stays free of cycles through any additions and removals of nodes and edges:
-- no edge ever leads to a node from which there is a walk back.
pub history-IsAcyclic : (cs : List Call) → IsAcyclic (run new cs).edges
unfolding new at lookup
history-IsAcyclic cs = run-IsAcyclic new cs (λ a b e p. Memᴰ.not-nil e)
