-- ===== src/Examples/Dag.antt =====
-- Runs of the graph.
use tempest.Base.{
  ◌≡◌, refl, ap, ◌∙◌, ◌↔◌, Bool, true, false, some, [], ◌∷◌, ◌=?◌, string_eq, nat_eq,
}
use tempest.Base.GoMap.{lookup, insert}
use mathlib.Core.List.{Memᴰ}
use mathlib.Core.List.Memᴰ
use tempest.Dag.{
  Graph, new, has_path, add_edge, remove_node, has_node, dependents, dependencies, ok, err,
  node_not_found, would_create_cycle,
}
use tempest.Dag.Walk.{Walk}
use tempest.Dag.Search.{has_path_decides}
use tempest.Dag.Acyclic.{IsAcyclic, linked, both_known, add_edge_lem}
use tempest.Dag.History.{adds_node, adds_edge, run, history-IsAcyclic}
use tempest.Dag.Survivor.{Avoids, remove_node_skips}

-- `b` and `c` after `a`, and `d` after all three.
abbrev fan : Graph
fan = record {
  nodes = ("a", true) ∷ ("b", true) ∷ ("c", true) ∷ ("d", true) ∷ [];
  edges = ("a", "b" ∷ "c" ∷ "d" ∷ []) ∷ ("b", "d" ∷ []) ∷ ("c", "d" ∷ []) ∷ ("d", []) ∷ [];
  reverse_edges = ("a", []) ∷ ("b", "a" ∷ []) ∷ ("c", "a" ∷ []) ∷ ("d", "a" ∷ "b" ∷ "c" ∷ []) ∷ [];
}

fan_reached : has_path fan "a" "d" ≡ some true
unfolding has_path lookup insert
fan_reached = refl

has_path_decides_example :
    (b : Bool) × (has_path fan "d" "a" ≡ some b) × ((b ≡ true) ↔ Walk fan.edges "d" "a")
has_path_decides_example = has_path_decides fan "d" "a"

add_edge_lem_example :
    (both_known fan "d" "a" ≡ false → add_edge fan "d" "a" ≡ err node_not_found)
    × (both_known fan "d" "a" ≡ true
        → Walk fan.edges "a" "d"
        → add_edge fan "d" "a" ≡ err would_create_cycle)
    × (both_known fan "d" "a" ≡ true
        → ¬ Walk fan.edges "a" "d"
        → add_edge fan "d" "a"
          ≡ ok (record fan {
            edges = linked fan.edges "d" "a";
            reverse_edges = linked fan.reverse_edges "a" "d";
          }))
add_edge_lem_example = add_edge_lem fan "d" "a"

history-IsAcyclic_example :
    IsAcyclic
      (run new (adds_node "a" ∷ adds_node "b" ∷ adds_edge "a" "b" ∷ adds_edge "b" "a" ∷ [])).edges
history-IsAcyclic_example =
    history-IsAcyclic (adds_node "a" ∷ adds_node "b" ∷ adds_edge "a" "b" ∷ adds_edge "b" "a" ∷ [])

fan-Avoids : Avoids "b" ("c" ∷ [])
fan-Avoids x k = ap (λ y. "b" =? y) (Memᴰ.eq_of_singleton k) ∙ refl

-- `d` is gone, and `b` still leads to it.
remove_node_skips_example :
    (dependents (remove_node fan "d") "b" ≡ dependents fan "b")
    × Memᴰ "d" (dependents (remove_node fan "d") "b")
    × (has_node (remove_node fan "d") "d" ≡ false)
unfolding dependencies dependents lookup
remove_node_skips_example =
    remove_node_skips fan "d" "a" "b" "c" [] refl refl refl fan-Avoids (Memᴰ.head refl)
