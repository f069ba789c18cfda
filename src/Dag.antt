-- ===== src/Dag.antt =====
-- internal/dag/dag.go: the graph of a workflow. `edges` maps a node to its dependents and `reverse`
-- to what it depends on; the mutex makes each method one step.
pub mod Walk
pub mod Search
pub mod Acyclic
pub mod Removal
pub mod History
pub mod Survivor
use mathlib.Core.Option
use tempest.Base.{
  string_eq, ℕ, zero, suc, ◌+◌, String, Bool, true, false, not, ◌||◌, Option, none, some, List, [],
  ◌∷◌, ◌++◌, if◌then◌else◌, length, get_elem?, ◌=?◌,
}
use tempest.Base.GoMap.{lookup, insert, erase}

pub record Graph : Type 0 where
  pub nodes : List (String × Bool)
  pub edges : List (String × List String)
  pub reverse_edges : List (String × List String)

unfoldable pub new : Graph
new = record { nodes = []; edges = []; reverse_edges = [] }

-- `m[key]` of a `map[string][]string`, the nil slice where the key is missing.
unfoldable pub at : List (String × List String) → String → List String
at m key = elim (lookup m key) [ none ↦ [] | some l ↦ l ]

-- `m[key]` of a `map[string]bool`.
unfoldable pub flag : List (String × Bool) → String → Bool
flag m key = elim (lookup m key) [ none ↦ false | some b ↦ b ]

-- `if m[key] == nil { m[key] = nil }`
unfoldable pub ensure : List (String × List String) → String → List (String × List String)
ensure m key = elim (lookup m key) [ none ↦ insert m key [] | some l ↦ m ]

unfoldable pub add_node : Graph → String → Graph
unfolding ensure
add_node g name = record {
  nodes = insert g.nodes name true;
  edges = ensure g.edges name;
  reverse_edges = ensure g.reverse_edges name;
}

-- The place of the first `x` in a slice.
unfoldable pub index_of : List String → String → Option ℕ
index_of [] x = none
index_of (y ∷ ys) x = if y =? x then some 0 else Option.map suc (index_of ys x)

-- `append(s[:i], s[i+1:]...)`
unfoldable pub cut : List String → ℕ → List String
cut [] i = []
cut (y ∷ ys) zero = ys
cut (y ∷ ys) (suc i) = y ∷ cut ys i

-- One of the two loops of `removeEdge`.
unfoldable pub drop_first :
    List (String × List String) → String → String → List (String × List String)
drop_first m key x = elim (index_of (at m key) x) [
  | none ↦ m
  | some i ↦ insert m key (cut (at m key) i)
]

unfoldable pub remove_edge : Graph → String → String → Graph
remove_edge g from to = record g {
  edges = drop_first g.edges from to;
  reverse_edges = drop_first g.reverse_edges to from;
}

-- The last entry of a slice.
unfoldable pub last_of : List String → Option String
last_of [] = none
last_of (x ∷ []) = some x
last_of (x ∷ y ∷ l) = last_of (y ∷ l)

-- `append(s[:i], s[i+1:]...)` shifts the entries inside the array of `s`: where `x` is found, the
-- array's cell behind the shorter slice keeps a copy of the last entry. `stale` is the part of the
-- array that lies behind the slice.
unfoldable pub stale_after : List String → String → List String → List String
stale_after s x stale = elim (index_of s x) [
  | none ↦ stale
  | some i ↦ elim (last_of s) [ none ↦ stale | some l ↦ l ∷ stale ]
]

-- `for _, from := range g.reverse[name] { g.removeEdge(from, name) }` from index `i`, with `n` rounds
-- left. The range keeps the array and the length that it began with, so it reads the array as the
-- removals have left it. An index past the array does not occur, as the array keeps its length.
unfoldable pub drop_incoming : Graph → String → List String → ℕ → ℕ → Graph
drop_incoming g name stale i zero = g
drop_incoming g name stale i (suc n) = elim (get_elem? (at g.reverse_edges name ++ stale) i) [
  | none ↦ g
  | some from ↦
      drop_incoming (remove_edge g from name) name
        (stale_after (at g.reverse_edges name) from stale) (i + 1) n
]

-- `for _, to := range g.edges[name] { g.removeEdge(name, to) }`, likewise.
unfoldable pub drop_outgoing : Graph → String → List String → ℕ → ℕ → Graph
drop_outgoing g name stale i zero = g
drop_outgoing g name stale i (suc n) = elim (get_elem? (at g.edges name ++ stale) i) [
  | none ↦ g
  | some to ↦
      drop_outgoing (remove_edge g name to) name (stale_after (at g.edges name) to stale) (i + 1) n
]

unfoldable pub remove_node : Graph → String → Graph
unfolding drop_incoming drop_outgoing
remove_node g name =
    let g₁ = record g { nodes = erase g.nodes name } in
    let g₂ = drop_incoming g₁ name [] 0 (length (at g₁.reverse_edges name)) in
    let g₃ = drop_outgoing g₂ name [] 0 (length (at g₂.edges name)) in
    record g₃ { edges = erase g₃.edges name; reverse_edges = erase g₃.reverse_edges name }

-- The inner loop of `hasPath`; the head of the list is the top of the stack.
unfoldable pub push_all : List String → List String → List String
push_all [] stack = stack
push_all (next ∷ rest) stack = push_all rest (next ∷ stack)

-- The outer loop of `hasPath`; `none` means that the fuel ran out.
unfoldable pub search_path :
    List (String × List String) → String → ℕ → List (String × Bool) → List String → Option Bool
search_path edges to fuel visited [] = some false
search_path edges to zero visited (current ∷ stack) = none
search_path edges to (suc fuel) visited (current ∷ stack) =
    let skip = search_path edges to fuel visited stack in
    let enter =
      search_path edges to fuel (insert visited current true) (push_all (at edges current) stack) in
    if current =? to then some true else if flag visited current then skip else enter

-- How many rounds the search takes at most: one for the start and one for each edge.
unfoldable pub edge_count : List (String × List String) → ℕ
edge_count [] = 0
edge_count ((k, l) ∷ m) = length l + edge_count m

unfoldable pub has_path : Graph → String → String → Option Bool
unfolding search_path edge_count at flag push_all
has_path g from to = search_path g.edges to (suc (edge_count g.edges)) [] (from ∷ [])

pub data Error : Type 0 where
  node_not_found would_create_cycle out_of_fuel : Error

pub data Result : Type 0 where
  ok : Graph → Result
  err : Error → Result

unfoldable pub add_edge : Graph → String → String → Result
unfolding flag has_path at
add_edge g from to =
    if not (flag g.nodes from) || not (flag g.nodes to)
    then err node_not_found
    else elim (has_path g to from) [
      | none ↦ err out_of_fuel
      | some true ↦ err would_create_cycle
      | some false ↦ ok (record g {
        edges = insert g.edges from (at g.edges from ++ to ∷ []);
        reverse_edges = insert g.reverse_edges to (at g.reverse_edges to ++ from ∷ []);
      })
    ]

unfoldable pub has_node : Graph → String → Bool
unfolding flag
has_node g name = flag g.nodes name

unfoldable pub dependents : Graph → String → List String
unfolding at
dependents g node = at g.edges node

unfoldable pub dependencies : Graph → String → List String
unfolding at
dependencies g node = at g.reverse_edges node
