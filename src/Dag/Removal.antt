-- ===== src/Dag/Removal.antt =====
-- Removals only ever take edges away; `RemoveNode` does not take all of them.
use tempest.Base.{
  ℕ, zero, suc, ◌+◌, String, ◌≡◌, ◌∙◌, subst, inl, inr, none, some, List, [], ◌∷◌, ◌++◌, arith,
  if◌then◌else◌, Bool-cases, Option-cases, length, get_elem?, ◌=?◌, string_eq, nat_eq,
}
use tempest.Base.GoMap.{erase, lookup-erase}
use mathlib.Core.List.{Memᴰ}
use mathlib.Core.List.Memᴰ
use text.Mathlib.TextEquality.{eq_iff}
use tempest.Dag.{
  Graph, at, index_of, cut, drop_first, remove_edge, stale_after, drop_incoming, drop_outgoing,
  remove_node,
}
use tempest.Dag.Walk.{Edges, Edge, Walk, here, step, at-insert}

-- Every edge of `m'` is one of `m`.
abbrev pub Within : Edges → Edges → Type 0
Within m' m = (a b : String) → Edge m' a b → Edge m a b

pub Walk-within : {m' m : Edges} {a b : String} → Within m' m → Walk m' a b → Walk m a b
Walk-within w here = here
Walk-within w (step {b = b} {c = c} p e) = step (Walk-within w p) (w b c e)

cut-within : (x : String) (l : List String) (i : ℕ) → Memᴰ x (cut l i) → Memᴰ x l
unfolding cut
cut-within x [] i k = k
cut-within x (y ∷ l) zero k = Memᴰ.tail k
cut-within x (y ∷ l) (suc i) k = elim (Memᴰ.cases_cons k) [
  | inl e ↦ Memᴰ.head e
  | inr r ↦ Memᴰ.tail (cut-within x l i r)
]

-- A slice without its first `x`.
unfoldable pub without : List String → String → List String
without l x = elim (index_of l x) [ none ↦ l | some i ↦ cut l i ]

pub without-within : (y : String) (l : List String) (x : String) → Memᴰ y (without l x) → Memᴰ y l
unfolding without
without-within y l x k = elim (Option-cases (index_of l x)) [
  | inl e ↦ rw (e, without) at k
  | inr (i, e) ↦ cut-within y l i (rw (e, without) at k)
]

pub at-drop_first :
    (m : Edges) (k x j : String)
    → at (drop_first m k x) j ≡ (if k =? j then without (at m k) x else at m j)
unfolding drop_first without
at-drop_first m k x j = elim (Option-cases (index_of (at m k) x)) [
  | inl e ↦ ground (arith, eq_iff k j)
  | inr (i, e) ↦ ground (arith, at-insert m k j (cut (at m k) i), eq_iff k j)
]

drop_first-Within : (m : Edges) (k x : String) → Within (drop_first m k x) m
drop_first-Within m k x a b e = elim (Bool-cases (k =? a)) [
  | inl hit ↦
      let same = (eq_iff k a).0 hit in
      subst (λ n. Memᴰ b (at m n)) same
        (without-within b (at m k) x (subst (Memᴰ b) (at-drop_first m k x a ∙ rw hit) e))
  | inr miss ↦ subst (Memᴰ b) (at-drop_first m k x a ∙ rw miss) e
]

pub at-erase : (m : Edges) (k j : String) → at (erase m k) j ≡ (if k =? j then [] else at m j)
unfolding at
at-erase m k j = ground (arith, lookup-erase m k j)

erase-Within : (m : Edges) (k : String) → Within (erase m k) m
erase-Within m k a b e = elim (Bool-cases (k =? a)) [
  | inl hit ↦ absurd (Memᴰ.not-nil (subst (Memᴰ b) (at-erase m k a ∙ rw hit) e))
  | inr miss ↦ subst (Memᴰ b) (at-erase m k a ∙ rw miss) e
]

Within-trans : (a b c : Edges) → Within a b → Within b c → Within a c
Within-trans a b c v w x y e = w x y (v x y e)

drop_incoming-Within :
    (g : Graph) (name : String) (stale : List String) (i n : ℕ)
    → Within (drop_incoming g name stale i n).edges g.edges
unfolding drop_incoming
drop_incoming-Within g name stale i zero = λ a b e. e
drop_incoming-Within g name stale i (suc n) =
    elim (Option-cases (get_elem? (at g.reverse_edges name ++ stale) i)) [
      | inl miss ↦ rw (miss, drop_incoming) (λ a b e. e)
      | inr (from, hit) ↦
          rw (hit, drop_incoming)
            (Within-trans _ (remove_edge g from name).edges g.edges
              (drop_incoming-Within (remove_edge g from name) name
                (stale_after (at g.reverse_edges name) from stale) (i + 1) n)
              (unfold remove_edge in drop_first-Within g.edges from name))
    ]

drop_outgoing-Within :
    (g : Graph) (name : String) (stale : List String) (i n : ℕ)
    → Within (drop_outgoing g name stale i n).edges g.edges
unfolding drop_outgoing
drop_outgoing-Within g name stale i zero = λ a b e. e
drop_outgoing-Within g name stale i (suc n) =
    elim (Option-cases (get_elem? (at g.edges name ++ stale) i)) [
      | inl miss ↦ rw (miss, drop_outgoing) (λ a b e. e)
      | inr (to, hit) ↦
          rw (hit, drop_outgoing)
            (Within-trans _ (remove_edge g name to).edges g.edges
              (drop_outgoing-Within (remove_edge g name to) name
                (stale_after (at g.edges name) to stale) (i + 1) n)
              (unfold remove_edge in drop_first-Within g.edges name to))
    ]

pub remove_edge-Within :
    (g : Graph) (from to : String) → Within (remove_edge g from to).edges g.edges
unfolding remove_edge
remove_edge-Within g from to = drop_first-Within g.edges from to

pub remove_node-Within : (g : Graph) (name : String) → Within (remove_node g name).edges g.edges
unfolding remove_node
remove_node-Within g name =
    let g₁ = record g { nodes = erase g.nodes name } in
    let n₁ = length (at g₁.reverse_edges name) in
    let g₂ = drop_incoming g₁ name [] 0 n₁ in
    let n₂ = length (at g₂.edges name) in
    let m₃ = (drop_outgoing g₂ name [] 0 n₂).edges in
    Within-trans (erase m₃ name) m₃ g.edges (erase-Within m₃ name) (
      Within-trans m₃ g₂.edges g.edges (drop_outgoing-Within g₂ name [] 0 n₂)
        (drop_incoming-Within g₁ name [] 0 n₁))
