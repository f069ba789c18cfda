-- ===== src/Dag/Survivor.antt =====
-- `RemoveNode` edits the slice that it ranges over, and skips every node that a removal has moved
-- under the index.
use tempest.Base.{
  ℕ, zero, suc, ◌+◌, ◌<◌, String, ◌≡◌, refl, sym, ap, ◌∙◌, subst, ◌⊎◌, inl, inr, Bool, false,
  Option, none, some, List, [], ◌∷◌, ◌++◌, arith, Option-cases, length, get_elem?, ◌=?◌, string_eq,
  nat_eq, =?_refl,
}
use tempest.Base.GoMap.{erase, lookup-erase}
use mathlib.Core.List.{Memᴰ}
use mathlib.Core.List.Memᴰ
use text.Mathlib.TextEquality.{eq_iff}
use tempest.Dag.{
  Graph, at, index_of, cut, remove_edge, last_of, stale_after, drop_incoming, drop_outgoing,
  remove_node, has_node, flag, dependents, dependencies,
}
use tempest.Dag.Removal.{at-drop_first, at-erase, without, without-within}

-- `q` is none of the entries.
abbrev pub Avoids : String → List String → Type 0
Avoids q l = (x : String) → Memᴰ x l → (q =? x) ≡ false

get_elem?-mem : (l : List String) (i : ℕ) (x : String) → get_elem? l i ≡ some x → Memᴰ x l
get_elem?-mem [] i x h = cc
get_elem?-mem (y ∷ l) zero x h = Memᴰ.head (ground arith)
get_elem?-mem (y ∷ l) (suc i) x h = Memᴰ.tail (get_elem?-mem l i x h)

=?_flip : (a b : String) → (a =? b) ≡ false → (b =? a) ≡ false
=?_flip a b h = ground (arith, eq_iff a b, eq_iff b a)

-- Past the front, a slice that begins with `q` has the entries behind it.
behind_front :
    (q : String) (l : List String) (i : ℕ) (x : String)
    → 0 < i
    → get_elem? (q ∷ l) i ≡ some x
    → Memᴰ x l
behind_front q l zero x h e = absurd (omega arith)
behind_front q l (suc i) x h e = get_elem?-mem l i x e

-- Taking another entry out of a slice that begins with `q` leaves `q` in front.
without-cons :
    (q x : String) (l : List String) → (q =? x) ≡ false → without (q ∷ l) x ≡ q ∷ without l x
unfolding without index_of cut
without-cons q x l h = elim (Option-cases (index_of l x)) [
  | inl e ↦ ground arith
  | inr (i, e) ↦ ground arith
]

last_of-mem : (l : List String) (z : String) → last_of l ≡ some z → Memᴰ z l
unfolding last_of
last_of-mem [] z h = cc
last_of-mem (x ∷ []) z h = Memᴰ.head (ground arith)
last_of-mem (x ∷ y ∷ l) z h = Memᴰ.tail (last_of-mem (y ∷ l) z h)

pushed_copy :
    (y : String) (o : Option String) (stale : List String)
    → Memᴰ y (elim o [ none ↦ stale | some w ↦ w ∷ stale ])
    → (o ≡ some y) ⊎ Memᴰ y stale
pushed_copy y none stale m = inr m
pushed_copy y (some w) stale m = elim (Memᴰ.cases_cons m) [
  | inl e ↦ inl (ap (λ k. some k) (sym e))
  | inr r ↦ inr r
]

-- The copy left behind the slice is one of the entries behind its front, if there are any.
stale_after-mem :
    (q x y : String) (l stale : List String)
    → (q =? x) ≡ false
    → Memᴰ y (stale_after (q ∷ l) x stale)
    → Memᴰ y l ⊎ Memᴰ y stale
unfolding stale_after last_of index_of
stale_after-mem q x y [] stale h k = inr (rw (h, stale_after, index_of) at k)
stale_after-mem q x y (z ∷ l) stale h k = elim (Option-cases (index_of (q ∷ z ∷ l) x)) [
  | inl e ↦ inr (subst (λ s. Memᴰ y s) (absent e) k)
  | inr (i, e) ↦
      elim (pushed_copy y (last_of (q ∷ z ∷ l)) stale (subst (λ s. Memᴰ y s) (found i e) k)) [
        | inl last ↦ inl (last_of-mem (z ∷ l) y last)
        | inr old ↦ inr old
      ]
]
  where
    absent : index_of (q ∷ z ∷ l) x ≡ none → stale_after (q ∷ z ∷ l) x stale ≡ stale
    absent e = ground arith

    found :
        (i : ℕ)
        → index_of (q ∷ z ∷ l) x ≡ some i
        → stale_after (q ∷ z ∷ l) x stale
          ≡ (elim (last_of (q ∷ z ∷ l)) [ none ↦ stale | some w ↦ w ∷ stale ])
    found i e = ground arith

kept_edges :
    (g : Graph) (name q x : String)
    → (q =? x) ≡ false
    → at (remove_edge g x name).edges q ≡ at g.edges q
unfolding remove_edge
kept_edges g name q x other = at-drop_first g.edges x name q ∙ rw (=?_flip q x other)

kept_front :
    (g : Graph) (name q x : String) (cs : List String)
    → at g.reverse_edges name ≡ q ∷ cs
    → (q =? x) ≡ false
    → at (remove_edge g x name).reverse_edges name ≡ q ∷ without cs x
unfolding remove_edge
kept_front g name q x cs slice other =
    at-drop_first g.reverse_edges name x name ∙ rw (=?_refl name, slice) (without-cons q x cs other)

-- The rounds of the first loop from index 1 on, while the slice begins with `q` and no other cell
-- holds `q`, leave the edges of `q` alone.
drop_incoming-keeps :
    (g : Graph) (name q : String) (cs stale : List String) (i n : ℕ)
    → at g.reverse_edges name ≡ q ∷ cs
    → Avoids q cs
    → Avoids q stale
    → 0 < i
    → at (drop_incoming g name stale i n).edges q ≡ at g.edges q
unfolding drop_incoming
drop_incoming-keeps g name q cs stale i zero slice here_free stale_free past = refl
drop_incoming-keeps g name q cs stale i (suc n) slice here_free stale_free past =
    elim (Option-cases (get_elem? (at g.reverse_edges name ++ stale) i)) [
      | inl miss ↦ rw (miss, drop_incoming)
      | inr (x, hit) ↦
          let other : (q =? x) ≡ false =
            free x (behind_front q (cs ++ stale) i x past (rw slice at hit)) in
          rw (hit, drop_incoming)
            (drop_incoming-keeps (remove_edge g x name) name q (without cs x)
                (stale_after (at g.reverse_edges name) x stale) (i + 1) n (next_slice x other)
                (λ y k. here_free y (without-within y cs x k)) (next_stale x other) (omega arith)
              ∙ kept_edges g name q x other)
    ]
  where
    free : (x : String) → Memᴰ x (cs ++ stale) → (q =? x) ≡ false
    free x k = elim (Memᴰ.append_cases cs k) [ inl a ↦ here_free x a | inr b ↦ stale_free x b ]

    next_slice :
        (x : String)
        → (q =? x) ≡ false
        → at (remove_edge g x name).reverse_edges name ≡ q ∷ without cs x
    next_slice x other = kept_front g name q x cs slice other

    next_stale :
        (x : String) → (q =? x) ≡ false → Avoids q (stale_after (at g.reverse_edges name) x stale)
    next_stale x other y k = elim (stale_after-mem q x y cs stale other (rw slice at k)) [
      | inl a ↦ here_free y a
      | inr b ↦ stale_free y b
    ]

drop_outgoing-keeps :
    (g : Graph) (name q : String) (stale : List String) (i n : ℕ)
    → (name =? q) ≡ false
    → at (drop_outgoing g name stale i n).edges q ≡ at g.edges q
unfolding drop_outgoing
drop_outgoing-keeps g name q stale i zero other = refl
drop_outgoing-keeps g name q stale i (suc n) other =
    elim (Option-cases (get_elem? (at g.edges name ++ stale) i)) [
      | inl miss ↦ rw (miss, drop_outgoing)
      | inr (to, hit) ↦
          rw (hit, drop_outgoing)
            (drop_outgoing-keeps (remove_edge g name to) name q
                (stale_after (at g.edges name) to stale) (i + 1) n other
              ∙ unfold remove_edge in (at-drop_first g.edges name to q ∙ rw other))
    ]

drop_incoming-nodes :
    (g : Graph) (name : String) (stale : List String) (i n : ℕ)
    → (drop_incoming g name stale i n).nodes ≡ g.nodes
unfolding drop_incoming
drop_incoming-nodes g name stale i zero = refl
drop_incoming-nodes g name stale i (suc n) =
    elim (Option-cases (get_elem? (at g.reverse_edges name ++ stale) i)) [
      | inl miss ↦ rw (miss, drop_incoming)
      | inr (from, hit) ↦
          rw (hit, drop_incoming)
            (drop_incoming-nodes (remove_edge g from name) name
                (stale_after (at g.reverse_edges name) from stale) (i + 1) n
              ∙ unfold remove_edge in refl)
    ]

drop_outgoing-nodes :
    (g : Graph) (name : String) (stale : List String) (i n : ℕ)
    → (drop_outgoing g name stale i n).nodes ≡ g.nodes
unfolding drop_outgoing
drop_outgoing-nodes g name stale i zero = refl
drop_outgoing-nodes g name stale i (suc n) =
    elim (Option-cases (get_elem? (at g.edges name ++ stale) i)) [
      | inl miss ↦ rw (miss, drop_outgoing)
      | inr (to, hit) ↦
          rw (hit, drop_outgoing)
            (drop_outgoing-nodes (remove_edge g name to) name
                (stale_after (at g.edges name) to stale) (i + 1) n
              ∙ unfold remove_edge in refl)
    ]

flag-erase : (m : List (String × Bool)) (k : String) → flag (erase m k) k ≡ false
unfolding flag
flag-erase m k = ground (arith, lookup-erase m k k, eq_iff k k)

without-front : (p : String) (l : List String) → without (p ∷ l) p ≡ l
unfolding without index_of cut
without-front p l = ground (arith, eq_iff p p)

stale_after-front :
    (p q : String) (l : List String)
    → stale_after (p ∷ q ∷ l) p [] ≡ (elim (last_of (q ∷ l)) [ none ↦ [] | some w ↦ w ∷ [] ])
unfolding stale_after index_of last_of
stale_after-front p q l = ground (arith, eq_iff p p)

first_round :
    (g : Graph) (name p : String) (l : List String) (n : ℕ)
    → at g.reverse_edges name ≡ p ∷ l
    → drop_incoming g name [] 0 (suc n)
      ≡ drop_incoming (remove_edge g p name) name (stale_after (p ∷ l) p []) 1 n
unfolding drop_incoming
first_round g name p l n slice =
    rw (slice, drop_incoming)
      (ap (λ s. drop_incoming (remove_edge g p name) name (stale_after s p []) 1 n) slice)

-- The first loop over a slice of three entries or more never reaches the second.
first_loop_keeps :
    (g : Graph) (name p q r : String) (rest : List String)
    → at g.reverse_edges name ≡ p ∷ q ∷ r ∷ rest
    → (p =? q) ≡ false
    → Avoids q (r ∷ rest)
    → at (drop_incoming g name [] 0 (length (at g.reverse_edges name))).edges q ≡ at g.edges q
first_loop_keeps g name p q r rest slice apart free =
    ap (λ h. at h.edges q)
      (ap (λ l. drop_incoming g name [] 0 (length l)) slice
        ∙ first_round g name p (q ∷ r ∷ rest) (length (q ∷ r ∷ rest)) slice)
    ∙ drop_incoming-keeps (remove_edge g p name) name q (r ∷ rest)
        (stale_after (p ∷ q ∷ r ∷ rest) p []) 1 (length (q ∷ r ∷ rest)) front free copies
        (omega arith)
    ∙ kept_edges g name q p (=?_flip p q apart)
  where
    front : at (remove_edge g p name).reverse_edges name ≡ q ∷ r ∷ rest
    front =
        unfold remove_edge in
        (at-drop_first g.reverse_edges name p name
          ∙ rw (=?_refl name, slice) (without-front p (q ∷ r ∷ rest)))

    copies : Avoids q (stale_after (p ∷ q ∷ r ∷ rest) p [])
    copies y k =
        elim (pushed_copy y (last_of (q ∷ r ∷ rest)) []
          (subst (λ s. Memᴰ y s) (stale_after-front p q (r ∷ rest)) k)) [
            | inl e ↦ free y (last_of-mem (r ∷ rest) y (unfold last_of in e))
            | inr m ↦ absurd (Memᴰ.not-nil m)
          ]

-- The second dependency, and the node itself, after a removal.
remove_node-second :
    (g : Graph) (name p q r : String) (rest : List String)
    → dependencies g name ≡ p ∷ q ∷ r ∷ rest
    → (p =? q) ≡ false
    → (name =? q) ≡ false
    → Avoids q (r ∷ rest)
    → dependents (remove_node g name) q ≡ dependents g q
unfolding remove_node dependents dependencies
remove_node-second g name p q r rest slice apart other free =
    let g₁ = record g { nodes = erase g.nodes name } in
    let n₁ = length (at g.reverse_edges name) in
    let g₂ = drop_incoming g₁ name [] 0 n₁ in
    let n₂ = length (at g₂.edges name) in
    let g₃ = drop_outgoing g₂ name [] 0 n₂ in
    at-erase g₃.edges name q
    ∙ rw other (
        drop_outgoing-keeps g₂ name q [] 0 n₂ other
        ∙ first_loop_keeps g₁ name p q r rest slice apart free)

remove_node-gone : (g : Graph) (name : String) → has_node (remove_node g name) name ≡ false
unfolding remove_node has_node
remove_node-gone g name =
    let g₁ = record g { nodes = erase g.nodes name } in
    let n₁ = length (at g.reverse_edges name) in
    let g₂ = drop_incoming g₁ name [] 0 n₁ in
    let n₂ = length (at g₂.edges name) in
    ap (λ m. flag m name)
      (drop_outgoing-nodes g₂ name [] 0 n₂ ∙ drop_incoming-nodes g₁ name [] 0 n₁)
    ∙ flag-erase g.nodes name

-- `RemoveNode` of a node with three dependencies or more, the second of which is neither the node
-- nor any of the others and names the node among its dependents, leaves the dependents of the second
-- as they were: they still name the node, although the node itself is gone.
pub remove_node_skips :
    (g : Graph) (name p q r : String) (rest : List String)
    → dependencies g name ≡ p ∷ q ∷ r ∷ rest
    → (p =? q) ≡ false
    → (name =? q) ≡ false
    → Avoids q (r ∷ rest)
    → Memᴰ name (dependents g q)
    → (dependents (remove_node g name) q ≡ dependents g q)
      × Memᴰ name (dependents (remove_node g name) q)
      × (has_node (remove_node g name) name ≡ false)
remove_node_skips g name p q r rest slice apart other free named =
    let same = remove_node-second g name p q r rest slice apart other free in
    (same, subst (λ l. Memᴰ name l) (sym same) named, remove_node-gone g name)
