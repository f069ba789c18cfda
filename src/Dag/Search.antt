-- ===== src/Dag/Search.antt =====
-- `hasPath` ends, and answers whether there is a walk.
use tempest.Base.{
  ℕ, zero, suc, ◌+◌, ◌≤◌, String, ◌≡◌, refl, sym, ap, ◌∙◌, subst, ◌≢◌, ◌↔◌, ◌⊎◌, inl, inr, Bool,
  true, false, Option, some, List, [], ◌∷◌, arith, if◌then◌else◌, Bool-cases, length, ◌=?◌,
  string_eq, nat_eq,
}
use tempest.Base.GoMap.{lookup, insert}
use mathlib.Core.List.{Memᴰ}
use mathlib.Core.List.Memᴰ
use text.Mathlib.TextEquality.{eq_iff}
use tempest.Dag.{Graph, at, push_all, flag, search_path, edge_count, has_path}
use tempest.Dag.Walk.{
  Edges, Edge, Walk, here, step, flag-insert, push_all-new, push_all-old, push_all-only,
  length-push_all,
}

abbrev Visited : Type 0
Visited = List (String × Bool)

-- The edges that leave nodes not visited yet.
left : Edges → Visited → ℕ
left [] visited = 0
left ((k, l) ∷ m) visited =
    let rest = left m visited in if flag visited k then rest else length l + rest

left_start : (m : Edges) → left m [] ≡ edge_count m
unfolding left edge_count flag lookup
left_start [] = refl
left_start ((k, l) ∷ m) = ap (λ n. length l + n) (left_start m)

left_shrinks :
    (m : Edges) (visited : Visited) (k : String) → left m (insert visited k true) ≤ left m visited
unfolding left
left_shrinks [] visited k = omega arith
left_shrinks ((j, l) ∷ m) visited k =
    ground (arith, left_shrinks m visited k, flag-insert visited k j true, eq_iff k j)

-- Visiting a node takes its edges off.
left_visit :
    (m : Edges) (visited : Visited) (k : String)
    → flag visited k ≡ false
    → left m (insert visited k true) + length (at m k) ≤ left m visited
unfolding left at lookup
left_visit [] visited k h = omega arith
left_visit ((j, l) ∷ m) visited k h = ground (
  arith,
  left_visit m visited k h,
  left_shrinks m visited k,
  flag-insert visited k j true,
  eq_iff j k,
  eq_iff k j,
)

on_empty :
    (visited : Visited) (x : String) → (flag visited x ≡ true) ⊎ Memᴰ x [] → flag visited x ≡ true
on_empty visited x (inl f) = f
on_empty visited x (inr k) = absurd (Memᴰ.not-nil k)

popped :
    (visited : Visited) (x : String) (stack : List String) (b : String)
    → flag visited x ≡ true
    → (flag visited b ≡ true) ⊎ Memᴰ b (x ∷ stack)
    → (flag visited b ≡ true) ⊎ Memᴰ b stack
popped visited x stack b old (inl f) = inl f
popped visited x stack b old (inr k) = elim (Memᴰ.cases_cons k) [
  | inl e ↦ inl (ap (flag visited) e ∙ old)
  | inr r ↦ inr r
]

marked_old :
    (visited : Visited) (x b : String)
    → flag visited b ≡ true
    → flag (insert visited x true) b ≡ true
marked_old visited x b f = ground (arith, flag-insert visited x b true)

marked_self : (visited : Visited) (x b : String) → b ≡ x → flag (insert visited x true) b ≡ true
marked_self visited x b e = ground (arith, flag-insert visited x b true, eq_iff x b)

visited_cases :
    (visited : Visited) (x a : String)
    → flag (insert visited x true) a ≡ true
    → (a ≡ x) ⊎ (flag visited a ≡ true)
visited_cases visited x a f = ground (arith, flag-insert visited x a true, eq_iff x a)

module _ (m : Edges) (to : String) where
  -- What one round does, in each of its three cases.
  round {κ} :
      (P : Option Bool → Type κ) (fuel : ℕ) (visited : Visited) (x : String) (stack : List String)
      → ((x ≡ to) → P (some true))
      → (x ≢ to → flag visited x ≡ true → P (search_path m to fuel visited stack))
      → (x ≢ to
          → flag visited x ≡ false
          → P (search_path m to fuel (insert visited x true) (push_all (at m x) stack)))
      → P (search_path m to (suc fuel) visited (x ∷ stack))
  unfolding search_path
  round P fuel visited x stack found skip enter = elim (Bool-cases (x =? to)) [
    | inl hit ↦ rw hit (found ((eq_iff x to).0 hit))
    | inr miss ↦ elim (Bool-cases (flag visited x)) [
      | inl old ↦ rw (miss, old) (skip (λ e. differ e miss) old)
      | inr fresh ↦ rw (miss, fresh) (enter (λ e. differ e miss) fresh)
    ]
  ]
    where
      differ : x ≡ to → (x =? to) ≡ false → ⊥
      differ e miss = ground (arith, eq_iff x to)

  search_ends :
      (fuel : ℕ) (visited : Visited) (stack : List String)
      → length stack + left m visited ≤ fuel
      → (b : Bool) × (search_path m to fuel visited stack ≡ some b)
  search_ends fuel visited [] h = (false, unfold search_path in refl)
  search_ends zero visited (x ∷ stack) h = absurd (omega arith)
  search_ends (suc fuel) visited (x ∷ stack) h =
      round (λ r. (b : Bool) × (r ≡ some b)) fuel visited x stack (λ _. (true, refl))
        (λ _ _. search_ends fuel visited stack (omega arith))
        (λ _ fresh.
          search_ends fuel (insert visited x true) (push_all (at m x) stack)
            (omega (arith, left_visit m visited x fresh, length-push_all (at m x) stack)))

  search_sound :
      (from : String) (fuel : ℕ) (visited : Visited) (stack : List String)
      → ((x : String) → Memᴰ x stack → Walk m from x)
      → search_path m to fuel visited stack ≡ some true
      → Walk m from to
  search_sound from fuel visited [] reached h = unfold search_path in cc h
  search_sound from zero visited (x ∷ stack) reached h = unfold search_path in cc h
  search_sound from (suc fuel) visited (x ∷ stack) reached h =
      round (λ r. r ≡ some true → Walk m from to) fuel visited x stack
        (λ e _. subst (Walk m from) e (reached x (Memᴰ.head refl)))
        (λ _ _. search_sound from fuel visited stack (λ y k. reached y (Memᴰ.tail k)))
        (λ _ _. search_sound from fuel (insert visited x true) (push_all (at m x) stack) (λ y k.
          elim (push_all-only y (at m x) stack k) [
            | inl next ↦ step (reached x (Memᴰ.head refl)) next
            | inr old ↦ reached y (Memᴰ.tail old)
          ]))
        h

  -- What the search keeps: a visited node is not the target, its successors are visited or on the
  -- stack, and so is the start.
  record Inv (from : String) (visited : Visited) (stack : List String) : Type 0 where
    missed : (x : String) → flag visited x ≡ true → x ≢ to
    closed :
        (x y : String) → flag visited x ≡ true → Edge m x y → (flag visited y ≡ true) ⊎ Memᴰ y stack
    started : (flag visited from ≡ true) ⊎ Memᴰ from stack

  -- With nothing on the stack, every node in reach of the start has been visited.
  walk_visited :
      (from : String) (visited : Visited)
      → Inv from visited []
      → {x : String} → Walk m from x
      → flag visited x ≡ true
  walk_visited from visited v here = on_empty visited from v.started
  walk_visited from visited v (step {b = b} {c = c} p e) =
      on_empty visited c (v.closed b c (walk_visited from visited v p) e)

  skip-Inv :
      (from : String) (visited : Visited) (x : String) (stack : List String)
      → flag visited x ≡ true
      → Inv from visited (x ∷ stack)
      → Inv from visited stack
  skip-Inv from visited x stack old v = record {
    missed = v.missed;
    closed = λ a b f e. popped visited x stack b old (v.closed a b f e);
    started = popped visited x stack from old v.started;
  }

  enter-Inv :
      (from : String) (visited : Visited) (x : String) (stack : List String)
      → x ≢ to
      → Inv from visited (x ∷ stack)
      → Inv from (insert visited x true) (push_all (at m x) stack)
  enter-Inv from visited x stack miss v = record {
    missed = λ a f. elim (visited_cases visited x a f) [
      | inl e ↦ λ q. miss (sym e ∙ q)
      | inr old ↦ v.missed a old
    ];
    closed = λ a b f e. elim (visited_cases visited x a f) [
      | inl same ↦ inr (push_all-new b (at m x) stack (subst (λ k. Memᴰ b (at m k)) same e))
      | inr old ↦ entered (v.closed a b old e)
    ];
    started = entered v.started;
  }
    where
      entered :
          {b : String}
          → (flag visited b ≡ true) ⊎ Memᴰ b (x ∷ stack)
          → (flag (insert visited x true) b ≡ true) ⊎ Memᴰ b (push_all (at m x) stack)
      entered {b} (inl f) = inl (marked_old visited x b f)
      entered {b} (inr k) = elim (Memᴰ.cases_cons k) [
        | inl e ↦ inl (marked_self visited x b e)
        | inr r ↦ inr (push_all-old b (at m x) stack r)
      ]

  search_complete :
      (from : String) (fuel : ℕ) (visited : Visited) (stack : List String)
      → Inv from visited stack
      → search_path m to fuel visited stack ≡ some false
      → ¬ Walk m from to
  search_complete from fuel visited [] v h p = v.missed to (walk_visited from visited v p) refl
  search_complete from zero visited (x ∷ stack) v h p = unfold search_path in cc h
  search_complete from (suc fuel) visited (x ∷ stack) v h p =
      round (λ r. r ≡ some false → ¬ Walk m from to) fuel visited x stack (λ _ h. cc)
        (λ _ old. search_complete from fuel visited stack (skip-Inv from visited x stack old v))
        (λ miss fresh.
          search_complete from fuel (insert visited x true) (push_all (at m x) stack)
            (enter-Inv from visited x stack miss v))
        h p

-- The start alone on the stack, nothing visited.
start-Inv : (m : Edges) (to from : String) → Inv m to from [] (from ∷ [])
unfolding flag lookup
start-Inv m to from = record {
  missed = λ x f. cc;
  closed = λ x y f e. cc;
  started = inr (Memᴰ.head refl);
}

-- The search always ends within its fuel, and answers true exactly when there is a walk.
pub has_path_decides :
    (g : Graph) (from to : String)
    → (b : Bool) × (has_path g from to ≡ some b) × ((b ≡ true) ↔ Walk g.edges from to)
unfolding has_path
has_path_decides g from to =
    let m = g.edges in
    let (b, e) =
      search_ends m to (suc (edge_count m)) [] (from ∷ []) (omega (arith, left_start m)) in
    (b, e, decides b e)
  where
    decides :
        (b : Bool)
        → search_path g.edges to (suc (edge_count g.edges)) [] (from ∷ []) ≡ some b
        → (b ≡ true) ↔ Walk g.edges from to
    decides true e = (
      λ _.
          search_sound g.edges to from (suc (edge_count g.edges)) [] (from ∷ [])
            (λ x k. subst (Walk g.edges from) (sym (Memᴰ.eq_of_singleton k)) here) e,
      λ _. refl,
    )
    decides false e = (
      λ f. cc,
      λ p. absurd (
          search_complete g.edges to from (suc (edge_count g.edges)) [] (from ∷ [])
            (start-Inv g.edges to from) e p),
    )
