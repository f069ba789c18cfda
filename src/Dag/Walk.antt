-- ===== src/Dag/Walk.antt =====
-- Edges and walks of a graph.
use tempest.Base.{
  ◌+◌, String, ◌≡◌, ◌⊎◌, inl, inr, Bool, List, [], ◌∷◌, arith, if◌then◌else◌, length, ◌=?◌,
  string_eq, nat_eq,
}
use tempest.Base.GoMap.{insert, lookup-insert}
use mathlib.Core.List.{Memᴰ}
use mathlib.Core.List.Memᴰ
use tempest.Dag.{at, push_all, flag}

abbrev pub Edges : Type 0
Edges = List (String × List String)

abbrev pub Edge : Edges → String → String → Type 0
Edge m a b = Memᴰ b (at m a)

-- A walk from `a`, of no edge or more.
pub data Walk (m : Edges) (a : String) : String → Type 0 where
  here : Walk m a a
  step : {b c : String} → Walk m a b → Edge m b c → Walk m a c

pub Walk-trans : {m : Edges} {a b c : String} → Walk m a b → Walk m b c → Walk m a c
Walk-trans p here = p
Walk-trans p (step q e) = step (Walk-trans p q) e

pub at-insert :
    (m : Edges) (k j : String) (l : List String)
    → at (insert m k l) j ≡ (if k =? j then l else at m j)
unfolding at
at-insert m k j l = ground (arith, lookup-insert m k j l)

pub flag-insert :
    (m : List (String × Bool)) (k j : String) (b : Bool)
    → flag (insert m k b) j ≡ (if k =? j then b else flag m j)
unfolding flag
flag-insert m k j b = ground (arith, lookup-insert m k j b)

pub push_all-old : (x : String) (ns stack : List String) → Memᴰ x stack → Memᴰ x (push_all ns stack)
unfolding push_all
push_all-old x [] stack m = m
push_all-old x (n ∷ ns) stack m = push_all-old x ns (n ∷ stack) (Memᴰ.tail m)

-- The stack after the inner loop holds what it held, and the successors.
pub push_all-new : (x : String) (ns stack : List String) → Memᴰ x ns → Memᴰ x (push_all ns stack)
unfolding push_all
push_all-new x [] stack m = absurd (Memᴰ.not-nil m)
push_all-new x (n ∷ ns) stack m = elim (Memᴰ.cases_cons m) [
  | inl e ↦ push_all-old x ns (n ∷ stack) (Memᴰ.head e)
  | inr r ↦ push_all-new x ns (n ∷ stack) r
]

pub push_all-only :
    (x : String) (ns stack : List String) → Memᴰ x (push_all ns stack) → Memᴰ x ns ⊎ Memᴰ x stack
unfolding push_all
push_all-only x [] stack m = inr m
push_all-only x (n ∷ ns) stack m = elim (push_all-only x ns (n ∷ stack) m) [
  | inl r ↦ inl (Memᴰ.tail r)
  | inr s ↦ elim (Memᴰ.cases_cons s) [ inl e ↦ inl (Memᴰ.head e) | inr r ↦ inr r ]
]

pub length-push_all :
    (ns stack : List String) → length (push_all ns stack) ≡ length ns + length stack
unfolding push_all
length-push_all [] stack = omega arith
length-push_all (n ∷ ns) stack = omega (arith, length-push_all ns (n ∷ stack))
