-- ===== src/Base/GoMap.antt =====
-- Go's built-in map as an association list: a read, a write and `delete`. The list is one order in
-- which `range` may visit the entries.
use mathlib.Core.Path.{◌≡◌, refl}
use mathlib.Core.Bool.{false}
use mathlib.Core.Option.{Option, none, some}
use mathlib.Core.List.{List, [], ◌∷◌}
use native.Mathlib.Omega.{arith}
use tempest.Base.Tests.{if◌then◌else◌}
use tempest.Base.Classes.{Eq, ◌=?◌, =?_refl}

module _ {ℓ κ} {K : Type ℓ} ⦃e : Eq K⦄ {V : Type κ} where
  unfoldable pub lookup : List (K × V) → K → Option V
  lookup [] k = none
  lookup ((j, v) ∷ m) k = if j =? k then some v else lookup m k

  unfoldable pub insert : List (K × V) → K → V → List (K × V)
  insert [] k v = (k, v) ∷ []
  insert ((j, w) ∷ m) k v = if j =? k then (j, v) ∷ m else (j, w) ∷ insert m k v

  unfoldable pub erase : List (K × V) → K → List (K × V)
  erase [] k = []
  erase ((j, w) ∷ m) k = if j =? k then erase m k else (j, w) ∷ erase m k

  unfoldable pub keys : List (K × V) → List K
  keys [] = []
  keys ((j, w) ∷ m) = j ∷ keys m

  -- A read after a write, at any key.
  pub lookup-insert :
      (m : List (K × V)) (k j : K) (v : V)
      → lookup (insert m k v) j ≡ (if k =? j then some v else lookup m j)
  unfolding lookup insert
  lookup-insert [] k j v = refl
  lookup-insert ((i, w) ∷ m) k j v =
      ground (arith, e.beq_iff k j, e.beq_iff i k, e.beq_iff i j, lookup-insert m k j v)

  -- A read after a `delete`, at any key.
  pub lookup-erase :
      (m : List (K × V)) (k j : K) → lookup (erase m k) j ≡ (if k =? j then none else lookup m j)
  unfolding lookup erase
  lookup-erase [] k j = ground arith
  lookup-erase ((i, w) ∷ m) k j =
      ground (arith, e.beq_iff k j, e.beq_iff i k, e.beq_iff i j, lookup-erase m k j)

  pub lookup-insert_self : (m : List (K × V)) (k : K) (v : V) → lookup (insert m k v) k ≡ some v
  lookup-insert_self m k v = simp (lookup-insert, =?_refl)

  pub lookup-insert_ne :
      (m : List (K × V)) (k j : K) (v : V) → (k =? j) ≡ false → lookup (insert m k v) j ≡ lookup m j
  lookup-insert_ne m k j v h = simp (lookup-insert, h)
