-- ===== src/MemStore/Runs/Drop.antt =====
-- Which runs the deletion by ID leaves in the map.
use tempest.Base.{
  String, ◌≡◌, refl, sym, ap, ◌∙◌, subst, inl, inr, true, false, none, some, List, [], ◌∷◌, arith,
  Bool-cases, Option-cases, ◌=?◌, string_eq, nat_eq, =?_ne,
}
use tempest.Base.GoMap.{lookup, erase, lookup-erase}
use tempest.Types.{run_state_eq}
use tempest.Types.Records.{Run}
use tempest.MemStore.Runs.{drop_runs}
use mathlib.Core.List.{Memᴰ}
use mathlib.Core.Option.{some_inj}

module _ {Any : Type 0} where
  pub drop_runs-none :
      (order : List String) (id : String) (m : List (String × Run Any)) (k : String)
      → lookup m k ≡ none
      → lookup (drop_runs order id m).1 k ≡ none
  unfolding drop_runs
  drop_runs-none [] id m k h = h
  drop_runs-none (j ∷ order) id m k h = elim (Option-cases (lookup m j)) [
    | inl miss ↦ ground (arith, miss, drop_runs-none order id m k h)
    | inr (r, found) ↦
        let gone : lookup (erase m j) k ≡ none =
          ground (arith, lookup-erase m j k, h, Bool-cases (j =? k)) in
        ground (
          arith,
          found,
          drop_runs-none order id m k h,
          drop_runs-none order id (erase m j) k gone,
          Bool-cases (r.id =? id),
        )
  ]

  -- A run of another ID stays.
  pub drop_runs-kept :
      (order : List String) (id : String) (m : List (String × Run Any)) (k : String) (r : Run Any)
      → lookup m k ≡ some r
      → (r.id =? id) ≡ false
      → lookup (drop_runs order id m).1 k ≡ some r
  unfolding drop_runs
  drop_runs-kept [] id m k r h other = h
  drop_runs-kept (j ∷ order) id m k r h other = elim (Option-cases (lookup m j)) [
    | inl miss ↦ ground (arith, miss, drop_runs-kept order id m k r h other)
    | inr (r', found) ↦ elim (Bool-cases (r'.id =? id)) [
      | inl hit ↦
          let apart : (j =? k) ≡ false = =?_ne j k (λ e.
            let same : r' ≡ r = some_inj.0 (sym found ∙ ap (lookup m) e ∙ h) in
            let clash : (r.id =? id) ≡ true =
              subst (λ (x : Run Any). (x.id =? id) ≡ true) same hit in
            ground (arith, clash, other)) in
          let kept : lookup (erase m j) k ≡ some r = lookup-erase m j k ∙ rw apart h in
          ground (arith, found, hit, drop_runs-kept order id (erase m j) k r kept other)
      | inr pass ↦ ground (arith, found, pass, drop_runs-kept order id m k r h other)
    ]
  ]

  -- A run of that ID goes, in whichever namespace it is.
  pub drop_runs-gone :
      (order : List String) (id : String) (m : List (String × Run Any)) (k : String) (r : Run Any)
      → lookup m k ≡ some r
      → (r.id =? id) ≡ true
      → Memᴰ k order
      → lookup (drop_runs order id m).1 k ≡ none
  unfolding drop_runs
  drop_runs-gone [] id m k r h hit at = elim at [ ]
  drop_runs-gone (j ∷ order) id m k r h hit (Memᴰ.head e) =
      let found : lookup m j ≡ some r = ap (lookup m) (sym e) ∙ h in
      let gone : lookup (erase m j) k ≡ none =
        lookup-erase m j k ∙ rw ((string_eq.beq_iff j k).1 (sym e)) refl in
      ground (arith, found, hit, drop_runs-none order id (erase m j) k gone)
  drop_runs-gone (j ∷ order) id m k r h hit (Memᴰ.tail at) = elim (Option-cases (lookup m j)) [
    | inl miss ↦ ground (arith, miss, drop_runs-gone order id m k r h hit at)
    | inr (r', found) ↦ elim (Bool-cases (j =? k)) [
      | inl same ↦
          let gone : lookup (erase m j) k ≡ none = lookup-erase m j k ∙ rw same refl in
          ground (
            arith,
            found,
            drop_runs-none order id (erase m j) k gone,
            drop_runs-gone order id m k r h hit at,
            Bool-cases (r'.id =? id),
          )
      | inr other ↦
          let kept : lookup (erase m j) k ≡ some r = lookup-erase m j k ∙ rw other h in
          ground (
            arith,
            found,
            drop_runs-gone order id (erase m j) k r kept hit at,
            drop_runs-gone order id m k r h hit at,
            Bool-cases (r'.id =? id),
          )
    ]
  ]

-- Sorting and filtering keep and drop entries, and change none.
