-- ===== src/MemStore/Runs/Compaction.antt =====
-- Which runs are compacted.
use tempest.Base.{
  ℕ, String, ◌≡◌, refl, ap, ◌∙◌, subst, ◌↔◌, ◌⊎◌, inl, inr, true, none, some, List, [], ◌∷◌, map,
  arith, Bool-cases, pos, ◌=?◌, string_eq, nat_eq, =?_eq,
}
use tempest.Base.GoMap.{lookup}
use tempest.Types.{run_state_eq}
use tempest.Types.Records.{Run}
use tempest.MemStore.{Store}
use tempest.MemStore.Keys.{filter, values}
use tempest.MemStore.Runs.{
  is_expired, finished_first, drop_runs, drop_queued, list_expired_runs, delete_runs, compact_runs,
}
use mathlib.Core.List.{Memᴰ}
use mathlib.Core.List.Memᴰ
use tempest.MemStore.Runs.Drop.{drop_runs-none, drop_runs-kept, drop_runs-gone}
use tempest.MemStore.Keys.Members.{sort_slice-mem, filter-mem}

module _ {Any Float : Type 0} where
  abbrev after :
      Store Any Float → List String → (String → List String × List String) → List (String × Run Any)
  after s ids orders = (delete_runs s ids orders).1.runs

  abbrev without_id :
      Store Any Float → String → (String → List String × List String) → Store Any Float
  without_id s id orders = record s {
    runs = (drop_runs (orders id).0 id s.runs).1;
    queue = drop_queued (orders id).1 id s.queue;
  }

  after-cons :
      (s : Store Any Float) (id : String) (ids : List String)
      (orders : String → List String × List String)
      → after s (id ∷ ids) orders ≡ after (without_id s id orders) ids orders
  unfolding delete_runs
  after-cons s id ids orders = refl

  after-nil :
      (s : Store Any Float) (orders : String → List String × List String)
      → after s [] orders ≡ s.runs
  unfolding delete_runs
  after-nil s orders = refl

  after-none :
      (s : Store Any Float) (ids : List String) (orders : String → List String × List String)
      (k : String)
      → lookup s.runs k ≡ none
      → lookup (after s ids orders) k ≡ none
  after-none s [] orders k h = ap (λ m. lookup m k) (after-nil s orders) ∙ h
  after-none s (id ∷ ids) orders k h =
      ap (λ m. lookup m k) (after-cons s id ids orders)
      ∙ after-none (without_id s id orders) ids orders k
          (drop_runs-none (orders id).0 id s.runs k h)

  -- A run goes exactly when its ID is among those to delete.
  after-run :
      (s : Store Any Float) (ids : List String) (orders : String → List String × List String)
      (k : String) (r : Run Any)
      → lookup s.runs k ≡ some r
      → ((id : String) → Memᴰ k (orders id).0)
      → (Memᴰ r.id ids × (lookup (after s ids orders) k ≡ none))
        ⊎ ((Memᴰ r.id ids → ⊥) × (lookup (after s ids orders) k ≡ some r))
  after-run s [] orders k r h all =
      inr (Memᴰ.not-nil, ap (λ m. lookup m k) (after-nil s orders) ∙ h)
  after-run s (id ∷ ids) orders k r h all = elim (Bool-cases (r.id =? id)) [
    | inl hit ↦ inl (
      Memᴰ.head (=?_eq r.id id hit),
      ap (λ m. lookup m k) (after-cons s id ids orders)
          ∙ after-none (without_id s id orders) ids orders k
              (drop_runs-gone (orders id).0 id s.runs k r h hit (all id)),
    )
    | inr pass ↦
        elim (after-run (without_id s id orders) ids orders k r
          (drop_runs-kept (orders id).0 id s.runs k r h pass) all) [
            | inl (there, gone) ↦
                inl (Memᴰ.tail there, ap (λ m. lookup m k) (after-cons s id ids orders) ∙ gone)
            | inr (absent, kept) ↦ inr (
              λ there. elim (Memᴰ.cases_cons there) [
                | inl e ↦
                    let clash : (r.id =? id) ≡ true = (string_eq.beq_iff r.id id).1 e in
                    ground (arith, clash, pass)
                | inr t ↦ absent t
              ],
              ap (λ m. lookup m k) (after-cons s id ids orders) ∙ kept,
            )
          ]
  ]

  list_expired_runs-mem :
      (s : Store Any Float) (cutoff : ℕ) (x : Run Any)
      → Memᴰ x (list_expired_runs s cutoff (pos 0))
        ↔ (Memᴰ x (values s.runs) × (is_expired cutoff x ≡ true))
  unfolding list_expired_runs
  list_expired_runs-mem s cutoff x =
      let sorted = sort_slice-mem finished_first x (filter (is_expired cutoff) (values s.runs)) in
      let kept = filter-mem (is_expired cutoff) x (values s.runs) in
      (λ k. kept.0 (sorted.0 k), λ k. sorted.1 (kept.1 k))

  -- Compacting without a limit deletes a run that is stored at the deletion, and whose key `range`
  -- visits, exactly when some run that was expired at the listing has its ID: also where the run
  -- itself is in another namespace and still live, or was created in between.
  pub compact_runs_iff :
      (s s' : Store Any Float) (cutoff : ℕ) (orders : String → List String × List String)
      (k : String) (r : Run Any)
      → lookup s'.runs k ≡ some r
      → ((id : String) → Memᴰ k (orders id).0)
      → (lookup (compact_runs s s' cutoff (pos 0) orders).1.runs k ≡ none)
        ↔ ((x : Run Any) × Memᴰ x (values s.runs) × (is_expired cutoff x ≡ true) × (x.id ≡ r.id))
  unfolding compact_runs
  compact_runs_iff s s' cutoff orders k r h all =
      let ids = map (λ (x : Run Any). x.id) (list_expired_runs s cutoff (pos 0)) in
      elim (after-run s' ids orders k r h all) [
        | inl (there, gone) ↦ (
          λ _.
              let (x, m, e) =
                Memᴰ.of_map (λ (x : Run Any). x.id) (list_expired_runs s cutoff (pos 0)) there in
              let (stored, expired) = (list_expired_runs-mem s cutoff x).0 m in
              (x, stored, expired, e),
          λ _. gone,
        )
        | inr (absent, kept) ↦ (
          λ gone. absurd (ground (arith, gone, kept)),
          λ (x, stored, expired, e). absurd (
              absent (
                subst (λ i. Memᴰ i ids) e
                  (Memᴰ.map (λ (x : Run Any). x.id)
                    ((list_expired_runs-mem s cutoff x).1 (stored, expired))))),
        )
      ]
