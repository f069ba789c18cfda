-- ===== src/MemStore/Keys/Members.antt =====
-- What a sorted and what a filtered listing holds.
use tempest.Base.{
  ◌≡◌, ap, ◌∙◌, ◌↔◌, inl, inr, Bool, true, List, [], ◌∷◌, arith, Bool-cases, int_eq, string_eq,
  nat_eq,
}
use tempest.MemStore.Keys.{put_in, sort_slice, filter}
use mathlib.Core.List.{Memᴰ}
use mathlib.Core.List.Memᴰ

module _ {ℓ} {A : Type ℓ} (less : A → A → Bool) where
  pub put_in-mem : (x y : A) (l : List A) → Memᴰ x (put_in less y l) ↔ Memᴰ x (y ∷ l)
  put_in-mem x y [] = (λ k. k, λ k. k)
  put_in-mem x y (z ∷ l) = elim (Bool-cases (less y z)) [
    | inl first ↦ rw first ((λ k. k, λ k. k))
    | inr later ↦ rw later (
      λ k. elim (Memᴰ.cases_cons k) [
        | inl e ↦ Memᴰ.tail (Memᴰ.head e)
        | inr t ↦ elim (Memᴰ.cases_cons ((put_in-mem x y l).0 t)) [
          | inl e ↦ Memᴰ.head e
          | inr u ↦ Memᴰ.tail (Memᴰ.tail u)
        ]
      ],
      λ k. elim (Memᴰ.cases_cons k) [
        | inl e ↦ Memᴰ.tail ((put_in-mem x y l).1 (Memᴰ.head e))
        | inr t ↦ elim (Memᴰ.cases_cons t) [
          | inl e ↦ Memᴰ.head e
          | inr u ↦ Memᴰ.tail ((put_in-mem x y l).1 (Memᴰ.tail u))
        ]
      ],
    )
  ]

  pub sort_slice-mem : (x : A) (l : List A) → Memᴰ x (sort_slice less l) ↔ Memᴰ x l
  sort_slice-mem x [] = (λ k. k, λ k. k)
  sort_slice-mem x (y ∷ l) = (
    λ k. elim (Memᴰ.cases_cons ((put_in-mem x y (sort_slice less l)).0 k)) [
      | inl e ↦ Memᴰ.head e
      | inr t ↦ Memᴰ.tail ((sort_slice-mem x l).0 t)
    ],
    λ k. elim (Memᴰ.cases_cons k) [
      | inl e ↦ (put_in-mem x y (sort_slice less l)).1 (Memᴰ.head e)
      | inr t ↦ (put_in-mem x y (sort_slice less l)).1 (Memᴰ.tail ((sort_slice-mem x l).1 t))
    ],
  )

module _ {ℓ} {A : Type ℓ} (keep : A → Bool) where
  pub filter-mem : (x : A) (l : List A) → Memᴰ x (filter keep l) ↔ (Memᴰ x l × (keep x ≡ true))
  filter-mem x [] = (λ k. absurd (Memᴰ.not-nil k), λ k. k.0)
  filter-mem x (y ∷ l) = elim (Bool-cases (keep y)) [
    | inl good ↦ rw good (
      λ k. elim (Memᴰ.cases_cons k) [
        | inl e ↦ (Memᴰ.head e, ap keep e ∙ good)
        | inr t ↦ let (m, h) = (filter-mem x l).0 t in (Memᴰ.tail m, h)
      ],
      λ (k, h). elim (Memᴰ.cases_cons k) [
        | inl e ↦ Memᴰ.head e
        | inr t ↦ Memᴰ.tail ((filter-mem x l).1 (t, h))
      ],
    )
    | inr bad ↦ rw bad (
      λ k. let (m, h) = (filter-mem x l).0 k in (Memᴰ.tail m, h),
      λ (k, h). elim (Memᴰ.cases_cons k) [
        | inl e ↦ absurd (ground (arith, h, ap keep e, bad))
        | inr t ↦ (filter-mem x l).1 (t, h)
      ],
    )
  ]
