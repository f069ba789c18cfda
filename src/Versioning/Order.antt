-- ===== src/Versioning/Order.antt =====
-- The order of versions.
use tempest.Base.{
  ◌≡◌, refl, sym, ap, ◌∙◌, ◌↔◌, inl, inr, true, false, not, ◌&&◌, ◌||◌, arith, Bool-cases, pos,
  negsuc, int_eq, ◌=?◌, string_eq, nat_eq, =?_eq,
}
use tempest.Versioning.{Version, compare, equal, less_than, greater_than}
use tempest.Versioning.Signs.{
  opposite, by_int-opposite, by_int_zero, by_int_less, by_pre-opposite, by_pre_zero, by_pre_less,
  IsSign, by_int-IsSign, by_pre-IsSign,
}

compare_less :
    (u v w : Version) → compare u v ≡ negsuc 0 → compare v w ≡ negsuc 0 → compare u w ≡ negsuc 0
unfolding compare
compare_less u v w h g =
    by_int_less u.major v.major w.major _ _ _
      (by_int_less u.minor v.minor w.minor _ _ _
        (by_int_less u.patch v.patch w.patch _ _ _ (by_pre_less u.pre v.pre w.pre)))
      h g

pub compare-IsSign : (u v : Version) → IsSign (compare u v)
unfolding compare
compare-IsSign u v =
    by_int-IsSign u.major v.major _ (
      by_int-IsSign u.minor v.minor _ (by_int-IsSign u.patch v.patch _ (by_pre-IsSign u.pre v.pre)))

pub compare-opposite : (u v : Version) → compare v u ≡ opposite (compare u v)
unfolding compare
compare-opposite u v = by_int-opposite u.major v.major _ _ (
    by_int-opposite u.minor v.minor _ _
      (by_int-opposite u.patch v.patch _ _ (by_pre-opposite u.pre v.pre)))

compare_zero : (u v : Version) → compare u v ≡ pos 0 → u ≡ v
unfolding compare
compare_zero u v h =
    let (major, below) = by_int_zero u.major v.major _ h in
    let (minor, below') = by_int_zero u.minor v.minor _ below in
    let (patch, last) = by_int_zero u.patch v.patch _ below' in
    let pre = by_pre_zero u.pre v.pre last in
    λ i. record { major = major i; minor = minor i; patch = patch i; pre = pre i }

compare_self : (u : Version) → compare u u ≡ pos 0
compare_self u = elim (compare-IsSign u u) [
  | inl h ↦ h
  | inr (inl h) ↦ ground (arith, compare-opposite u u, h)
  | inr (inr h) ↦ ground (arith, compare-opposite u u, h)
]

less_than_iff : (u v : Version) → (less_than u v ≡ true) ↔ (compare u v ≡ negsuc 0)
unfolding less_than
less_than_iff u v = elim (compare-IsSign u v) [
  | inl h ↦ (λ g. ground (arith, h, g), λ g. ground (arith, g))
  | inr (inl h) ↦ (λ g. ground (arith, h, g), λ g. ground (arith, g))
  | inr (inr h) ↦ (λ g. h, λ g. rw g refl)
]

less_than_total :
    (u v : Version)
    → (greater_than v u ≡ less_than u v)
      × ((equal u v || less_than u v || less_than v u) ≡ true)
      × ((less_than u v && less_than v u) ≡ false)
unfolding less_than greater_than equal
less_than_total u v =
    let back = compare-opposite u v in
    elim (compare-IsSign u v) [
      | inl h ↦ (rw (back, h) refl, rw (back, h) refl, rw (back, h) refl)
      | inr (inl h) ↦ (rw (back, h) refl, rw (back, h) refl, rw (back, h) refl)
      | inr (inr h) ↦ (rw (back, h) refl, rw (back, h) refl, rw (back, h) refl)
    ]

less_than_trans :
    (u v w : Version) → (less_than u v && less_than v w && not (less_than u w)) ≡ false
less_than_trans u v w = elim (Bool-cases (less_than u v)) [
  | inr more ↦ rw more refl
  | inl less ↦ elim (Bool-cases (less_than v w)) [
    | inr more ↦ rw (less, more) refl
    | inl less' ↦
        let both = compare_less u v w ((less_than_iff u v).0 less) ((less_than_iff v w).0 less') in
        rw (less, less', (less_than_iff u w).1 both) refl
  ]
]

-- `Compare` is a linear order: two versions are equal when it says so, and then alone; of two others
-- exactly one is less, and the other is greater; what is less than a lesser version is less.
pub compare_linear :
    (u v w : Version)
    → ((equal u v ≡ true) ↔ (u ≡ v))
      × (greater_than v u ≡ less_than u v)
      × ((equal u v || less_than u v || less_than v u) ≡ true)
      × ((less_than u v && less_than v u) ≡ false)
      × ((less_than u v && less_than v w && not (less_than u w)) ≡ false)
unfolding equal
compare_linear u v w =
    let (other, some_order, not_both) = less_than_total u v in
    (
      (
        λ h. compare_zero u v (=?_eq (compare u v) (pos 0) h),
        λ p. ap (λ x. compare u x =? pos 0) (sym p) ∙ rw (compare_self u) refl,
      ),
      other,
      some_order,
      not_both,
      less_than_trans u v w,
    )
