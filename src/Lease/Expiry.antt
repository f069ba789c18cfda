-- ===== src/Lease/Expiry.antt =====
-- What becomes of a lease when its time is over.
use tempest.Base.{
  ℕ, ◌<◌, String, ◌≡◌, refl, sym, ap, ◌∙◌, ◌≢◌, ◌↔◌, inl, inr, false, none, some, List, [], ◌∷◌,
  arith, ltb, ltb→lt, if◌then◌else◌, Bool-cases, Option-cases, ℤ, ◌=?◌, string_eq, nat_eq, =?_eq,
}
use tempest.Base.GoMap.{lookup, erase, keys, lookup-erase, lookup-insert_self}
use mathlib.Core.List.{Memᴰ}
use tempest.Lease.{Lease, Manager, lease_conflict, add_ttl, acquire, get, expired_from, expired}
use tempest.Lease.Exclusion.{expired_from-live}

-- What the loop of `Expired` leaves at a resource where it need not look any further.
expired_from-none :
    (rs : List String) (m : List (String × Lease)) (now : ℕ) (r : String)
    → lookup m r ≡ none
    → lookup (expired_from rs m now).1 r ≡ none
unfolding expired_from
expired_from-none [] m now r h = h
expired_from-none (s ∷ rs) m now r h = elim (Option-cases (lookup m s)) [
  | inl miss ↦ ground (arith, miss, expired_from-none rs m now r h)
  | inr (k, found) ↦
      let gone : lookup (erase m s) r ≡ none =
        ground (arith, lookup-erase m s r, h, Bool-cases (s =? r)) in
      ground (
        arith,
        found,
        expired_from-none rs m now r h,
        expired_from-none rs (erase m s) now r gone,
        Bool-cases (ltb k.expires_at now),
      )
]

lookup-keys :
    (m : List (String × Lease)) (r : String) (l : Lease) → lookup m r ≡ some l → Memᴰ r (keys m)
unfolding lookup keys
lookup-keys [] r l h = ground arith
lookup-keys ((j, v) ∷ m) r l h = elim (Bool-cases (j =? r)) [
  | inl same ↦ Memᴰ.head (sym (=?_eq j r same))
  | inr other ↦ Memᴰ.tail (lookup-keys m r l (ground (arith, other, h)))
]

expired_from-late :
    (rs : List String) (m : List (String × Lease)) (now : ℕ) (r : String) (l : Lease)
    → lookup m r ≡ some l
    → l.expires_at < now
    → Memᴰ r rs
    → lookup (expired_from rs m now).1 r ≡ none
unfolding expired_from
expired_from-late [] m now r l h late k = elim k [ ]
expired_from-late (s ∷ rs) m now r l h late (Memᴰ.head e) =
    let here : lookup m s ≡ some l = ap (lookup m) (sym e) ∙ h in
    let gone : lookup (erase m s) r ≡ none =
      lookup-erase m s r ∙ rw ((string_eq.beq_iff s r).1 (sym e)) refl in
    ground (arith, here, late, expired_from-none rs (erase m s) now r gone)
expired_from-late (s ∷ rs) m now r l h late (Memᴰ.tail k) = elim (Option-cases (lookup m s)) [
  | inl miss ↦ ground (arith, miss, expired_from-late rs m now r l h late k)
  | inr (o, found) ↦ elim (Bool-cases (s =? r)) [
    | inl same ↦
        let gone : lookup (erase m s) r ≡ none = lookup-erase m s r ∙ rw same refl in
        ground (
          arith,
          found,
          expired_from-none rs (erase m s) now r gone,
          expired_from-late rs m now r l h late k,
          Bool-cases (ltb o.expires_at now),
        )
    | inr other ↦
        let kept : lookup (erase m s) r ≡ some l = lookup-erase m s r ∙ rw other h in
        ground (
          arith,
          found,
          expired_from-late rs (erase m s) now r l kept late k,
          expired_from-late rs m now r l h late k,
          Bool-cases (ltb o.expires_at now),
        )
  ]
]

-- Whatever the order in which `Expired` visits the leases, it leaves at each resource exactly the
-- lease that `Get` reports at that time.
pub expired-get :
    (m : Manager) (now : ℕ) (r : String) → lookup (expired m now).1.leases r ≡ get m r now
unfolding expired get
expired-get m now r = elim (Option-cases (lookup m.leases r)) [
  | inl miss ↦ ground (arith, miss, expired_from-none (keys m.leases) m.leases now r miss)
  | inr (l, found) ↦ elim (Bool-cases (ltb l.expires_at now)) [
    | inl late ↦ ground (
      arith,
      found,
      late,
      expired_from-late (keys m.leases) m.leases now r l found (ltb→lt l.expires_at now late)
          (lookup-keys m.leases r l found),
    )
    | inr early ↦ ground (
      arith,
      found,
      early,
      expired_from-live (keys m.leases) m.leases now r l found (ground (arith, early)),
    )
  ]
]

-- `Acquire` by another holder is refused exactly when `Get` reports the lease, except at the very
-- instant of its expiry: then `Get` still reports it, and yet `Acquire` grants the resource anew.
pub acquire-agrees_get :
    (m : Manager) (id h r : String) (ttl : ℤ) (now later : ℕ) (l : Lease)
    → lookup m.leases r ≡ some l
    → (l.holder =? h) ≡ false
    → (now ≢ l.expires_at
        → (get m r now ≡ some l)
          ↔ (acquire m id h r ttl now later ≡ (inl (lease_conflict r l.holder), m)))
      × (now ≡ l.expires_at
          → (get m r now ≡ some l)
            × (get (acquire m id h r ttl now later).1 r now ≡ (
                if ltb (add_ttl later ttl) now
                then none
                else some (record {
                  id = id;
                  holder = h;
                  resource = r;
                  expires_at = add_ttl later ttl;
                }))))
unfolding acquire get
acquire-agrees_get m id h r ttl now later l k differ = (
  λ off. elim (Bool-cases (ltb now l.expires_at)) [
    | inl live ↦ ground (arith, k, differ, live)
    | inr over ↦ ground (arith, k, differ, over)
  ],
  λ on.
      let lease : Lease = record {
        id = id;
        holder = h;
        resource = r;
        expires_at = add_ttl later ttl;
      } in
      (ground (arith, k, on), ground (arith, k, on, differ, lookup-insert_self m.leases r lease)),
)
