-- ===== src/Lease.antt =====
-- internal/lease/lease.go: leases on resources, one for each. The mutex makes each method one step;
-- a method that reads the clock takes the time, once for each reading. The text that `tokenFn`
-- answers is an argument. `Renew` writes through the pointer that `Acquire` returned, so a caller
-- who kept it sees the new expiry; the model keeps the stored lease only. The clock never reads 0.
pub mod Exclusion
pub mod Expiry
use tempest.Base.{
  ℕ, suc, ◌+◌, ◌-◌, String, ◌⊎◌, inl, inr, not, ◌&&◌, Option, none, some, List, [], ◌∷◌, ltb,
  if◌then◌else◌, ℤ, pos, negsuc, ◌=?◌, string_eq, nat_eq,
}
use tempest.Base.GoMap.{lookup, insert, erase, keys}

pub record Lease : Type 0 where
  pub id : String
  pub holder : String
  pub resource : String
  pub expires_at : ℕ

pub record Manager : Type 0 where
  pub leases : List (String × Lease)

pub data Error : Type 0 where
  lease_not_found : String → Error
  lease_conflict : String → String → Error

-- `now.Add(ttl)`; a time before the origin is brought to the origin, which is in the past as well.
abbrev pub add_ttl : ℕ → ℤ → ℕ
add_ttl now (pos n) = now + n
add_ttl now (negsuc n) = now - suc n

unfoldable pub new_manager : Manager
new_manager = record { leases = [] }

unfoldable pub acquire : Manager → String → String → String → ℤ → ℕ → ℕ → (Error ⊎ Lease) × Manager
acquire m id holder resource ttl now later =
    let lease : Lease = record {
      id = id;
      holder = holder;
      resource = resource;
      expires_at = add_ttl later ttl;
    } in
    let granted : (Error ⊎ Lease) × Manager =
      (inr lease, record m { leases = insert m.leases resource lease }) in
    elim (lookup m.leases resource) [
      | none ↦ granted
      | some existing ↦
          if ltb now existing.expires_at && not (existing.holder =? holder)
          then (inl (lease_conflict resource existing.holder), m)
          else granted
    ]

unfoldable pub renew : Manager → String → String → ℤ → ℕ → Option Error × Manager
renew m holder resource ttl now = elim (lookup m.leases resource) [
  | none ↦ (some (lease_not_found resource), m)
  | some lease ↦
      if not (lease.holder =? holder) then (some (lease_conflict resource lease.holder), m) else (
        none,
        record m {
          leases = insert m.leases resource (record lease { expires_at = add_ttl now ttl });
        },
      )
]

unfoldable pub release : Manager → String → String → Option Error × Manager
release m holder resource = elim (lookup m.leases resource) [
  | none ↦ (some (lease_not_found resource), m)
  | some lease ↦
      if not (lease.holder =? holder)
      then (some (lease_conflict resource lease.holder), m)
      else (none, record m { leases = erase m.leases resource })
]

unfoldable pub get : Manager → String → ℕ → Option Lease
get m resource now = elim (lookup m.leases resource) [
  | none ↦ none
  | some lease ↦ if ltb lease.expires_at now then none else some lease
]

-- The loop of `Expired` over the resources that are left, in one order of `range`.
unfoldable pub expired_from :
    List String → List (String × Lease) → ℕ → List Lease × List (String × Lease)
expired_from [] leases now = ([], leases)
expired_from (resource ∷ rest) leases now =
    let skip = expired_from rest leases now in
    let after = expired_from rest (erase leases resource) now in
    elim (lookup leases resource) [
      | none ↦ skip
      | some lease ↦ if ltb lease.expires_at now then (lease ∷ after.0, after.1) else skip
    ]

unfoldable pub expired : Manager → ℕ → List Lease × Manager
unfolding expired_from
expired m now =
    let (gone, left) = expired_from (keys m.leases) m.leases now in
    (gone, record m { leases = left })

-- The loop of `All`; `clock` tells when a resource's lease is reached.
unfoldable pub all_from : List (String × Lease) → (String → ℕ) → List Lease
all_from [] clock = []
all_from ((resource, lease) ∷ rest) clock =
    let more = all_from rest clock in
    if ltb (clock resource) lease.expires_at then lease ∷ more else more

unfoldable pub all : Manager → (String → ℕ) → List Lease
unfolding all_from
all m clock = all_from m.leases clock
