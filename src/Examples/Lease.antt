-- ===== src/Examples/Lease.antt =====
-- Runs of internal/lease.
use tempest.Base.{◌≡◌, refl, inl, inr, List, [], ◌∷◌, arith, pos, string_eq, nat_eq}
use tempest.Base.GoMap.{lookup}
use tempest.Lease.{Lease, Manager, lease_conflict, new_manager, acquire, get, expired}
use tempest.Lease.Expiry.{expired-get}
use tempest.Lease.Exclusion.{Call, acquires, renews, releases, collects, run, lease_exclusive}

abbrev others : List Call
others =
    acquires "3" "bob" "disk" (pos 9) 12 12
    ∷ renews "bob" "gpu" (pos 50) 13
    ∷ releases "bob" "gpu"
    ∷ collects 14
    ∷ []

abbrev alices : Lease
alices = record { id = "1"; holder = "alice"; resource = "gpu"; expires_at = 15 }

abbrev held : Manager
held = record { leases = ("gpu", alices) ∷ [] }

lease_exclusive_example :
    acquire
      (run (acquire new_manager "1" "alice" "gpu" (pos 5) 10 10).1 others)
      "2"
      "bob"
      "gpu"
      (pos 5)
      14
      14
    ≡ (
      inl (lease_conflict "gpu" "alice"),
      run (acquire new_manager "1" "alice" "gpu" (pos 5) 10 10).1 others,
    )
unfolding acquire new_manager lookup
lease_exclusive_example =
    lease_exclusive new_manager "1" "alice" "gpu" (pos 5) 10 10 alices others "2" "bob" (pos 5) 14
      14 refl (inl refl, (inr refl, (inr refl, (omega arith, tt)))) refl (omega arith)

expired-get_example : lookup (expired held 15).1.leases "gpu" ≡ get held "gpu" 15
expired-get_example = expired-get held 15 "gpu"
