-- ===== src/Lease/Exclusion.antt =====
-- What a lease excludes: how the calls of one holder depend on the leases of another.
use tempest.Base.{
  ℕ, ◌≤◌, ◌<◌, String, ◌≡◌, sym, ap, ◌∙◌, ◌⊎◌, inl, inr, true, false, some, List, [], ◌∷◌, arith,
  ltb, Bool-cases, Option-cases, All, ℤ, ◌=?◌, string_eq, nat_eq, =?_ne,
}
use tempest.Base.GoMap.{lookup, erase, keys, lookup-insert, lookup-erase, lookup-insert_self}
use tempest.Lease.{
  Lease, Manager, lease_conflict, add_ttl, acquire, renew, release, expired_from, expired,
}

-- The mutating calls.
pub data Call : Type 0 where
  acquires : String → String → String → ℤ → ℕ → ℕ → Call
  renews : String → String → ℤ → ℕ → Call
  releases : String → String → Call
  collects : ℕ → Call

unfoldable pub step : Manager → Call → Manager
step m (acquires id h r ttl now later) = (acquire m id h r ttl now later).1
step m (renews h r ttl now) = (renew m h r ttl now).1
step m (releases h r) = (release m h r).1
step m (collects now) = (expired m now).1

unfoldable pub run : Manager → List Call → Manager
unfolding step
run m [] = m
run m (c ∷ cs) = run (step m c) cs

-- A call that another holder makes, or that is about another resource; one that may grant or
-- collect comes before the lease is over.
abbrev pub IsForeign : Lease → String → Call → Type 0
IsForeign l r (acquires id h s ttl now later) =
    ((r =? s) ≡ false) ⊎ (((l.holder =? h) ≡ false) × (now < l.expires_at))
IsForeign l r (renews h s ttl now) = ((r =? s) ≡ false) ⊎ ((l.holder =? h) ≡ false)
IsForeign l r (releases h s) = ((r =? s) ≡ false) ⊎ ((l.holder =? h) ≡ false)
IsForeign l r (collects now) = now ≤ l.expires_at

spent :
    (k l : Lease) {now : ℕ} → some k ≡ some l → ltb k.expires_at now ≡ true → now ≤ l.expires_at → ⊥
spent k l e late live = ground arith

-- What is left at a resource after the loop over some of them.
pub expired_from-live :
    (rs : List String) (m : List (String × Lease)) (now : ℕ) (r : String) (l : Lease)
    → lookup m r ≡ some l
    → now ≤ l.expires_at
    → lookup (expired_from rs m now).1 r ≡ some l
unfolding expired_from
expired_from-live [] m now r l h live = h
expired_from-live (s ∷ rs) m now r l h live = elim (Option-cases (lookup m s)) [
  | inl miss ↦ ground (arith, miss, expired_from-live rs m now r l h live)
  | inr (k, found) ↦ elim (Bool-cases (ltb k.expires_at now)) [
    | inl late ↦
        let differ : (s =? r) ≡ false =
          =?_ne s r (λ e. spent k l (sym found ∙ ap (lookup m) e ∙ h) late live) in
        let kept : lookup (erase m s) r ≡ some l = lookup-erase m s r ∙ rw differ h in
        ground (arith, found, late, expired_from-live rs (erase m s) now r l kept live)
    | inr early ↦ ground (arith, found, early, expired_from-live rs m now r l h live)
  ]
]

step-foreign :
    (m : Manager) (c : Call) (r : String) (l : Lease)
    → lookup m.leases r ≡ some l
    → IsForeign l r c
    → lookup (step m c).leases r ≡ some l
unfolding step acquire renew release expired
step-foreign m (acquires id h s ttl now later) r l k f = elim (Option-cases (lookup m.leases s)) [
  | inl miss ↦
      let lease : Lease = record {
        id = id;
        holder = h;
        resource = s;
        expires_at = add_ttl later ttl;
      } in
      ground (
        arith,
        miss,
        k,
        f,
        lookup-insert m.leases s r lease,
        string_eq.beq_iff s r,
        string_eq.beq_iff r s,
      )
  | inr (o, found) ↦
      let lease : Lease = record {
        id = id;
        holder = h;
        resource = s;
        expires_at = add_ttl later ttl;
      } in
      ground (
        arith,
        found,
        k,
        f,
        lookup-insert m.leases s r lease,
        string_eq.beq_iff s r,
        string_eq.beq_iff r s,
      )
]
step-foreign m (renews h s ttl now) r l k f = elim (Option-cases (lookup m.leases s)) [
  | inl miss ↦ ground (arith, miss, k)
  | inr (o, found) ↦
      let lease : Lease = record o { expires_at = add_ttl now ttl } in
      ground (
        arith,
        found,
        k,
        f,
        lookup-insert m.leases s r lease,
        string_eq.beq_iff s r,
        string_eq.beq_iff r s,
      )
]
step-foreign m (releases h s) r l k f = elim (Option-cases (lookup m.leases s)) [
  | inl miss ↦ ground (arith, miss, k)
  | inr (o, found) ↦
      ground (
        arith,
        found,
        k,
        f,
        lookup-erase m.leases s r,
        string_eq.beq_iff s r,
        string_eq.beq_iff r s,
      )
]
step-foreign m (collects now) r l k f = expired_from-live (keys m.leases) m.leases now r l k f

run-foreign :
    (m : Manager) (cs : List Call) (r : String) (l : Lease)
    → lookup m.leases r ≡ some l
    → All (IsForeign l r) cs
    → lookup (run m cs).leases r ≡ some l
unfolding run
run-foreign m [] r l k f = k
run-foreign m (c ∷ cs) r l k f = run-foreign (step m c) cs r l (step-foreign m c r l k (f.0)) (f.1)

granted-lookup :
    (m : Manager) (id h r : String) (ttl : ℤ) (now later : ℕ) (l : Lease)
    → (acquire m id h r ttl now later).0 ≡ inr l
    → (lookup (acquire m id h r ttl now later).1.leases r ≡ some l) × (l.holder ≡ h)
unfolding acquire
granted-lookup m id h r ttl now later l g =
    let lease : Lease = record {
      id = id;
      holder = h;
      resource = r;
      expires_at = add_ttl later ttl;
    } in
    elim (Option-cases (lookup m.leases r)) [
      | inl miss ↦ ground (arith, miss, lookup-insert_self m.leases r lease)
      | inr (o, found) ↦ ground (arith, found, lookup-insert_self m.leases r lease)
    ]

-- A holder who asks for another's live lease is refused.
refused :
    (m : Manager) (id h r : String) (ttl : ℤ) (now later : ℕ) (l : Lease) (by : String)
    → lookup m.leases r ≡ some l
    → l.holder ≡ by
    → (by =? h) ≡ false
    → now < l.expires_at
    → acquire m id h r ttl now later ≡ (inl (lease_conflict r by), m)
unfolding acquire
refused m id h r ttl now later l by k e differ live =
    let other : (l.holder =? h) ≡ false = ap (λ x. x =? h) e ∙ differ in
    ground (arith, k, e, other, live)

-- Once a holder was granted a resource, then, whatever calls other holders make at that resource
-- while the lease lasts, and whatever happens at other resources, another holder who asks for it
-- before the lease is over is refused, is told who holds it, and nothing changes.
pub lease_exclusive :
    (m : Manager) (id h r : String) (ttl : ℤ) (now later : ℕ) (l : Lease) (cs : List Call)
    (id' h' : String) (ttl' : ℤ) (now' later' : ℕ)
    → (acquire m id h r ttl now later).0 ≡ inr l
    → All (IsForeign l r) cs
    → (h =? h') ≡ false
    → now' < l.expires_at
    → acquire (run (acquire m id h r ttl now later).1 cs) id' h' r ttl' now' later'
      ≡ (inl (lease_conflict r h), run (acquire m id h r ttl now later).1 cs)
lease_exclusive m id h r ttl now later l cs id' h' ttl' now' later' g f differ live =
    let (stored, mine) = granted-lookup m id h r ttl now later l g in
    let still = run-foreign (acquire m id h r ttl now later).1 cs r l stored f in
    refused (run (acquire m id h r ttl now later).1 cs) id' h' r ttl' now' later' l h still mine
      differ live
