-- ===== src/MemStore/Queue/Visibility.antt =====
-- What the loop of `Dequeue` does to the items that it hands out, and to those out of sight.
use tempest.Base.{
  ℕ, ◌+◌, ◌≤◌, ◌<◌, String, ◌≡◌, refl, sym, ap, ◌∙◌, subst, ◌⊎◌, inl, inr, Bool, true, false, none,
  some, List, [], ◌∷◌, ◌++◌, arith, ltb, ltb→lt, Bool-cases, Option-cases, length, ℤ, ◌=?◌,
  string_eq, nat_eq, =?_ne, =?_eq,
}
use tempest.Base.GoMap.{
  lookup, insert, erase, lookup-insert, lookup-erase, lookup-insert_self, lookup-insert_ne,
}
use tempest.Types.Events.{QueueItem}
use tempest.MemStore.Keys.{queue_key}
use tempest.MemStore.Queue.{QueueLease, is_reached, lease_time, leased, dequeue_from}
use mathlib.Core.Option.{some_inj}
use mathlib.Core.List.{Memᴰ}
use mathlib.Core.List.Memᴰ

abbrev pub Items : Type 0
Items = List (String × QueueItem)

abbrev pub key_of : QueueItem → String
key_of item = queue_key item.namespace item.run_id item.step_id

-- Every item stands under its own key.
abbrev pub IsKeyed : Items → Type 0
IsKeyed q = (k : String) (item : QueueItem) → lookup q k ≡ some item → key_of item ≡ k

abbrev lease_of : QueueItem → ℕ → String → QueueLease
lease_of item now token = record { item = leased item now; token = token }

module _ (fresh : ℕ → String) (mine : QueueItem → Bool) (limit : ℤ) (now : ℕ) where
  abbrev loop : List String → Items → List QueueLease → List QueueLease × Items
  loop = dequeue_from fresh mine limit now

  -- One round of the loop passes over the key, or leases its item.
  loop-cases :
      (k : String) (rest : List String) (q : Items) (out : List QueueLease)
      → (loop (k ∷ rest) q out ≡ loop rest q out)
        ⊎ ((item : QueueItem) × (lookup q k ≡ some item)
            × (mine item ≡ true)
            × (item.visible_at < now)
            × ((loop (k ∷ rest) q out ≡ (
              out ++ lease_of item now (fresh (length out)) ∷ [],
              insert q k (leased item now),
            ))
                ⊎ (loop (k ∷ rest) q out
                    ≡ loop rest
                        (insert q k (leased item now))
                        (out ++ lease_of item now (fresh (length out)) ∷ []))))
  unfolding dequeue_from
  loop-cases k rest q out = elim (Option-cases (lookup q k)) [
    | inl miss ↦ inl (ground (arith, miss))
    | inr (item, found) ↦ elim (Bool-cases (mine item)) [
      | inr other ↦ inl (ground (arith, found, other))
      | inl own ↦ elim (Bool-cases (ltb item.visible_at now)) [
        | inr hidden ↦ inl (ground (arith, found, own, hidden))
        | inl seen ↦ inr (
          item,
          found,
          own,
          ltb→lt item.visible_at now seen,
          elim (Bool-cases
              (is_reached limit (length (out ++ lease_of item now (fresh (length out)) ∷ [])))) [
                | inl stop ↦ inl (ground (arith, found, own, seen, stop))
                | inr on ↦ inr (ground (arith, found, own, seen, on))
              ],
        )
      ]
    ]
  ]

  -- What each leasing keeps, the whole loop keeps.
  loop-keeps :
      (P : Items → List QueueLease → Type 0)
      → ((k : String) (item : QueueItem) (q : Items) (out : List QueueLease) (token : String)
          → P q out
          → lookup q k ≡ some item
          → item.visible_at < now
          → P (insert q k (leased item now)) (out ++ lease_of item now token ∷ []))
      → (order : List String) (q : Items) (out : List QueueLease) → P q out
      → P (loop order q out).1 (loop order q out).0
  unfolding dequeue_from
  loop-keeps P one [] q out p = p
  loop-keeps P one (k ∷ rest) q out p = elim (loop-cases k rest q out) [
    | inl same ↦ subst (λ r. P r.1 r.0) (sym same) (loop-keeps P one rest q out p)
    | inr (item, found, own, seen, case) ↦
        let p' = one k item q out (fresh (length out)) p found seen in
        elim case [
          | inl stop ↦ subst (λ r. P r.1 r.0) (sym stop) p'
          | inr on ↦ subst (λ r. P r.1 r.0) (sym on) (loop-keeps P one rest _ _ p')
        ]
  ]

pub insert-IsKeyed :
    (q : Items) (k : String) (item : QueueItem)
    → IsKeyed q
    → key_of item ≡ k
    → IsKeyed (insert q k item)
insert-IsKeyed q k item v e j other h = elim (Bool-cases (k =? j)) [
  | inl same ↦
      let it : some item ≡ some other = sym (lookup-insert q k j item ∙ rw same refl) ∙ h in
      ap key_of (sym (some_inj.0 it)) ∙ e ∙ =?_eq k j same
  | inr apart ↦ v j other (sym (lookup-insert_ne q k j item apart) ∙ h)
]

pub erase-IsKeyed : (q : Items) (k : String) → IsKeyed q → IsKeyed (erase q k)
erase-IsKeyed q k v j other h = elim (Bool-cases (k =? j)) [
  | inl same ↦
      let gone : none ≡ some other = sym (lookup-erase q k j ∙ rw same refl) ∙ h in
      absurd (ground (arith, gone))
  | inr apart ↦ v j other (sym (lookup-erase q k j ∙ rw apart refl) ∙ h)
]

-- A visible item does not stand where an item is that is not visible yet.
apart_keys :
    (q : Items) (k j : String) (item other : QueueItem) (now : ℕ)
    → lookup q k ≡ some item
    → lookup q j ≡ some other
    → item.visible_at < now
    → now ≤ other.visible_at
    → (k =? j) ≡ false
apart_keys q k j item other now h g seen hidden = =?_ne k j (λ e.
    let same : item ≡ other = some_inj.0 (sym h ∙ ap (lookup q) e ∙ g) in
    let bound : other.visible_at < now = subst (λ (x : QueueItem). x.visible_at < now) same seen in
    omega (arith, bound, hidden))

module _ (fresh : ℕ → String) (mine : QueueItem → Bool) (limit : ℤ) (now : ℕ) where
  abbrev pub taken : List String → Items → List QueueLease × Items
  taken order q = dequeue_from fresh mine limit now order q []

  pub taken-IsKeyed : (order : List String) (q : Items) → IsKeyed q → IsKeyed (taken order q).1
  taken-IsKeyed order q v =
      loop-keeps fresh mine limit now (λ q out. IsKeyed q)
        (λ k item q out token v found seen. insert-IsKeyed q k (leased item now) v (v k item found))
        order q [] v

  -- An item that is not visible is left as it is, and nobody gets it.
  pub taken-hidden :
      (order : List String) (q : Items) (j : String) (other : QueueItem)
      → IsKeyed q
      → lookup q j ≡ some other
      → now ≤ other.visible_at
      → (lookup (taken order q).1 j ≡ some other)
        × ((l : QueueLease) → Memᴰ l (taken order q).0 → (key_of l.item =? j) ≡ false)
  taken-hidden order q j other v h hidden =
      let kept =
        loop-keeps fresh mine limit now
          (λ q out.
            IsKeyed q
            × (lookup q j ≡ some other)
            × ((l : QueueLease) → Memᴰ l out → (key_of l.item =? j) ≡ false))
          (λ k item q out token (v, h, no_lease) found seen.
            let apart = apart_keys q k j item other now found h seen hidden in
            (
              insert-IsKeyed q k (leased item now) v (v k item found),
              lookup-insert_ne q k j (leased item now) apart ∙ h,
              λ l m. elim (Memᴰ.append_cases out m) [
                | inl old ↦ no_lease l old
                | inr last ↦
                    ap (λ (x : QueueLease). key_of x.item =? j) (Memᴰ.eq_of_singleton last)
                    ∙ ap (λ x. x =? j) (v k item found)
                    ∙ apart
              ],
            ))
          order q [] (v, h, λ l m. absurd (Memᴰ.not-nil m)) in
      (kept.1, kept.2)

  -- What was dequeued stands in the queue as it was handed out, out of sight for the lease time.
  pub taken-leased :
      (order : List String) (q : Items)
      → IsKeyed q
      → (l : QueueLease) → Memᴰ l (taken order q).0
      → (lookup (taken order q).1 (key_of l.item) ≡ some l.item)
        × (l.item.visible_at ≡ now + lease_time)
  taken-leased order q v =
      let kept =
        loop-keeps fresh mine limit now
          (λ q out.
            IsKeyed q
            × ((l : QueueLease)
                → Memᴰ l out
                → (lookup q (key_of l.item) ≡ some l.item)
                  × (l.item.visible_at ≡ now + lease_time)))
          (λ k item q out token (v, leases) found seen. (
            insert-IsKeyed q k (leased item now) v (v k item found),
            λ l m. elim (Memᴰ.append_cases out m) [
              | inl old ↦
                  let (there, until) = leases l old in
                  let apart =
                    apart_keys q k (key_of l.item) item l.item now found there seen
                      (omega (arith, until)) in
                  (lookup-insert_ne q k (key_of l.item) (leased item now) apart ∙ there, until)
              | inr last ↦
                  subst
                    (λ (x : QueueLease).
                      (lookup (insert q k (leased item now)) (key_of x.item) ≡ some x.item)
                      × (x.item.visible_at ≡ now + lease_time))
                    (sym (Memᴰ.eq_of_singleton last))
                    (
                      ap (lookup (insert q k (leased item now))) (v k item found)
                          ∙ lookup-insert_self q k (leased item now),
                      refl,
                    )
            ],
          ))
          order q [] (v, λ l m. absurd (Memᴰ.not-nil m)) in
      kept.1
