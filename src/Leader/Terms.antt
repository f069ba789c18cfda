-- ===== src/Leader/Terms.antt =====
-- What a term says of its leader.
use tempest.Base.{
  ℕ, suc, ◌+◌, ◌-◌, ◌^◌, ◌≤◌, ◌<◌, String, ◌≡◌, refl, sym, ap, ◌∙◌, subst, ◌≢◌, ◌⊎◌, inl, inr, true,
  false, not, ◌&&◌, ◌||◌, none, some, List, [], ◌∷◌, arith, if◌then◌else◌, Bool-cases, length,
  int_eq, u64, ◌=?◌, string_eq, nat_eq, =?_eq,
}
use native.Mathlib.Nat.{mod-eq_of_lt}
use mathlib.Core.List.{Memᴰ}
use tempest.Leader.{
  Record, new_in_mem_coordinator, is_after, is_before, try_acquire_or_renew, release,
}

pub data Call : Type 0 where
  acquires : String → ℕ → ℕ → Call
  releases : String → Call

unfoldable pub after : Record → Call → Record
unfolding try_acquire_or_renew release
after r (acquires id ttl now) = (try_acquire_or_renew r id ttl now).1
after r (releases id) = release r id

-- A leader and the term that it was granted, added to the ones before.
unfoldable pub noted : Record → Call → List (String × ℕ) → List (String × ℕ)
unfolding try_acquire_or_renew
noted r (acquires id ttl now) old =
    let (rec, acquired) = (try_acquire_or_renew r id ttl now).0 in
    if acquired then (id, rec.term) ∷ old else old
noted r (releases id) old = old

-- All that were granted, the last one first.
unfoldable pub granted : Record → List Call → List (String × ℕ) → List (String × ℕ)
unfolding after noted
granted r [] old = old
granted r (c ∷ cs) old = granted (after r c) cs (noted r c old)

-- What was granted is of an earlier term, or of the present one and then the leader's own, unless
-- the lease was released.
abbrev IsPast : Record → String → ℕ → Type 0
IsPast r a t = (t < r.term) ⊎ ((t ≡ r.term) × ((a ≡ r.leader_id) ⊎ (r.expires_at ≡ none)))

record Fair (r : Record) (calls : ℕ) (old : List (String × ℕ)) : Type 0 where
  pub few : r.term ≤ calls
  pub past : (a : String) (t : ℕ) → Memᴰ (a, t) old → IsPast r a t
  pub agree : (a b : String) (t : ℕ) → Memᴰ (a, t) old → Memᴰ (b, t) old → a ≡ b

-- The ways a call for the lease can go: refused, renewed in the same term, or granted in a new one.
data Way (r : Record) (id : String) (ttl now : ℕ) : Type 0 where
  stays : try_acquire_or_renew r id ttl now ≡ ((r, false), r) → Way r id ttl now
  renews :
      (r' : Record)
      → try_acquire_or_renew r id ttl now ≡ ((r', true), r')
      → r'.term ≡ r.term
      → r'.leader_id ≡ id
      → r.leader_id ≡ id
      → r.expires_at ≢ none
      → Way r id ttl now
  takes :
      (r' : Record)
      → try_acquire_or_renew r id ttl now ≡ ((r', true), r')
      → r'.term ≡ u64 (r.term + 1)
      → r'.leader_id ≡ id
      → Way r id ttl now

abbrev taken : Record → String → ℕ → ℕ → ℕ → Record
taken r id ttl now term = record { leader_id = id; term = term; expires_at = some (now + ttl) }

ways : (r : Record) (id : String) (ttl now : ℕ) → Way r id ttl now
unfolding try_acquire_or_renew
ways r id ttl now =
    elim (Bool-cases
      (not (r.leader_id =? "") && not (r.leader_id =? id) && is_before now r.expires_at)) [
        | inl held ↦ stays (simp held)
        | inr free ↦ elim (Bool-cases (not (r.leader_id =? id) || is_after now r.expires_at)) [
          | inl new_term ↦
              takes (taken r id ttl now (u64 (r.term + 1))) (simp (free, new_term)) refl refl
          | inr same_term ↦
              renews (taken r id ttl now r.term) (simp (free, same_term)) refl refl
                (=?_eq r.leader_id id (ground (arith, same_term)))
                (λ p. ground (arith, same_term, p))
        ]
      ]

too_late : (t u : ℕ) → t ≡ suc u → t ≤ u → ⊥
too_late t u next late = omega arith

not_less : (t u : ℕ) → t ≡ u → t < u → ⊥
not_less t u same less = omega arith

not_later :
    (r : Record) (calls : ℕ) (old : List (String × ℕ)) (a : String) (t : ℕ)
    → Fair r calls old
    → Memᴰ (a, t) old
    → t ≤ r.term
not_later r calls old a t h m = elim (h.past a t m) [
  | inl earlier ↦ omega arith
  | inr (now_on, _) ↦ omega arith
]

more-Fair :
    (r : Record) (calls : ℕ) (old : List (String × ℕ)) → Fair r calls old → Fair r (suc calls) old
more-Fair r calls old h = record {
  few = let few = h.few in omega arith;
  past = h.past;
  agree = h.agree;
}

-- One more grant, of a leader that has all grants of that term.
agree_more :
    (x : String) (u : ℕ) (old : List (String × ℕ))
    → ((b : String) → Memᴰ (b, u) old → b ≡ x)
    → ((a b : String) (t : ℕ) → Memᴰ (a, t) old → Memᴰ (b, t) old → a ≡ b)
    → (a b : String) (t : ℕ) → Memᴰ (a, t) ((x, u) ∷ old)
    → Memᴰ (b, t) ((x, u) ∷ old)
    → a ≡ b
agree_more x u old own agree a b t (Memᴰ.head e) (Memᴰ.head f) =
    ap (λ p. p.0) e ∙ sym (ap (λ p. p.0) f)
agree_more x u old own agree a b t (Memᴰ.head e) (Memᴰ.tail n) =
    ap (λ p. p.0) e ∙ sym (own b (subst (λ v. Memᴰ (b, v) old) (ap (λ p. p.1) e) n))
agree_more x u old own agree a b t (Memᴰ.tail m) (Memᴰ.head f) =
    own a (subst (λ v. Memᴰ (a, v) old) (ap (λ p. p.1) f) m) ∙ sym (ap (λ p. p.0) f)
agree_more x u old own agree a b t (Memᴰ.tail m) (Memᴰ.tail n) = agree a b t m n

takes-Fair :
    (r r' : Record) (calls : ℕ) (old : List (String × ℕ))
    → r'.term ≡ suc r.term
    → Fair r calls old
    → Fair r' (suc calls) ((r'.leader_id, r'.term) ∷ old)
takes-Fair r r' calls old next h = record {
  few = let few = h.few in omega arith;
  past = λ a t m. elim m [
    | Memᴰ.head e ↦ inr (ap (λ p. p.1) e, inl (ap (λ p. p.0) e))
    | Memᴰ.tail m' ↦ let late = not_later r calls old a t h m' in inl (omega arith)
  ];
  agree =
      agree_more r'.leader_id r'.term old
        (λ b m.
          let late = not_later r calls old b r'.term h m in
          absurd (too_late r'.term r.term next late))
        h.agree;
}

renews-Fair :
    (r r' : Record) (calls : ℕ) (old : List (String × ℕ))
    → r'.term ≡ r.term
    → r'.leader_id ≡ r.leader_id
    → r.expires_at ≢ none
    → Fair r calls old
    → Fair r' (suc calls) ((r'.leader_id, r'.term) ∷ old)
renews-Fair r r' calls old same own held h = record {
  few = let few = h.few in omega arith;
  past = λ a t m. elim m [
    | Memᴰ.head e ↦ inr (ap (λ p. p.1) e, inl (ap (λ p. p.0) e))
    | Memᴰ.tail m' ↦ elim (h.past a t m') [
      | inl earlier ↦ inl (omega arith)
      | inr (now_on, inl mine) ↦ inr (now_on ∙ sym same, inl (mine ∙ sym own))
      | inr (now_on, inr free) ↦ absurd (held free)
    ]
  ];
  agree =
      agree_more r'.leader_id r'.term old
        (λ b m. elim (h.past b r'.term m) [
          | inl earlier ↦ absurd (not_less r'.term r.term same earlier)
          | inr (now_on, inl mine) ↦ mine ∙ sym own
          | inr (now_on, inr free) ↦ absurd (held free)
        ])
        h.agree;
}

releases-Fair :
    (r : Record) (calls : ℕ) (old : List (String × ℕ))
    → Fair r calls old
    → Fair (record r { leader_id = ""; expires_at = none }) (suc calls) old
releases-Fair r calls old h = record {
  few = let few = h.few in omega arith;
  past = λ a t m. elim (h.past a t m) [
    | inl earlier ↦ inl earlier
    | inr (now_on, _) ↦ inr (now_on, inr refl)
  ];
  agree = h.agree;
}

after-Fair :
    (r : Record) (c : Call) (calls : ℕ) (old : List (String × ℕ))
    → calls < 2 ^ 64 - 1
    → Fair r calls old
    → Fair (after r c) (suc calls) (noted r c old)
unfolding after noted release
after-Fair r (releases id) calls old bound h = elim (Bool-cases (r.leader_id =? id)) [
  | inl held ↦ simp held (releases-Fair r calls old h)
  | inr other ↦ simp other (more-Fair r calls old h)
]
after-Fair r (acquires id ttl now) calls old bound h = elim (ways r id ttl now) [
  | stays way ↦ rw (after, noted, way) (more-Fair r calls old h)
  | renews r' way term own before held ↦
      rw (after, noted, way)
        (subst (λ i. Fair r' (suc calls) ((i, r'.term) ∷ old)) own
          (renews-Fair r r' calls old term (own ∙ sym before) held h))
  | takes r' way term own ↦
      let few = h.few in
      let small : r.term + 1 < 2 ^ 64 = omega arith in
      let next : r'.term ≡ suc r.term = term ∙ mod-eq_of_lt small ∙ omega arith in
      rw (after, noted, way)
        (subst (λ i. Fair r' (suc calls) ((i, r'.term) ∷ old)) own
          (takes-Fair r r' calls old next h))
]

granted-Fair :
    (r : Record) (cs : List Call) (calls : ℕ) (old : List (String × ℕ))
    → calls + length cs < 2 ^ 64
    → Fair r calls old
    → (r' : Record) × Fair r' (calls + length cs) (granted r cs old)
unfolding granted
granted-Fair r [] calls old bound h = (r, subst (λ n. Fair r n old) (omega arith) h)
granted-Fair r (c ∷ cs) calls old bound h =
    let (r', end) =
      granted-Fair (after r c) cs (suc calls) (noted r c old) (omega arith)
        (after-Fair r c calls old (omega arith) h) in
    (r', subst (λ n. Fair r' n (granted (after r c) cs (noted r c old))) (omega arith) end)

-- However candidates call for the lease and release it, fewer than 2 ^ 64 times and at whatever
-- times, no term is granted to two of them.
pub term_has_one_leader :
    (cs : List Call) (a b : String) (t : ℕ)
    → length cs < 2 ^ 64
    → Memᴰ (a, t) (granted new_in_mem_coordinator cs [])
    → Memᴰ (b, t) (granted new_in_mem_coordinator cs [])
    → a ≡ b
unfolding new_in_mem_coordinator
term_has_one_leader cs a b t bound first second =
    let (r', end) = granted-Fair new_in_mem_coordinator cs 0 [] (omega arith) (record {
      few = omega arith;
      past = λ a' t' m. elim m [ ];
      agree = λ a' b' t' m n. elim m [ ];
    }) in
    end.agree a b t first second
