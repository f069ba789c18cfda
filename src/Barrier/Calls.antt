-- ===== src/Barrier/Calls.antt =====
-- What is called on a barrier between the waits, and the ways an arrival can go.
use tempest.Base.{
  ℕ, suc, ◌+◌, String, ◌≡◌, refl, ap, ◌∙◌, ◌⊎◌, inl, inr, Bool, true, false, not, ◌&&◌, Option,
  none, some, List, [], ◌∷◌, arith, leb, ◌==◌, if◌then◌else◌, Bool-cases, Option-cases, length,
  int_eq, u64, ◌=?◌, string_eq, nat_eq,
}
use tempest.Base.GoMap.{lookup, insert}
use tempest.Barrier.{
  Error, already_arrived, Barrier, Arrival, refused, last, waits, arrive, break_locked, cancel,
}

-- What is called between the waits, but for `Reset`.
pub data Call : Type 0 where
  arrives : String → ℕ → Call
  cancels : ℕ → Error → Call
  breaks : Option Error → Call

unfoldable pub after : Barrier → Call → Barrier
unfolding arrive cancel break_locked
after b (arrives party now) = (arrive b party now).1
after b (cancels gen err) = cancel b gen err
after b (breaks err) = break_locked b err

unfoldable pub run : Barrier → List Call → Barrier
unfolding after
run b [] = b
run b (c ∷ cs) = run (after b c) cs

abbrev pub is_refused : Arrival → Bool
is_refused (refused e) = true
is_refused _ = false

-- Whether a call lets a party into that generation.
unfoldable pub joins : Barrier → Call → ℕ → Bool
unfolding arrive
joins b (arrives party now) gen = not (is_refused (arrive b party now).0) && (b.generation == gen)
joins b _ gen = false

-- How many parties the calls let into that generation.
unfoldable pub joined : Barrier → List Call → ℕ → ℕ
unfolding joins after
joined b [] gen = 0
joined b (c ∷ cs) gen =
    let rest = joined (after b c) cs gen in if joins b c gen then suc rest else rest

pub length-insert :
    (m : List (String × ℕ)) (k : String) (v : ℕ)
    → lookup m k ≡ none
    → length (insert m k v) ≡ suc (length m)
unfolding lookup insert
length-insert [] k v h = refl
length-insert ((j, w) ∷ m) k v h = elim (Bool-cases (j =? k)) [
  | inl same ↦ ground (arith, same, h)
  | inr other ↦ rw other (ap suc (length-insert m k v (ground (arith, other, h))))
]

pub arrive-refused :
    (b : Barrier) (party : String) (now : ℕ)
    → (b.broken ≡ true) ⊎ ((t : ℕ) × (lookup b.arrived party ≡ some t))
    → (e : Option Error) × (arrive b party now ≡ (refused e, b))
unfolding arrive
arrive-refused b party now (inl already) = (b.broken_err, rw already refl)
arrive-refused b party now (inr (t, there)) = elim (Bool-cases b.broken) [
  | inl already ↦ (b.broken_err, rw already refl)
  | inr whole ↦ (some already_arrived, simp (whole, there))
]

pub arrive-last :
    (b : Barrier) (party : String) (now : ℕ)
    → b.broken ≡ false
    → lookup b.arrived party ≡ none
    → leb b.threshold (suc (length b.arrived)) ≡ true
    → arrive b party now ≡ (last, record b { generation = u64 (b.generation + 1); arrived = [] })
unfolding arrive
arrive-last b party now whole new_one trips =
    simp (whole, new_one, length-insert b.arrived party now new_one, trips)

pub arrive-waits :
    (b : Barrier) (party : String) (now : ℕ)
    → b.broken ≡ false
    → lookup b.arrived party ≡ none
    → leb b.threshold (suc (length b.arrived)) ≡ false
    → arrive b party now ≡ (waits b.generation, record b { arrived = insert b.arrived party now })
unfolding arrive
arrive-waits b party now whole new_one more =
    simp (whole, new_one, length-insert b.arrived party now new_one, more)

-- The ways an arrival can go.
abbrev pub Way : Barrier → String → Type 0
Way b party =
    ((b.broken ≡ true) ⊎ ((t : ℕ) × (lookup b.arrived party ≡ some t)))
    ⊎ ((b.broken ≡ false) × (lookup b.arrived party ≡ none))

pub arrive_ways : (b : Barrier) (party : String) → Way b party
arrive_ways b party = elim (Bool-cases b.broken) [
  | inl already ↦ inl (inl already)
  | inr whole ↦ elim (Option-cases (lookup b.arrived party)) [
    | inr there ↦ inl (inr there)
    | inl new_one ↦ inr (whole, new_one)
  ]
]

after-threshold : (b : Barrier) (c : Call) → (after b c).threshold ≡ b.threshold
unfolding after cancel break_locked
after-threshold b (cancels gen err) = elim (Bool-cases ((gen == b.generation) && not b.broken)) [
  | inl present ↦ elim (Bool-cases b.broken) [
    | inl already ↦ rw (present, already) refl
    | inr whole ↦ rw (present, whole) refl
  ]
  | inr past ↦ rw past refl
]
after-threshold b (breaks err) = elim (Bool-cases b.broken) [
  | inl already ↦ rw already refl
  | inr whole ↦ rw whole refl
]
after-threshold b (arrives party now) = elim (arrive_ways b party) [
  | inl stays ↦ let (e, same) = arrive-refused b party now stays in rw (after, same) refl
  | inr (whole, new_one) ↦ elim (Bool-cases (leb b.threshold (suc (length b.arrived)))) [
    | inl trips ↦ rw (after, arrive-last b party now whole new_one trips) refl
    | inr more ↦ rw (after, arrive-waits b party now whole new_one more) refl
  ]
]

pub run-threshold : (b : Barrier) (cs : List Call) → (run b cs).threshold ≡ b.threshold
unfolding run
run-threshold b [] = refl
run-threshold b (c ∷ cs) = run-threshold (after b c) cs ∙ after-threshold b c
