-- ===== src/Barrier/Release.antt =====
-- When the parties of a generation are released.
use tempest.Base.{
  ℕ, zero, suc, ◌+◌, ◌-◌, ◌^◌, ◌<◌, ◌≡◌, refl, ◌∙◌, subst, ◌⊎◌, inl, inr, true, false, not, ◌&&◌,
  Option, none, some, List, [], ◌∷◌, arith, leb, ◌==◌, Bool-cases, length, ℤ, pos, negsuc, int_eq,
  u64, string_eq, nat_eq,
}
use native.Mathlib.Nat.{mod-eq_of_lt}
use tempest.Barrier.{Error, Barrier, new, wake, break_locked, cancel, reset}
use tempest.Barrier.Calls.{
  Call, arrives, cancels, breaks, after, run, joined, arrive-refused, arrive-last, arrive-waits,
  arrive_ways, run-threshold,
}
use tempest.Barrier.Count.{IsCounted, run-IsCounted}

-- A barrier that is broken keeps an error for those who find it so.
abbrev IsMarked : Barrier → Type 0
IsMarked b = (b.broken && (elim b.broken_err [ none ↦ true | some e ↦ false ])) ≡ false

break_locked-IsMarked : (b : Barrier) (e : Option Error) → IsMarked b → IsMarked (break_locked b e)
unfolding break_locked
break_locked-IsMarked b e h = elim (Bool-cases b.broken) [
  | inl already ↦ let same : break_locked b e ≡ b = rw already refl in rw same h
  | inr whole ↦ rw whole refl
]

after-IsMarked : (b : Barrier) (c : Call) → IsMarked b → IsMarked (after b c)
unfolding after cancel
after-IsMarked b (cancels gen err) h = elim (Bool-cases ((gen == b.generation) && not b.broken)) [
  | inl present ↦ rw present (break_locked-IsMarked b (some err) h)
  | inr past ↦ rw past h
]
after-IsMarked b (breaks err) h = break_locked-IsMarked b err h
after-IsMarked b (arrives party now) h = elim (arrive_ways b party) [
  | inl stays ↦ let (e, same) = arrive-refused b party now stays in rw (after, same) h
  | inr (whole, new_one) ↦ elim (Bool-cases (leb b.threshold (suc (length b.arrived)))) [
    | inl trips ↦ rw (after, arrive-last b party now whole new_one trips) h
    | inr more ↦ rw (after, arrive-waits b party now whole new_one more) h
  ]
]

run-IsMarked : (b : Barrier) (cs : List Call) → IsMarked b → IsMarked (run b cs)
unfolding run
run-IsMarked b [] h = h
run-IsMarked b (c ∷ cs) h = run-IsMarked (after b c) cs (after-IsMarked b c h)

wake-free :
    (b : Barrier) (gen : ℕ) → IsMarked b → wake b gen ≡ some none → (gen == b.generation) ≡ false
unfolding wake
wake-free b gen marked free = ground (arith, marked, free)

abbrev IsStart : Barrier → Type 0
IsStart b = IsMarked b × IsCounted b 0 (λ g. 0) × (0 < b.threshold)

abbrev IsFresh : Error ⊎ Barrier → Type 0
IsFresh (inl e) = e ≡ e
IsFresh (inr b) = IsStart b

new-IsFresh : (threshold : ℤ) → IsFresh (new threshold)
unfolding new
new-IsFresh (pos zero) = refl
new-IsFresh (negsuc n) = refl
new-IsFresh (pos (suc n)) = (
  refl,
  record {
    few = omega arith;
    short = omega arith;
    present = refl;
    full = λ g under. omega arith;
    later = λ g over. refl;
  },
  omega arith,
)

-- After any arrivals, cancellations and breaks of a new barrier, fewer than 2 ^ 64: when a party that
-- was let into a generation stops waiting without an error, as many parties were let into that
-- generation as the threshold says.
pub released_together :
    (threshold : ℤ) (b : Barrier) (cs : List Call) (gen : ℕ)
    → new threshold ≡ inr b
    → length cs < 2 ^ 64
    → 0 < joined b cs gen
    → wake (run b cs) gen ≡ some none
    → (joined b cs gen ≡ b.threshold) × (0 < b.threshold)
released_together threshold b cs gen made bound inside free =
    let (marked, counted, some_room) : IsStart b = subst IsFresh made (new-IsFresh threshold) in
    let end = run b cs in
    let still = run-IsMarked b cs marked in
    let known = run-IsCounted b cs 0 (λ g. 0) (omega arith) counted in
    let not_now : (gen == end.generation) ≡ false = wake-free end gen still free in
    let past : gen < end.generation = ground (arith, not_now, known.later gen, inside) in
    (omega arith ∙ known.full gen past ∙ run-threshold b cs, some_room)

-- A party that waits in the present generation of a barrier that is then broken gets the error of
-- the break if it looks before the barrier is reset, and none if it looks after, as if all had come,
-- however few they were.
pub reset_hides_break :
    (b : Barrier) (e : Error)
    → b.broken ≡ false
    → b.generation < 2 ^ 64 - 1
    → (wake (break_locked b (some e)) b.generation ≡ some (some e))
      × (wake (reset (break_locked b (some e))) b.generation ≡ some none)
unfolding wake reset break_locked
reset_hides_break b e whole bound =
    let gone : (b.generation == u64 (b.generation + 1)) ≡ false =
      let small : b.generation + 1 < 2 ^ 64 = omega arith in
      rw (mod-eq_of_lt small) (ground arith) in
    (ground (arith, whole), simp (whole, gone))
