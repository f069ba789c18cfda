-- ===== src/Barrier/Count.antt =====
-- How many parties were let into each generation.
use tempest.Base.{
  ℕ, suc, ◌+◌, ◌-◌, ◌^◌, ◌≤◌, ◌<◌, ◌≡◌, refl, sym, ◌∙◌, subst, inl, inr, Bool, true, false, not,
  ◌&&◌, List, [], ◌∷◌, arith, leb, leb→le, ◌==◌, if◌then◌else◌, Bool-cases, length, leb→le, int_eq,
  u64, string_eq, nat_eq,
}
use native.Mathlib.Nat.{mod-eq_of_lt}
use tempest.Barrier.{Barrier, break_locked, cancel}
use tempest.Barrier.Calls.{
  Call, arrives, cancels, breaks, after, run, joins, joined, length-insert, arrive-refused,
  arrive-last, arrive-waits, arrive_ways,
}

-- Of `before` calls, `old` have been let into each generation: those that are over have had as many
-- as the threshold, the present one as many as are there.
pub record Counted (threshold here gen before : ℕ) (old : ℕ → ℕ) : Type 0 where
  pub few : gen ≤ before
  pub short : here < threshold
  pub present : old gen ≡ here
  pub full : (g : ℕ) → g < gen → old g ≡ threshold
  pub later : (g : ℕ) → gen < g → old g ≡ 0

abbrev pub IsCounted : Barrier → ℕ → (ℕ → ℕ) → Type 0
IsCounted b before old = Counted b.threshold (length b.arrived) b.generation before old

abbrev one_more : ℕ → (ℕ → ℕ) → ℕ → ℕ
one_more gen old g = if gen == g then suc (old g) else old g

count_none :
    (n here gen before : ℕ) (old : ℕ → ℕ)
    → Counted n here gen before old
    → Counted n here gen (suc before) old
count_none n here gen before old h = record {
  few = let few = h.few in omega arith;
  short = h.short;
  present = h.present;
  full = h.full;
  later = h.later;
}

count_waits :
    (n here gen before : ℕ) (old : ℕ → ℕ)
    → suc here < n
    → Counted n here gen before old
    → Counted n (suc here) gen (suc before) (one_more gen old)
count_waits n here gen before old short h = record {
  few = let few = h.few in omega arith;
  short = short;
  present = ground (arith, h.present);
  full = λ g under. ground (arith, h.full g under, under);
  later = λ g over. ground (arith, h.later g over, over);
}

count_last :
    (n here gen before : ℕ) (old : ℕ → ℕ)
    → n ≤ suc here
    → before < 2 ^ 64 - 1
    → Counted n here gen before old
    → Counted n 0 (u64 (gen + 1)) (suc before) (one_more gen old)
count_last n here gen before old tripped bound h =
    let few = h.few in
    let short = h.short in
    let next : u64 (gen + 1) ≡ suc gen = mod-eq_of_lt (omega arith) ∙ omega arith in
    subst (λ g. Counted n 0 g (suc before) (one_more gen old)) (sym next)
      (record {
        few = omega arith;
        short = omega arith;
        present = ground (arith, h.later (suc gen));
        full = λ g under. ground (arith, h.full g, h.present, under);
        later = λ g over. ground (arith, h.later g, over);
      })

after-IsCounted :
    (b : Barrier) (c : Call) (before : ℕ) (old : ℕ → ℕ)
    → before < 2 ^ 64 - 1
    → IsCounted b before old
    → IsCounted (after b c) (suc before) (λ g. if joins b c g then suc (old g) else old g)
unfolding after joins cancel break_locked
after-IsCounted b (cancels gen err) before old bound h =
    let same = count_none b.threshold (length b.arrived) b.generation before old h in
    elim (Bool-cases ((gen == b.generation) && not b.broken)) [
      | inl present ↦ elim (Bool-cases b.broken) [
        | inl already ↦ rw (present, already) same
        | inr whole ↦ rw (present, whole) same
      ]
      | inr past ↦ rw past same
    ]
after-IsCounted b (breaks err) before old bound h = elim (Bool-cases b.broken) [
  | inl already ↦ rw already (count_none b.threshold (length b.arrived) b.generation before old h)
  | inr whole ↦ rw whole (count_none b.threshold (length b.arrived) b.generation before old h)
]
after-IsCounted b (arrives party now) before old bound h = elim (arrive_ways b party) [
  | inl stays ↦
      let (e, same) = arrive-refused b party now stays in
      rw (after, same) (count_none b.threshold (length b.arrived) b.generation before old h)
  | inr (whole, new_one) ↦ elim (Bool-cases (leb b.threshold (suc (length b.arrived)))) [
    | inl trips ↦
        rw (after, arrive-last b party now whole new_one trips)
          (count_last b.threshold (length b.arrived) b.generation before old
            (leb→le b.threshold (suc (length b.arrived)) trips) bound h)
    | inr more ↦
        rw
          (
            after,
            arrive-waits b party now whole new_one more,
            length-insert b.arrived party now new_one,
          )
          (count_waits b.threshold (length b.arrived) b.generation before old (ground (arith, more))
            h)
  ]
]

count_as :
    (n here gen before before' : ℕ) (old old' : ℕ → ℕ)
    → before ≤ before'
    → ((g : ℕ) → old g ≡ old' g)
    → Counted n here gen before old
    → Counted n here gen before' old'
count_as n here gen before before' old old' longer same h = record {
  few = let few = h.few in omega arith;
  short = h.short;
  present = sym (same gen) ∙ h.present;
  full = λ g under. sym (same g) ∙ h.full g under;
  later = λ g over. sym (same g) ∙ h.later g over;
}

sum_moves : (j : Bool) (a r : ℕ) → (if j then suc a else a) + r ≡ a + (if j then suc r else r)
sum_moves true a r = omega arith
sum_moves false a r = refl

pub run-IsCounted :
    (b : Barrier) (cs : List Call) (before : ℕ) (old : ℕ → ℕ)
    → before + length cs < 2 ^ 64
    → IsCounted b before old
    → IsCounted (run b cs) (before + length cs) (λ g. old g + joined b cs g)
unfolding run joined
run-IsCounted b [] before old bound h =
    count_as b.threshold (length b.arrived) b.generation before (before + 0) old (λ g. old g + 0)
      (omega arith) (λ g. omega arith) h
run-IsCounted b (c ∷ cs) before old bound h =
    let b' = after b c in
    let old' : ℕ → ℕ = λ g. if joins b c g then suc (old g) else old g in
    let end = run b' cs in
    let rest =
      run-IsCounted b' cs (suc before) old' (omega arith)
        (after-IsCounted b c before old (omega arith) h) in
    count_as end.threshold (length end.arrived) end.generation (suc before + length cs)
      (before + suc (length cs)) (λ g. old' g + joined b' cs g) (λ g. old g + joined b (c ∷ cs) g)
      (omega arith) (λ g. sum_moves (joins b c g) (old g) (joined b' cs g)) rest
