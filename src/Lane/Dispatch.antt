-- ===== src/Lane/Dispatch.antt =====
-- What the round robin takes from the queues.
use tempest.Base.{
  ℤ, pos, ℕ, zero, suc, ◌+◌, ◌-◌, ◌*◌, ◌≡◌, refl, sym, ap, ◌∙◌, subst, ◌⊎◌, inl, inr, true, ◌&&◌,
  Option, none, some, List, [], ◌∷◌, arith, ltb, ◌==◌, Bool-cases, Option-cases, length, get_elem?,
  set, List-cases, u64, string_eq, nat_eq,
}
use mathlib.Core.Option
use mathlib.Core.Option.{some_inj}
use tempest.Lane.{Task, Lane, dequeue, len, is_starving}
use tempest.Lane.Drr.{
  DrrScheduler, covers, sub_int, starved, advance, credited, served, attempt, attempts,
  schedule_round, schedule_next,
}

abbrev pub queues : List Lane → List (List Task)
queues [] = []
queues (l ∷ rest) = l.tasks ∷ queues rest

pub queues-set :
    (ls : List Lane) (i : ℕ) (l : Lane) → queues (set ls i l) ≡ set (queues ls) i l.tasks
queues-set [] i l = refl
queues-set (x ∷ ls) zero l = refl
queues-set (x ∷ ls) (suc i) l = ap (λ q. x.tasks ∷ q) (queues-set ls i l)

pub queues-get :
    (ls : List Lane) (i : ℕ) (l : Lane)
    → get_elem? ls i ≡ some l
    → get_elem? (queues ls) i ≡ some l.tasks
queues-get [] i l h = ground (arith, h)
queues-get (x ∷ ls) zero l h = ground (arith, h)
queues-get (x ∷ ls) (suc i) l h = queues-get ls i l h

set_same :
    (q : List (List Task)) (i : ℕ) (ts : List Task) → get_elem? q i ≡ some ts → set q i ts ≡ q
set_same [] i ts h = refl
set_same (x ∷ q) zero ts h = ground (arith, h)
set_same (x ∷ q) (suc i) ts h = ap (λ r. x ∷ r) (set_same q i ts h)

-- The task given is the head of one queue, perhaps marked as boosted, and only that head is taken.
abbrev pub IsHeadTaken : List (List Task) → Task → List (List Task) → Type 0
IsHeadTaken q t q' =
    (i : ℕ) × (h : Task) × (rest : List Task) × (get_elem? q i ≡ some (h ∷ rest))
    × (q' ≡ set q i rest)
    × ((t ≡ h) ⊎ (t ≡ record h { age_boosted = true }))

served-queues :
    (s : DrrScheduler) (l : Lane) (t : Task) (rest : List Task)
    → (queues (served s l t rest).lanes ≡ set (queues s.lanes) s.round_index rest)
      × ((served s l t rest).total_tasks ≡ s.total_tasks - 1)
served-queues s l t [] = (queues-set s.lanes s.round_index _, refl)
served-queues s l t (next ∷ rest) =
    elim (Bool-cases (covers (sub_int (credited s l) t.cost) next.cost)) [
      | inl enough ↦ (rw enough (queues-set s.lanes s.round_index _), rw enough refl)
      | inr short ↦ (rw short (queues-set s.lanes s.round_index _), rw short refl)
    ]

-- An attempt serves no task and leaves the queues alone, or takes one head.
abbrev pub Outcome : DrrScheduler → Option Task × DrrScheduler → Type 0
Outcome s r =
    ((r.0 ≡ none) × (queues r.1.lanes ≡ queues s.lanes) × (r.1.total_tasks ≡ s.total_tasks))
    ⊎ ((t : Task) × (r.0 ≡ some t)
        × IsHeadTaken (queues s.lanes) t (queues r.1.lanes)
        × (r.1.total_tasks ≡ s.total_tasks - 1))

-- The scheduler after an attempt that leaves the deficit of the lane in turn at `d`.
abbrev pub passed : DrrScheduler → Lane → ℤ → DrrScheduler
passed s l d = advance (record s { lanes = set s.lanes s.round_index (record l { deficit = d }) })

attempt-cases :
    (s : DrrScheduler)
    → (attempt s ≡ (none, s))
      ⊎ ((l : Lane) × (get_elem? s.lanes s.round_index ≡ some l)
          × (((d : ℤ) × (attempt s ≡ (none, passed s l d)))
              ⊎ ((t : Task) × (rest : List Task) × (l.tasks ≡ t ∷ rest)
                  × (attempt s ≡ (some t, served s l t rest)))))
unfolding attempt
attempt-cases s = elim (Option-cases (get_elem? s.lanes s.round_index)) [
  | inl out ↦ inl (ground (arith, out))
  | inr (l, found) ↦ inr (
    l,
    found,
    elim (List-cases l.tasks) [
      | inl empty ↦ inl (pos 0, ground (arith, found, empty))
      | inr (t, rest, full) ↦ elim (Bool-cases (covers (credited s l) t.cost)) [
        | inl paid ↦ inr (t, rest, full, ground (arith, found, full, paid))
        | inr short ↦ inl (credited s l, ground (arith, found, full, short))
      ]
    ],
  )
]

attempt-Outcome : (s : DrrScheduler) → Outcome s (attempt s)
attempt-Outcome s = elim (attempt-cases s) [
  | inl same ↦ subst (Outcome s) (sym same) (inl (refl, refl, refl))
  | inr (l, found, case) ↦ elim case [
    | inl (d, e) ↦
        let kept : queues (passed s l d).lanes ≡ queues s.lanes =
          queues-set s.lanes s.round_index (record l { deficit = d })
          ∙ set_same (queues s.lanes) s.round_index l.tasks
              (queues-get s.lanes s.round_index l found) in
        subst (Outcome s) (sym e) (inl (refl, kept, refl))
    | inr (t, rest, full, e) ↦
        let (taken, count) = served-queues s l t rest in
        let front : get_elem? (queues s.lanes) s.round_index ≡ some (t ∷ rest) =
          queues-get s.lanes s.round_index l found ∙ ap some full in
        subst (Outcome s) (sym e)
          (inr (t, refl, (s.round_index, t, rest, front, taken, inl refl), count))
  ]
]

-- An outcome from where nothing was taken is one from before.
earlier :
    (s s' : DrrScheduler) (r : Option Task × DrrScheduler)
    → queues s'.lanes ≡ queues s.lanes
    → s'.total_tasks ≡ s.total_tasks
    → Outcome s' r
    → Outcome s r
earlier s s' r same count (inl (e, q, c)) = inl (e, q ∙ same, c ∙ count)
earlier s s' r same count (inr (t, e, taken, c)) =
    inr
      (t, e, subst (λ q. IsHeadTaken q t (queues r.1.lanes)) same taken, c ∙ ap (λ n. n - 1) count)

attempts-Outcome : (s : DrrScheduler) (n : ℕ) → Outcome s (attempts s n)
unfolding attempts
attempts-Outcome s zero = inl (refl, refl, refl)
attempts-Outcome s (suc n) = elim (attempt-Outcome s) [
  | inl (e, q, c) ↦
      let on : attempts s (suc n) ≡ attempts (attempt s).1 n = rw (e, attempts) refl in
      subst (Outcome s) (sym on)
        (earlier s (attempt s).1 (attempts (attempt s).1 n) q c (attempts-Outcome (attempt s).1 n))
  | inr (t, e, taken, c) ↦
      let stop : attempts s (suc n) ≡ attempt s = rw (e, attempts) refl in
      subst (Outcome s) (sym stop) (inr (t, e, taken, c))
]

-- The lane after `Dequeue` has left it `rest`.
abbrev shorter : Lane → List Task → Lane
shorter l rest = record l { tasks = rest; dequeued_count = u64 (l.dequeued_count + 1) }

starved-cases :
    (l : Lane) (ls : List Lane) (now : ℕ)
    → (starved (l ∷ ls) now ≡ Option.map (λ p. (p.0, l ∷ p.1)) (starved ls now))
      ⊎ ((t : Task) × (rest : List Task) × (l.tasks ≡ t ∷ rest)
          × (starved (l ∷ ls) now ≡ some (record t { age_boosted = true }, shorter l rest ∷ ls)))
unfolding starved dequeue len
starved-cases l ls now = elim (Bool-cases (ltb 0 (len l) && is_starving l now)) [
  | inl hungry ↦ elim (List-cases l.tasks) [
    | inl empty ↦ inl (ground (arith, hungry, empty))
    | inr (t, rest, full) ↦ inr (t, rest, full, ground (arith, hungry, full))
  ]
  | inr calm ↦ inl (ground (arith, calm))
]

starved-IsHeadTaken :
    (ls : List Lane) (now : ℕ) (t : Task) (left : List Lane)
    → starved ls now ≡ some (t, left)
    → IsHeadTaken (queues ls) t (queues left)
unfolding starved
starved-IsHeadTaken [] now t left h = ground (arith, h)
starved-IsHeadTaken (l ∷ ls) now t left h = elim (starved-cases l ls now) [
  | inl on ↦ elim (Option-cases (starved ls now)) [
    | inl fed ↦ absurd (ground (arith, h, on, fed))
    | inr ((u, less), found) ↦
        let e : some (t, left) ≡ some (u, l ∷ less) =
          sym h ∙ on ∙ ap (Option.map (λ p. (p.0, l ∷ p.1))) found in
        let (i, x, rest, front, taken, mark) = starved-IsHeadTaken ls now u less found in
        let queue : queues left ≡ set (queues (l ∷ ls)) (suc i) rest =
          ap queues (ap (λ p. p.1) (some_inj.0 e)) ∙ ap (λ q. l.tasks ∷ q) taken in
        let same : t ≡ u = ap (λ p. p.0) (some_inj.0 e) in
        (
          suc i,
          x,
          rest,
          front,
          queue,
          subst (λ v. (v ≡ x) ⊎ (v ≡ record x { age_boosted = true })) (sym same) mark,
        )
  ]
  | inr (x, rest, full, on) ↦
      let e : some (t, left) ≡ some (record x { age_boosted = true }, shorter l rest ∷ ls) =
        sym h ∙ on in
      (
        0,
        x,
        rest,
        ap some full,
        ap queues (ap (λ p. p.1) (some_inj.0 e)),
        inr (ap (λ p. p.0) (some_inj.0 e)),
      )
]

pub round-Outcome : (s : DrrScheduler) (now : ℕ) → Outcome s (schedule_round s now)
unfolding schedule_round
round-Outcome s now = elim (Bool-cases (s.total_tasks == 0)) [
  | inl idle ↦
      let waits : schedule_round s now ≡ (none, s) = ground (arith, idle) in
      subst (Outcome s) (sym waits) (inl (refl, refl, refl))
  | inr busy ↦ elim (Option-cases (starved s.lanes now)) [
    | inl fed ↦
        let on : schedule_round s now ≡ attempts s (length s.lanes * 2) =
          ground (arith, busy, fed) in
        subst (Outcome s) (sym on) (attempts-Outcome s (length s.lanes * 2))
    | inr ((t, left), found) ↦
        let on : schedule_round s now
            ≡ (some t, record s { lanes = left; total_tasks = s.total_tasks - 1 }) =
          ground (arith, busy, found) in
        subst (Outcome s) (sym on)
          (inr (t, refl, starved-IsHeadTaken s.lanes now t left found, refl))
  ]
]

-- However many rounds `ScheduleNext` makes: either it gives no task, and then no queue and no count
-- has changed; or the task that it gives is the head of some lane's queue, perhaps marked as
-- boosted, exactly that head is taken and all else stays queued in its order, and the count of
-- tasks goes down by one.
pub schedule_next-Outcome : (s : DrrScheduler) (times : List ℕ) → Outcome s (schedule_next s times)
unfolding schedule_next
schedule_next-Outcome s [] = inl (refl, refl, refl)
schedule_next-Outcome s (now ∷ later) = elim (round-Outcome s now) [
  | inl (e, q, c) ↦
      let on : schedule_next s (now ∷ later) ≡ schedule_next (schedule_round s now).1 later =
        rw (e, schedule_next) refl in
      subst (Outcome s) (sym on) (
        earlier s (schedule_round s now).1 (schedule_next (schedule_round s now).1 later) q c
          (schedule_next-Outcome (schedule_round s now).1 later))
  | inr (t, e, taken, c) ↦
      let stop : schedule_next s (now ∷ later) ≡ schedule_round s now =
        rw (e, schedule_next) refl in
      subst (Outcome s) (sym stop) (inr (t, e, taken, c))
]
