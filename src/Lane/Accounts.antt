-- ===== src/Lane/Accounts.antt =====
-- The scheduler's count of tasks against the lanes' queues.
use tempest.Base.{
  ◌≢◌, true, Option, ◌==◌, if◌then◌else◌, ◌-◌, refl, ℕ, zero, suc, ◌+◌, ◌≡◌, sym, ap, ◌∙◌, subst,
  ◌⊎◌, inl, inr, none, some, List, [], ◌∷◌, ◌++◌, arith, leb, Bool-cases, Option-cases, length,
  get_elem?, set, length-append, u64, string_eq, nat_eq,
}
use tempest.Lane.{Task, Lane, Error, enqueue, admitted}
use tempest.Lane.Drr.{
  DrrScheduler, find_lane, new_scheduler, place, count_task, counted, submit, schedule_next,
  schedule_round,
}
use tempest.Lane.Dispatch.{queues, queues-set, queues-get, schedule_next-Outcome}

unfoldable pub backlog : List (List Task) → ℕ
backlog [] = 0
backlog (ts ∷ q) = length ts + backlog q

backlog-set :
    (q : List (List Task)) (i : ℕ) (ts us : List Task)
    → get_elem? q i ≡ some ts
    → backlog (set q i us) + length ts ≡ backlog q + length us
unfolding backlog
backlog-set [] i ts us h = ground (arith, h)
backlog-set (x ∷ q) zero ts us h =
    let same : length x ≡ length ts = ground (arith, h) in omega (arith, same)
backlog-set (x ∷ q) (suc i) ts us h = omega (arith, backlog-set q i ts us h)

-- The lane with a task put at its end.
abbrev pub longer : Lane → Task → ℕ → Lane
longer l task now = record l {
  tasks = l.tasks ++ admitted l task now ∷ [];
  enqueued_count = u64 (l.enqueued_count + 1);
}

place-cases :
    (s : DrrScheduler) (task : Task) (now : ℕ)
    → ((e : Error) × (place s task now ≡ (some e, s)))
      ⊎ ((i : ℕ) × (l : Lane) × (get_elem? s.lanes i ≡ some l)
          × (place s task now ≡ (none, record s { lanes = set s.lanes i (longer l task now) })))
unfolding place enqueue
place-cases s task now = elim (Option-cases (find_lane s.lanes task.lane_id)) [
  | inl out ↦ inl (Error.lane_not_found, ground (arith, out))
  | inr (i, at) ↦ elim (Option-cases (get_elem? s.lanes i)) [
    | inl out ↦ inl (Error.lane_not_found, ground (arith, at, out))
    | inr (l, found) ↦ elim (Bool-cases (leb l.max_capacity (length l.tasks))) [
      | inl full ↦ inl (Error.lane_full, ground (arith, at, found, full))
      | inr room ↦ inr (i, l, found, ground (arith, at, found, room))
    ]
  ]
]

place-backlog :
    (s : DrrScheduler) (task : Task) (now : ℕ)
    → ((e : Error) × (place s task now ≡ (some e, s)))
      ⊎ ((s' : DrrScheduler) × (place s task now ≡ (none, s'))
          × (s'.total_tasks ≡ s.total_tasks)
          × (backlog (queues s'.lanes) ≡ backlog (queues s.lanes) + 1))
place-backlog s task now = elim (place-cases s task now) [
  | inl refused ↦ inl refused
  | inr (i, l, found, e) ↦
      let grown : backlog (queues (set s.lanes i (longer l task now))) + length l.tasks
          ≡ backlog (queues s.lanes) + length (l.tasks ++ admitted l task now ∷ []) =
        ap (λ q. backlog q + length l.tasks) (queues-set s.lanes i (longer l task now))
        ∙ backlog-set (queues s.lanes) i l.tasks (l.tasks ++ admitted l task now ∷ [])
            (queues-get s.lanes i l found) in
      let one : backlog (queues (set s.lanes i (longer l task now)))
          ≡ backlog (queues s.lanes) + 1 =
        omega (arith, grown, length-append l.tasks (admitted l task now ∷ [])) in
      inr (record s { lanes = set s.lanes i (longer l task now) }, e, refl, one)
]

-- A call in one go, or one part of a call of `Enqueue`.
pub data Call : Type 0 where
  submits : Task → ℕ → Call
  places : Task → ℕ → Call
  counts : Call
  schedules : List ℕ → Call

-- The scheduler, and how many calls of `Enqueue` have put their task into a lane, but have yet to
-- count it.
pub record Shared : Type 0 where
  pub scheduler : DrrScheduler
  pub uncounted : ℕ

abbrev pub started : DrrScheduler → Shared
started s = record { scheduler = s; uncounted = 0 }

abbrev placed : Shared → Option Error × DrrScheduler → Shared
placed w (some e, s') = record w { scheduler = s' }
placed w (none, s') = record { scheduler = s'; uncounted = w.uncounted + 1 }

unfoldable pub step : Shared → Call → Shared
step w (submits task now) = record w { scheduler = (submit w.scheduler task now).1 }
step w (places task now) = placed w (place w.scheduler task now)
step w counts =
    if w.uncounted == 0
    then w
    else record { scheduler = count_task w.scheduler; uncounted = w.uncounted - 1 }
step w (schedules times) = record w { scheduler = (schedule_next w.scheduler times).1 }

unfoldable pub run : Shared → List Call → Shared
unfolding step
run w [] = w
run w (c ∷ cs) = run (step w c) cs

abbrev pub IsBalanced : Shared → Type 0
IsBalanced w = w.scheduler.total_tasks + w.uncounted ≡ backlog (queues w.scheduler.lanes)

submit-refused :
    (s s' : DrrScheduler) (task : Task) (now : ℕ) (e : Error)
    → place s task now ≡ (some e, s')
    → submit s task now ≡ (some e, s')
unfolding submit
submit-refused s s' task now e h = ap counted h

submit-placed :
    (s s' : DrrScheduler) (task : Task) (now : ℕ)
    → place s task now ≡ (none, s')
    → submit s task now ≡ (none, count_task s')
unfolding submit
submit-placed s s' task now h = ap counted h

idle-round : (s : DrrScheduler) (now : ℕ) → s.total_tasks ≡ 0 → schedule_round s now ≡ (none, s)
unfolding schedule_round
idle-round s now h = let idle : (s.total_tasks == 0) ≡ true = ground (arith, h) in rw idle refl

-- Where nothing is counted, nothing is taken.
idle-schedule :
    (s : DrrScheduler) (times : List ℕ) → s.total_tasks ≡ 0 → (schedule_next s times).0 ≡ none
unfolding schedule_next
idle-schedule s [] h = refl
idle-schedule s (now ∷ later) h =
    let idle = idle-round s now h in
    let missed : (schedule_round s now).0 ≡ none = ap (λ r. r.0) idle in
    let on : schedule_next s (now ∷ later) ≡ schedule_next (schedule_round s now).1 later =
      rw (missed, schedule_next) refl in
    ap (λ r. r.0) on ∙ ap (λ r. (schedule_next r.1 later).0) idle ∙ idle-schedule s later h

step-IsBalanced : (w : Shared) (c : Call) → IsBalanced w → IsBalanced (step w c)
unfolding step
step-IsBalanced w (submits task now) v = elim (place-backlog w.scheduler task now) [
  | inl (e, same) ↦
      subst (λ r. IsBalanced (record w { scheduler = r.1 }))
        (sym (submit-refused w.scheduler w.scheduler task now e same)) v
  | inr (s', e, kept, more) ↦
      let one : IsBalanced (record w { scheduler = count_task s' }) =
        omega (arith, kept, more, v) in
      subst (λ r. IsBalanced (record w { scheduler = r.1 }))
        (sym (submit-placed w.scheduler s' task now e)) one
]
step-IsBalanced w (places task now) v = elim (place-backlog w.scheduler task now) [
  | inl (e, same) ↦ subst (λ r. IsBalanced (placed w r)) (sym same) v
  | inr (s', e, kept, more) ↦
      let one : IsBalanced (placed w (none, s')) = omega (arith, kept, more, v) in
      subst (λ r. IsBalanced (placed w r)) (sym e) one
]
step-IsBalanced w counts v = elim (Bool-cases (w.uncounted == 0)) [
  | inl done ↦ rw done v
  | inr left ↦ rw left (ground (arith, left, v))
]
step-IsBalanced w (schedules times) v = elim (schedule_next-Outcome w.scheduler times) [
  | inl (e, q, c) ↦ ap (λ n. n + w.uncounted) c ∙ v ∙ ap backlog (sym q)
  | inr (t, e, (i, h, rest, front, taken, mark), c) ↦
      let less = backlog-set (queues w.scheduler.lanes) i (h ∷ rest) rest front in
      let size = ap backlog taken in
      let counted : w.scheduler.total_tasks ≢ 0 =
        λ zero_left. ground (arith, idle-schedule w.scheduler times zero_left, e) in
      omega (arith, less, size, c, v, counted)
]

run-IsBalanced : (w : Shared) (cs : List Call) → IsBalanced w → IsBalanced (run w cs)
unfolding run
run-IsBalanced w [] v = v
run-IsBalanced w (c ∷ cs) v = run-IsBalanced (step w c) cs (step-IsBalanced w c v)

new_scheduler-lanes :
    (ls : List Lane) (s : DrrScheduler)
    → new_scheduler ls ≡ inr s
    → (s.lanes ≡ ls) × (s.total_tasks ≡ 0)
unfolding new_scheduler
new_scheduler-lanes [] s h = ground (arith, h)
new_scheduler-lanes (l ∷ ls) s h = ground (arith, h)

-- The count of a scheduler made of lanes without tasks is, after any submissions, refused ones
-- too, and any schedulings, exactly the number of tasks that are queued in its lanes; where they
-- come between the two parts of other submissions, it is that number less the submissions whose
-- task is in its lane already and yet to be counted.
pub total-backlog :
    (ls : List Lane) (s : DrrScheduler) (cs : List Call)
    → new_scheduler ls ≡ inr s
    → backlog (queues ls) ≡ 0
    → (run (started s) cs).scheduler.total_tasks + (run (started s) cs).uncounted
      ≡ backlog (queues (run (started s) cs).scheduler.lanes)
total-backlog ls s cs made empty =
    let (same, none_yet) = new_scheduler-lanes ls s made in
    run-IsBalanced (started s) cs
      (ap (λ n. n + 0) none_yet ∙ sym (ap (λ x. backlog (queues x)) same ∙ empty))
