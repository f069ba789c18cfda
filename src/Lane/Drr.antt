-- ===== src/Lane/Drr.antt =====
-- internal/lane/drr_scheduler.go: deficit round robin over lanes. `laneMap` finds the same lanes by
-- their IDs, which `NewDRRScheduler` makes distinct. `Enqueue` lets go of the mutex while it puts
-- the task into the lane, so it has two parts. `ScheduleNext` holds the mutex and is one step; what
-- is put into a lane meanwhile, which takes only the lane's own mutex, counts as put there after.
use mathlib.Core.Option
use tempest.Base.{
  ℤ, pos, negsuc, ◌^◌, ℕ, zero, suc, ◌+◌, ◌-◌, ◌*◌, ◌%◌, String, ◌⊎◌, inl, inr, Bool, true, false,
  ◌&&◌, Option, none, some, List, [], ◌∷◌, ltb, leb, ◌==◌, if◌then◌else◌, length, get_elem?, set,
  u64, ◌=?◌, string_eq, nat_eq,
}
use tempest.Lane.{
  Task, Lane, Error, lane_not_found, no_lanes, duplicate_lane, enqueue, dequeue, len, is_starving,
}

pub record DrrScheduler : Type 0 where
  pub lanes : List Lane
  pub round_index : ℕ
  pub quantum_added : Bool
  pub total_tasks : ℕ

-- The first lane of that ID, and its place.
unfoldable pub find_lane : List Lane → String → Option ℕ
find_lane [] id = none
find_lane (l ∷ rest) id = if l.id =? id then some 0 else Option.map suc (find_lane rest id)

-- The loop of `NewDRRScheduler`; `seen` holds the lanes already in the map.
unfoldable pub has_duplicate : List Lane → List Lane → Bool
unfolding find_lane
has_duplicate seen [] = false
has_duplicate seen (l ∷ rest) =
    let more = has_duplicate (l ∷ seen) rest in
    elim (find_lane seen l.id) [ none ↦ more | some i ↦ true ]

unfoldable pub new_scheduler : List Lane → Error ⊎ DrrScheduler
unfolding has_duplicate
new_scheduler [] = inl no_lanes
new_scheduler (l ∷ rest) =
    if has_duplicate [] (l ∷ rest)
    then inl duplicate_lane
    else inr (record { lanes = l ∷ rest; round_index = 0; quantum_added = false; total_tasks = 0 })

-- `Enqueue` up to where the task is in its lane; the map of the lanes never changes.
unfoldable pub place : DrrScheduler → Task → ℕ → Option Error × DrrScheduler
unfolding find_lane
place s task now = elim (find_lane s.lanes task.lane_id) [
  | none ↦ (some lane_not_found, s)
  | some i ↦ elim (get_elem? s.lanes i) [
    | none ↦ (some lane_not_found, s)
    | some l ↦
        let (result, l') = enqueue l task now in
        elim result [ some e ↦ (some e, s) | none ↦ (none, record s { lanes = set s.lanes i l' }) ]
  ]
]

-- What `Enqueue` does when it has the mutex again.
abbrev pub count_task : DrrScheduler → DrrScheduler
count_task s = record s { total_tasks = s.total_tasks + 1 }

abbrev pub counted : Option Error × DrrScheduler → Option Error × DrrScheduler
counted (some e, s) = (some e, s)
counted (none, s) = (none, count_task s)

-- `Enqueue` where nothing comes between.
unfoldable pub submit : DrrScheduler → Task → ℕ → Option Error × DrrScheduler
unfolding place
submit s task now = counted (place s task now)

-- The first loop of a round, over the lanes from place `i` on: the task of the first lane that
-- starves, and the lanes without it.
unfoldable pub starved : List Lane → ℕ → Option (Task × List Lane)
starved [] now = none
starved (l ∷ rest) now =
    let later = Option.map (λ p. (p.0, l ∷ p.1)) (starved rest now) in
    if ltb 0 (len l) && is_starving l now
    then (let (taken, l') = dequeue l in
        elim taken [ none ↦ later | some t ↦ some (record t { age_boosted = true }, l' ∷ rest) ])
    else later

abbrev pub advance : DrrScheduler → DrrScheduler
advance s = record s { round_index = (s.round_index + 1) % length s.lanes; quantum_added = false }

-- `a + b` of ints, for a `b` that is not negative: from 2 ^ 63 on the sum wraps to a negative one.
unfoldable pub add_int : ℤ → ℕ → ℤ
add_int (pos a) b = if ltb (a + b) (2 ^ 63) then pos (a + b) else negsuc (2 ^ 64 - 1 - (a + b))
add_int (negsuc a) b = if ltb a b then pos (b - a - 1) else negsuc (a - b)

-- `a - b` of ints, for a `b` that is not negative.
unfoldable pub sub_int : ℤ → ℕ → ℤ
sub_int (pos a) b = if leb b a then pos (a - b) else negsuc (b - a - 1)
sub_int (negsuc a) b = if ltb (a + b) (2 ^ 63) then negsuc (a + b) else pos (2 ^ 64 - 1 - (a + b))

-- `a >= b`, for a `b` that is not negative.
unfoldable pub covers : ℤ → ℕ → Bool
covers (pos a) b = leb b a
covers (negsuc a) b = false

-- `lane.deficit += lane.cfg.Quantum`, where the turn has not added it yet.
abbrev pub credited : DrrScheduler → Lane → ℤ
credited s l = if s.quantum_added then l.deficit else add_int l.deficit l.quantum

-- The lane and the scheduler after the head `t` was taken and `rest` is left.
abbrev pub served : DrrScheduler → Lane → Task → List Task → DrrScheduler
served s l t [] =
    let l' = record l {
      tasks = [];
      deficit = pos 0;
      dequeued_count = u64 (l.dequeued_count + 1);
    } in
    advance (record s { lanes = set s.lanes s.round_index l'; total_tasks = s.total_tasks - 1 })
served s l t (next ∷ rest) =
    let left = sub_int (credited s l) t.cost in
    let l' = record l {
      tasks = next ∷ rest;
      deficit = left;
      dequeued_count = u64 (l.dequeued_count + 1);
    } in
    let s' : DrrScheduler = record s {
      lanes = set s.lanes s.round_index l';
      quantum_added = true;
      total_tasks = s.total_tasks - 1;
    } in
    if covers left next.cost then s' else advance s'

-- One attempt of the second loop of a round: the task that it serves, if any.
unfoldable pub attempt : DrrScheduler → Option Task × DrrScheduler
unfolding add_int sub_int covers
attempt s = elim (get_elem? s.lanes s.round_index) [
  | none ↦ (none, s)
  | some l ↦ elim l.tasks [
    | [] ↦ (
      none,
      advance (record s { lanes = set s.lanes s.round_index (record l { deficit = pos 0 }) }),
    )
    | t ∷ rest ↦ if covers (credited s l) t.cost then (some t, served s l t rest) else (
      none,
      advance
          (record s { lanes = set s.lanes s.round_index (record l { deficit = credited s l }) }),
    )
  ]
]

-- The second loop of a round, with `n` attempts left.
unfoldable pub attempts : DrrScheduler → ℕ → Option Task × DrrScheduler
unfolding attempt
attempts s zero = (none, s)
attempts s (suc n) =
    let next = attempts (attempt s).1 n in elim (attempt s).0 [ none ↦ next | some t ↦ attempt s ]

-- One round of the outer loop of `ScheduleNext` at time `now`, where the context is not done.
unfoldable pub schedule_round : DrrScheduler → ℕ → Option Task × DrrScheduler
unfolding starved attempts
schedule_round s now = if s.total_tasks == 0 then (none, s) else elim (starved s.lanes now) [
  | some p ↦ (some (p.0), record s { lanes = p.1; total_tasks = s.total_tasks - 1 })
  | none ↦ attempts s (length s.lanes * 2)
]

-- `ScheduleNext`, with the times of its rounds; without a task it would go on waiting.
unfoldable pub schedule_next : DrrScheduler → List ℕ → Option Task × DrrScheduler
unfolding schedule_round
schedule_next s [] = (none, s)
schedule_next s (now ∷ later) =
    let next = schedule_next (schedule_round s now).1 later in
    elim (schedule_round s now).0 [ none ↦ next | some t ↦ schedule_round s now ]
