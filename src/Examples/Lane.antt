-- ===== src/Examples/Lane.antt =====
-- Two lanes, and runs of the round robin over them.
use tempest.Base.{
  none, ◌^◌, ◌-◌, ◌+◌, replicate, arith, ℕ, String, ◌≡◌, refl, false, some, List, [], ◌∷◌, pos,
  string_eq, nat_eq,
}
use mathlib.Core.Option
use tempest.Lane.{len, is_starving, Task, Lane}
use tempest.Lane.Drr.{DrrScheduler, new_scheduler, schedule_next}
use tempest.Lane.Dispatch.{queues, Outcome, schedule_next-Outcome}
use tempest.Lane.Turn.{turns}
use tempest.Lane.Service.{schedule_next_serves}
use tempest.Lane.Accounts.{
  backlog, Call, submits, places, counts, schedules, run, started, total-backlog,
}

abbrev task_of : String → String → ℕ → Task
task_of id lane cost = record {
  id = id;
  lane_id = lane;
  payload = [];
  cost = cost;
  enqueued_at = 5;
  age_boosted = false;
}

abbrev lane_of : String → ℕ → List Task → Lane
lane_of id quantum tasks = record {
  id = id;
  priority = pos 0;
  quantum = quantum;
  max_capacity = 2;
  starvation_threshold = 100;
  tasks = tasks;
  deficit = pos 0;
  enqueued_count = 0;
  dequeued_count = 0;
}

abbrev two_lanes : List Lane
two_lanes = lane_of "fast" 3 [] ∷ lane_of "slow" 1 [] ∷ []

abbrev idle_scheduler : DrrScheduler
idle_scheduler = record {
  lanes = two_lanes;
  round_index = 0;
  quantum_added = false;
  total_tasks = 0;
}

abbrev some_calls : List Call
some_calls =
    submits (task_of "a" "fast" 2) 5
    ∷ submits (task_of "b" "slow" 2) 5
    ∷ submits (task_of "c" "nowhere" 1) 5
    ∷ places (task_of "d" "fast" 1) 5
    ∷ schedules (6 ∷ [])
    ∷ counts
    ∷ places (task_of "e" "slow" 1) 5
    ∷ []

total-backlog_example :
    (run (started idle_scheduler) some_calls).scheduler.total_tasks
      + (run (started idle_scheduler) some_calls).uncounted
    ≡ backlog (queues (run (started idle_scheduler) some_calls).scheduler.lanes)
unfolding new_scheduler backlog
total-backlog_example = total-backlog two_lanes idle_scheduler some_calls refl refl

abbrev loaded : DrrScheduler
loaded = record {
  lanes =
      lane_of "fast" 1 (task_of "a" "fast" 3 ∷ [])
      ∷ lane_of "slow" 1 (task_of "b" "slow" 2 ∷ [])
      ∷ [];
  round_index = 0;
  quantum_added = false;
  total_tasks = 2;
}

schedule_next-Outcome_example : Outcome loaded (schedule_next loaded (6 ∷ 7 ∷ []))
schedule_next-Outcome_example = schedule_next-Outcome loaded (6 ∷ 7 ∷ [])

-- The cheaper head is served first, as both lanes earn one credit in a turn.
served_first : Option.map (λ (t : Task). t.id) (schedule_next loaded (6 ∷ [])).0 ≡ some "b"
unfolding schedule_next len is_starving
served_first = refl

schedule_next_serves_example : (u : Task) × ((schedule_next loaded (replicate 10 6)).0 ≡ some u)
unfolding turns
schedule_next_serves_example =
    schedule_next_serves loaded (replicate 10 6) 0 0 (lane_of "fast" 1 (task_of "a" "fast" 3 ∷ []))
      (task_of "a" "fast" 3) [] refl refl (omega arith) refl (omega arith) (omega arith)
      (omega arith) (omega arith) (omega arith)

-- A quantum so large that the deficit wraps: after two rounds all is as it was.
abbrev wide : DrrScheduler
wide = record {
  lanes = lane_of "wide" (2 ^ 62) (task_of "a" "wide" (2 ^ 63 - 1) ∷ []) ∷ [];
  round_index = 0;
  quantum_added = false;
  total_tasks = 1;
}

wide_goes_round : schedule_next wide (6 ∷ 6 ∷ []) ≡ (none, wide)
unfolding schedule_next len is_starving
wide_goes_round = refl
