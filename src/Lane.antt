-- ===== src/Lane.antt =====
-- internal/lane/lane.go: a queue of tasks with a credit for the round robin. `Enqueue` puts 1 for a
-- cost that is not positive, so costs are natural numbers here and 0 stands for each such cost; a
-- time of 0 is the zero time. The deficit is an int, which a quantum can wrap to a negative one. `cfg` is kept as `NewLane` leaves it, in the lane's own fields. The
-- mutex makes each method one step.
pub mod Drr
pub mod Dispatch
pub mod Accounts
pub mod Turn
pub mod OwnTurn
pub mod Service
use tempest.Base.{
  ℕ, ◌+◌, ◌-◌, String, ◌⊎◌, inl, inr, Bool, false, Option, none, some, List, [], ◌∷◌, ◌++◌, leb,
  ◌==◌, if◌then◌else◌, length, ℤ, pos, positive_or, u64, string_eq, nat_eq,
}

pub record Task : Type 0 where
  pub id : String
  pub lane_id : String
  pub payload : List ℕ
  pub cost : ℕ
  pub enqueued_at : ℕ
  pub age_boosted : Bool

pub record LaneConfig : Type 0 where
  pub id : String
  pub priority : ℤ
  pub quantum : ℤ
  pub max_capacity : ℤ
  pub starvation_threshold : ℤ

pub record Lane : Type 0 where
  pub id : String
  pub priority : ℤ
  pub quantum : ℕ
  pub max_capacity : ℕ
  pub starvation_threshold : ℕ
  pub tasks : List Task
  pub deficit : ℤ
  pub enqueued_count : ℕ
  pub dequeued_count : ℕ

pub data Error : Type 0 where
  lane_full lane_not_found invalid_quantum no_lanes duplicate_lane : Error

unfoldable pub new_lane : LaneConfig → Error ⊎ Lane
new_lane cfg =
    if positive_or 0 cfg.quantum == 0
    then inl invalid_quantum
    else inr (record {
      id = cfg.id;
      priority = cfg.priority;
      quantum = positive_or 0 cfg.quantum;
      max_capacity = positive_or 10000 cfg.max_capacity;
      starvation_threshold = positive_or 30000000000 cfg.starvation_threshold;
      tasks = [];
      deficit = pos 0;
      enqueued_count = 0;
      dequeued_count = 0;
    })

-- The task as `Enqueue` stores it.
abbrev pub admitted : Lane → Task → ℕ → Task
admitted l task now = record task {
  cost = if task.cost == 0 then 1 else task.cost;
  enqueued_at = if task.enqueued_at == 0 then now else task.enqueued_at;
  lane_id = l.id;
}

unfoldable pub enqueue : Lane → Task → ℕ → Option Error × Lane
enqueue l task now = if leb l.max_capacity (length l.tasks) then (some lane_full, l) else (
  none,
  record l {
    tasks = l.tasks ++ admitted l task now ∷ [];
    enqueued_count = u64 (l.enqueued_count + 1);
  },
)

unfoldable pub dequeue : Lane → Option Task × Lane
dequeue l = elim l.tasks [
  | [] ↦ (none, l)
  | t ∷ rest ↦ (some t, record l { tasks = rest; dequeued_count = u64 (l.dequeued_count + 1) })
]

unfoldable pub peek : Lane → Option Task
peek l = elim l.tasks [ [] ↦ none | t ∷ rest ↦ some t ]

unfoldable pub len : Lane → ℕ
len l = length l.tasks

-- How long the head has waited at `now`, which is not before it was put in.
unfoldable pub oldest_wait_duration : Lane → ℕ → ℕ
oldest_wait_duration l now = elim l.tasks [ [] ↦ 0 | t ∷ rest ↦ now - t.enqueued_at ]

unfoldable pub is_starving : Lane → ℕ → Bool
is_starving l now = elim l.tasks [
  | [] ↦ false
  | t ∷ rest ↦ leb l.starvation_threshold (now - t.enqueued_at)
]

pub record LaneStats : Type 0 where
  pub id : String
  pub current_depth : ℕ
  pub enqueued_total : ℕ
  pub dequeued_total : ℕ
  pub oldest_wait : ℕ
  pub deficit : ℤ

unfoldable pub stats : Lane → ℕ → LaneStats
unfolding oldest_wait_duration
stats l now = record {
  id = l.id;
  current_depth = length l.tasks;
  enqueued_total = l.enqueued_count;
  dequeued_total = l.dequeued_count;
  oldest_wait = oldest_wait_duration l now;
  deficit = l.deficit;
}
