-- ===== src/MemStore/Runs.antt =====
-- internal/persistence/memstore/memstore.go: the methods on runs. `order` is the order in which a
-- `range` visits the keys of a map from which it also deletes.
pub mod Single
pub mod Register
pub mod Finish
pub mod Drop
pub mod Compaction
use mathlib.Core.Option
use tempest.Base.{
  ℕ, suc, ◌+◌, String, ◌⊎◌, inl, inr, Bool, true, false, ◌&&◌, ◌||◌, Option, none, some, List, [],
  ◌∷◌, map, ltb, if◌then◌else◌, ℤ, ◌=?◌, string_eq, nat_eq,
}
use tempest.Base.GoMap.{lookup, insert, erase}
use tempest.Types.{RunState, running, succeeded, failed, run_state_eq, is_terminal}
use tempest.Types.Records.{StepRun, Run}
use tempest.Types.Events.{QueueItem}
use tempest.MemStore.{Store, Error, not_found, already_exists}
use tempest.MemStore.Keys.{run_key, mentions, skip, cap, sort_slice, filter, values, matches}

pub record RunFilter : Type 0 where
  pub namespace : String
  pub workflow : String
  pub state : Option RunState
  pub created_after : Option ℕ
  pub limit : ℤ
  pub offset : ℤ

-- `t.Before(cutoff)` of a time that may be nil.
abbrev pub is_before : Option ℕ → ℕ → Bool
is_before none cutoff = false
is_before (some t) cutoff = ltb t cutoff

module _ {Any : Type 0} where
  -- The `switch` of `UpdateRunState`, after the state was set.
  unfoldable pub stamped : Run Any → RunState → ℕ → Run Any
  unfolding is_terminal
  stamped r to at =
      let starts = (to =? running) || (to =? succeeded) || (to =? failed) in
      elim r.started_at [
        | none ↦
            if starts
            then record r { started_at = some at }
            else if is_terminal to
            then record r { finished_at = some at }
            else r
        | some t ↦ if is_terminal to then record r { finished_at = some at } else r
      ]

  -- The loop of `UpdateStepState`: the first step of that ID is replaced.
  unfoldable pub put_step : List (StepRun Any) → StepRun Any → Option (List (StepRun Any))
  put_step [] step = none
  put_step (s ∷ rest) step =
      if s.step_id =? step.step_id
      then some (step ∷ rest)
      else Option.map (λ l. s ∷ l) (put_step rest step)

  -- The conditions of `ListRuns`.
  abbrev pub selected : RunFilter → Run Any → Bool
  selected f r =
      matches f.namespace r.namespace
      && matches f.workflow r.workflow.name
      && (elim f.state [ none ↦ true | some st ↦ r.state =? st ])
      && (elim f.created_after [ none ↦ true | some t ↦ ltb t r.created_at ])

  -- The conditions of `ListExpiredRuns`.
  unfoldable pub is_expired : ℕ → Run Any → Bool
  is_expired cutoff r = is_before r.finished_at cutoff && is_terminal r.state

  abbrev pub finished_first : Run Any → Run Any → Bool
  finished_first a b = elim b.finished_at [ none ↦ false | some t ↦ is_before a.finished_at t ]

-- The loops of `DeleteRuns` for one ID: the runs that have it, and the queue keys that mention it.
unfoldable pub drop_runs :
    {Any : Type 0} → List String → String → List (String × Run Any) → ℕ × List (String × Run Any)
drop_runs [] id runs = (0, runs)
drop_runs (k ∷ rest) id runs =
    let on = drop_runs rest id runs in
    let off = drop_runs rest id (erase runs k) in
    elim (lookup runs k) [ none ↦ on | some r ↦ if r.id =? id then (suc off.0, off.1) else on ]

unfoldable pub drop_queued :
    List String → String → List (String × QueueItem) → List (String × QueueItem)
unfolding mentions
drop_queued [] id queue = queue
drop_queued (k ∷ rest) id queue =
    let on = drop_queued rest id queue in
    let off = drop_queued rest id (erase queue k) in if mentions k id then off else on

module _ {Any Float : Type 0} where
  unfoldable pub create_run : Store Any Float → Run Any → Option Error × Store Any Float
  create_run s r = elim (lookup s.runs (run_key r.namespace r.id)) [
    | some old ↦ (some already_exists, s)
    | none ↦ (none, record s { runs = insert s.runs (run_key r.namespace r.id) r })
  ]

  unfoldable pub get_run : Store Any Float → String → String → Error ⊎ Run Any
  get_run s namespace id = elim (lookup s.runs (run_key namespace id)) [
    | none ↦ inl not_found
    | some r ↦ inr r
  ]

  unfoldable pub list_runs : Store Any Float → RunFilter → List (Run Any)
  list_runs s f =
      let newest = λ (a b : Run Any). ltb b.created_at a.created_at in
      cap f.limit (skip f.offset (sort_slice newest (filter (selected f) (values s.runs))))

  unfoldable pub update_run_state :
      Store Any Float → String → String → RunState → ℕ → Option Error × Store Any Float
  unfolding stamped
  update_run_state s namespace id to at = elim (lookup s.runs (run_key namespace id)) [
    | none ↦ (some not_found, s)
    | some r ↦ (
      none,
      record s {
        runs = insert s.runs (run_key namespace id) (stamped (record r { state = to }) to at);
      },
    )
  ]

  unfoldable pub update_run_error :
      Store Any Float → String → String → String → Option Error × Store Any Float
  update_run_error s namespace id message = elim (lookup s.runs (run_key namespace id)) [
    | none ↦ (some not_found, s)
    | some r ↦ (
      none,
      record s { runs = insert s.runs (run_key namespace id) (record r { error = message }) },
    )
  ]

  unfoldable pub update_step_state :
      Store Any Float → String → String → StepRun Any → Option Error × Store Any Float
  unfolding put_step
  update_step_state s namespace id step = elim (lookup s.runs (run_key namespace id)) [
    | none ↦ (some not_found, s)
    | some r ↦ elim (put_step r.steps step) [
      | none ↦ (some not_found, s)
      | some steps ↦ (
        none,
        record s { runs = insert s.runs (run_key namespace id) (record r { steps = steps }) },
      )
    ]
  ]

  unfoldable pub list_expired_runs : Store Any Float → ℕ → ℤ → List (Run Any)
  unfolding is_expired
  list_expired_runs s cutoff limit =
      cap limit (sort_slice finished_first (filter (is_expired cutoff) (values s.runs)))

  -- `orders` tells, for each ID, the orders in which the two maps are visited.
  unfoldable pub delete_runs :
      Store Any Float → List String → (String → List String × List String) → ℕ × Store Any Float
  unfolding drop_runs drop_queued
  delete_runs s [] orders = (0, s)
  delete_runs s (id ∷ ids) orders =
      let (runs_order, queue_order) = orders id in
      let (deleted, left) = drop_runs runs_order id s.runs in
      let s' : Store Any Float = record s {
        runs = left;
        queue = drop_queued queue_order id s.queue;
      } in
      let (more, s'') = delete_runs s' ids orders in (deleted + more, s'')

  -- The lock is let go of between the listing, from `s`, and the deletion, from `s'`.
  unfoldable pub compact_runs :
      Store Any Float
      → Store Any Float
      → ℕ
      → ℤ
      → (String → List String × List String)
      → ℕ × Store Any Float
  unfolding list_expired_runs delete_runs
  compact_runs s s' before limit orders =
      delete_runs s' (map (λ (r : Run Any). r.id) (list_expired_runs s before limit)) orders
