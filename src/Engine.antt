-- ===== src/Engine.antt =====
-- internal/scheduler/scheduler.go: the engine that submits runs and works off the queue, over the
-- in-memory store. Every method reads its time from `clock`, by the place of the reading. `Publish`
-- is a list of the events that were emitted; their IDs, and those of new runs, are random or made
-- from the clock, and come from the caller. `text` and `number` put a payload's values into `any`.
-- The methods of the store are steps of their own: a lease is executed in three parts, on a copy of
-- the run that the first one has read, and other leases may be executed between the parts.
pub mod Leases
pub mod Submit
pub mod Effects
pub mod Queueing
pub mod Races
use mathlib.Core.Option
use tempest.Base.{
  ℕ, ◌+◌, String, Bool, true, false, not, ◌&&◌, Option, none, some, List, [], ◌∷◌, ◌++◌,
  if◌then◌else◌, ℤ, pos, succ, ◌=?◌, string_eq, nat_eq,
}
use mathlib.Core.Option
use tempest.Types.{
  RunState, failed, cancelled, timed_out, StepState, step_queued, step_succeeded, step_skipped,
  step_state_eq,
}
use tempest.Types.Records.{WorkflowDefinition, StepDefinition, StepRun, Run}
use tempest.Types.Events.{
  EventType, event_step_queued, event_run_completed, event_run_failed, event_run_cancelled,
  event_run_timed_out, Event, QueueItem,
}
use tempest.Workflow.{ready_steps, Error as WorkflowError}
use tempest.MemStore.{Store, Error as StoreError}
use tempest.MemStore.Runs.{update_step_state}
use tempest.MemStore.Queue.{enqueue}

pub data Error : Type 0 where
  from_store : StoreError → Error
  from_workflow : WorkflowError → Error
  conflict nil_step_definition : Error

-- The store and the events that were emitted.
pub record World (Any Float : Type 0) : Type 0 where
  pub store : Store Any Float
  pub emitted : List (Event Any)

-- The first step of that ID, changed, and the steps with it in its place.
unfoldable pub change_step {ℓ} : {S : Type ℓ} → (S → Bool) → (S → S) → List S → Option (S × List S)
change_step is_it f [] = none
change_step is_it f (s ∷ rest) =
    if is_it s
    then some (f s, f s ∷ rest)
    else Option.map (λ p. (p.0, s ∷ p.1)) (change_step is_it f rest)

unfoldable pub find_step_def :
    {Float : Type 0} → List (StepDefinition Float) → String → Option (StepDefinition Float)
find_step_def [] id = none
find_step_def (sd ∷ rest) id = if sd.id =? id then some sd else find_step_def rest id

abbrev pub end_event : RunState → EventType
end_event failed = event_run_failed
end_event cancelled = event_run_cancelled
end_event timed_out = event_run_timed_out
end_event _ = event_run_completed

module _ {Any : Type 0} where
  abbrev pub event_of : EventType → Run Any → String → ℕ → List (String × Any) → ℤ → Event Any
  event_of kind run step_id at payload attempt = record {
    id = "";
    event_type = kind;
    version = pos 1;
    namespace = run.namespace;
    run_id = run.id;
    step_id = step_id;
    created_at = at;
    payload = payload;
    attempt = attempt;
  }

  abbrev pub has_id : String → StepRun Any → Bool
  has_id id s = s.step_id =? id

  abbrev pub with_state : StepState → StepRun Any → StepRun Any
  with_state state s = record s { state = state }

  unfoldable pub queue_item_for : Run Any → StepRun Any → ℕ → ℕ → QueueItem
  queue_item_for run step now visible_at = record {
    run_id = run.id;
    namespace = run.namespace;
    step_id = step.step_id;
    enqueued_at = now;
    visible_at = visible_at;
    attempt = succ step.attempt;
  }

  -- The loop that looks whether all is done.
  unfoldable pub all_done : List (StepRun Any) → Bool
  all_done [] = true
  all_done (s ∷ rest) =
      let more = all_done rest in
      if not (s.state =? step_succeeded) && not (s.state =? step_skipped) then false else more

module _ {Any Float : Type 0} where
  unfoldable pub emit : World Any Float → Event Any → World Any Float
  emit w e = record w { emitted = w.emitted ++ e ∷ [] }

  -- `_ = e.store.UpdateStepState(...)`
  abbrev pub save_step : World Any Float → Run Any → StepRun Any → World Any Float
  save_step w run step = record w {
    store = (update_step_state w.store run.namespace run.id step).1;
  }

  -- The loop of `enqueueReadySteps` over the steps that are left; it changes its copy of the run.
  unfoldable pub enqueue_steps :
      World Any Float → Run Any → List (StepRun Any) → ℕ → World Any Float × Run Any
  unfolding change_step queue_item_for emit
  enqueue_steps w run [] now = (w, run)
  enqueue_steps w run (s ∷ rest) now =
      let w₁ : World Any Float = record w {
        store = enqueue w.store (queue_item_for run s now now);
      } in
      let event = event_of event_step_queued run s.step_id now [] (succ s.attempt) in
      elim (change_step (has_id s.step_id) (with_state step_queued) run.steps) [
        | none ↦ enqueue_steps (emit w₁ event) run rest now
        | some (x, steps) ↦
            let run' : Run Any = record run { steps = steps } in
            enqueue_steps (emit (save_step w₁ run x) event) run' rest now
      ]

  unfoldable pub enqueue_ready_steps :
      World Any Float → WorkflowDefinition Float → Run Any → ℕ → World Any Float × Run Any
  unfolding enqueue_steps
  enqueue_ready_steps w def run now = enqueue_steps w run (ready_steps (some def) (some run)) now
