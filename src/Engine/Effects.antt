-- ===== src/Engine/Effects.antt =====
-- What finishing a step writes to the store.
use tempest.Base.{
  ℕ, String, ◌≡◌, refl, inl, inr, true, none, some, List, arith, Option-cases, string_eq, nat_eq,
}
use tempest.Base.GoMap.{lookup, insert, erase}
use tempest.Types.{succeeded, step_state_eq, run_state_eq}
use tempest.Types.Records.{WorkflowDefinition, StepRun, Run}
use tempest.Types.Events.{QueueItem}
use tempest.MemStore.{Store}
use tempest.MemStore.Keys.{run_key, queue_key}
use tempest.MemStore.Runs.{put_step, update_run_state, update_step_state}
use tempest.MemStore.Queue.{QueueLease, complete_step}
use tempest.Engine.{World, change_step, has_id, all_done, emit}
use tempest.Engine.Submit.{finish_run}
use tempest.Engine.Leases.{finished_step, finish_step}

module _ {Any Float : Type 0} where
  pub complete_step-runs :
      (s : Store Any Float) (ns id step token : String)
      → (complete_step s ns id step token).1.runs ≡ s.runs
  unfolding complete_step
  complete_step-runs s ns id step token =
      elim (Option-cases (lookup s.queue (queue_key ns id step))) [
        | inl miss ↦ ground (arith, miss)
        | inr (q, found) ↦ ground (arith, found)
      ]

  pub complete_step-found :
      (s : Store Any Float) (ns id step token : String) (q : QueueItem)
      → lookup s.queue (queue_key ns id step) ≡ some q
      → ((complete_step s ns id step token).0 ≡ none)
        × ((complete_step s ns id step token).1.queue ≡ erase s.queue (queue_key ns id step))
  unfolding complete_step
  complete_step-found s ns id step token q found = (ground (arith, found), ground (arith, found))

  pub update_step_state-found :
      (s : Store Any Float) (ns id : String) (step : StepRun Any) (r : Run Any)
      (steps : List (StepRun Any))
      → lookup s.runs (run_key ns id) ≡ some r
      → put_step r.steps step ≡ some steps
      → ((update_step_state s ns id step).1.runs
          ≡ insert s.runs (run_key ns id) (record r { steps = steps }))
        × ((update_step_state s ns id step).1.queue ≡ s.queue)
  unfolding update_step_state
  update_step_state-found s ns id step r steps found placed =
      (ground (arith, found, placed), ground (arith, found, placed))

  -- The store after the step's own changes.
  abbrev pub step_saved : World Any Float → Run Any → QueueLease → StepRun Any → Store Any Float
  step_saved w run lease x =
      (update_step_state
        (complete_step w.store lease.item.namespace lease.item.run_id lease.item.step_id
          lease.token).1
        run.namespace run.id x).1

module _ {Any Float : Type 0} (text : String → Any) where
  pub finish_step-last :
      (w : World Any Float) (run : Run Any) (def : WorkflowDefinition Float) (lease : QueueLease)
      (output : List (String × Any)) (clock : ℕ → ℕ) (q : QueueItem) (x : StepRun Any)
      (steps : List (StepRun Any))
      → lookup w.store.queue (queue_key lease.item.namespace lease.item.run_id lease.item.step_id)
        ≡ some q
      → change_step (has_id lease.item.step_id) (finished_step (clock 0) output) run.steps
        ≡ some (x, steps)
      → all_done steps ≡ true
      → (finish_step text w run def lease output clock).1.store
        ≡ (update_run_state (step_saved w run lease x) run.namespace run.id succeeded (clock 1)).1
  unfolding finish_step emit finish_run
  finish_step-last w run def lease output clock q x steps found change all =
      let free =
        (complete_step-found w.store lease.item.namespace lease.item.run_id lease.item.step_id
          lease.token q found).0 in
      rw (finish_step, free, change, all) refl
