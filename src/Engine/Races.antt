-- ===== src/Engine/Races.antt =====
-- Two users of one run at once: a step is finished on a copy of the run that the store has changed
-- since.
use tempest.Base.{
  ℕ, String, ◌≡◌, refl, ap, ◌∙◌, inl, inr, true, false, ◌||◌, some, List, Bool-cases, Option-cases,
  ◌=?◌, string_eq, nat_eq,
}
use tempest.Base.GoMap.{lookup, lookup-insert_self}
use tempest.Types.{RunState, running, succeeded, failed, step_state_eq, run_state_eq, is_terminal}
use tempest.Types.Records.{WorkflowDefinition, StepRun, Run}
use tempest.Types.Events.{QueueItem}
use tempest.StateMachine.{StateMachine, can_transition}
use tempest.MemStore.{Store}
use tempest.MemStore.Keys.{run_key, queue_key}
use tempest.MemStore.Runs.{stamped, get_run, put_step, update_run_state, update_step_state}
use tempest.MemStore.Queue.{QueueLease, complete_step}
use tempest.Engine.{World, change_step, has_id, all_done}
use tempest.Engine.Leases.{finished_step, finish_step}
use tempest.Engine.Effects.{complete_step-runs, step_saved, finish_step-last}

module _ {Any : Type 0} where
  stamped-state : (r : Run Any) (to : RunState) (at : ℕ) → (stamped r to at).state ≡ r.state
  unfolding stamped
  stamped-state r to at = elim (Option-cases r.started_at) [
    | inl unset ↦ elim (Bool-cases ((to =? running) || (to =? succeeded) || (to =? failed))) [
      | inl starts ↦ rw (unset, starts) refl
      | inr waits ↦ elim (Bool-cases (is_terminal to)) [
        | inl ends ↦ rw (unset, waits, ends) refl
        | inr goes ↦ rw (unset, waits, goes) refl
      ]
    ]
    | inr (t, is_set) ↦ elim (Bool-cases (is_terminal to)) [
      | inl ends ↦ rw (is_set, ends) refl
      | inr goes ↦ rw (is_set, goes) refl
    ]
  ]

module _ {Any Float : Type 0} where
  -- A step's change leaves the run in the store, in the state it had.
  update_step_state-kept :
      (s : Store Any Float) (ns id : String) (step : StepRun Any) (r : Run Any)
      → lookup s.runs (run_key ns id) ≡ some r
      → (r' : Run Any) × (lookup (update_step_state s ns id step).1.runs (run_key ns id) ≡ some r')
        × (r'.state ≡ r.state)
  unfolding update_step_state
  update_step_state-kept s ns id step r found = elim (Option-cases (put_step r.steps step)) [
    | inl miss ↦ (r, rw (update_step_state, found, miss) found, refl)
    | inr (steps, placed) ↦ (
      record r { steps = steps },
      rw (update_step_state, found, placed)
          (lookup-insert_self s.runs (run_key ns id) (record r { steps = steps })),
      refl,
    )
  ]

  update_run_state-gets :
      (s : Store Any Float) (ns id : String) (to : RunState) (at : ℕ) (r : Run Any)
      → lookup s.runs (run_key ns id) ≡ some r
      → get_run (update_run_state s ns id to at).1 ns id
        ≡ inr (stamped (record r { state = to }) to at)
  unfolding update_run_state get_run
  update_run_state-gets s ns id to at r found =
      let now : Run Any = stamped (record r { state = to }) to at in
      rw (update_run_state, found, get_run, lookup-insert_self s.runs (run_key ns id) now) refl

module _ {Any Float H : Type 0} (sm : StateMachine H) (text : String → Any) where
  -- When a lease finishes, on a copy of the run in which every step is then done, while the stored
  -- run has been cancelled, failed or timed out in the meantime, the run of the store is afterwards
  -- in the state SUCCEEDED, to which the state machine has no transition from where it was.
  pub ended_run_succeeds :
      (w : World Any Float) (run r : Run Any) (def : WorkflowDefinition Float) (lease : QueueLease)
      (output : List (String × Any)) (clock : ℕ → ℕ) (q : QueueItem) (x : StepRun Any)
      (steps : List (StepRun Any))
      → lookup w.store.queue (queue_key lease.item.namespace lease.item.run_id lease.item.step_id)
        ≡ some q
      → change_step (has_id lease.item.step_id) (finished_step (clock 0) output) run.steps
        ≡ some (x, steps)
      → all_done steps ≡ true
      → lookup w.store.runs (run_key run.namespace run.id) ≡ some r
      → is_terminal r.state ≡ true
      → (can_transition sm r.state succeeded ≡ false)
        × ((r' : Run Any) × (get_run
                (finish_step text w run def lease output clock).1.store
                run.namespace
                run.id
              ≡ inr r')
            × (r'.state ≡ succeeded))
  unfolding can_transition
  ended_run_succeeds w run r def lease output clock q x steps found change all stored ended =
      let s₁ : Store Any Float =
        (complete_step w.store lease.item.namespace lease.item.run_id lease.item.step_id
          lease.token).1 in
      let still : lookup s₁.runs (run_key run.namespace run.id) ≡ some r =
        ap (λ runs. lookup runs (run_key run.namespace run.id))
          (complete_step-runs w.store lease.item.namespace lease.item.run_id lease.item.step_id
            lease.token)
        ∙ stored in
      let (r₁, saved, same) = update_step_state-kept s₁ run.namespace run.id x r still in
      let r₂ : Run Any = stamped (record r₁ { state = succeeded }) succeeded (clock 1) in
      (
        rw ended refl,
        (
          r₂,
          ap (λ s. get_run s run.namespace run.id)
                (finish_step-last text w run def lease output clock q x steps found change all)
              ∙ update_run_state-gets (step_saved w run lease x) run.namespace run.id succeeded
                  (clock 1) r₁ saved,
          stamped-state (record r₁ { state = succeeded }) succeeded (clock 1),
        ),
      )
