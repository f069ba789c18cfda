-- ===== src/Engine/Queueing.antt =====
-- What the engine puts into the queue.
use tempest.Base.{
  ℕ, String, ◌≡◌, refl, ap, ◌∙◌, subst, inl, inr, false, none, some, List, [], ◌∷◌, arith,
  Bool-cases, Option-cases, succ, ◌=?◌, string_eq, nat_eq,
}
use tempest.Base.GoMap.{lookup, insert, lookup-insert, lookup-insert_self, lookup-insert_ne}
use tempest.Types.{step_queued, step_state_eq}
use tempest.Types.Records.{WorkflowDefinition, StepRun, Run}
use tempest.Types.Events.{QueueItem, event_step_queued}
use tempest.Workflow.{ready_steps}
use tempest.MemStore.{Store}
use tempest.MemStore.Keys.{run_key, queue_key}
use tempest.MemStore.Runs.{put_step, update_step_state}
use tempest.MemStore.Queue.{QueueLease, enqueue}
use tempest.Engine.{
  World, change_step, has_id, with_state, all_done, emit, enqueue_steps, enqueue_ready_steps,
  queue_item_for, event_of, save_step,
}
use tempest.Engine.Leases.{finished_step, finish_step}
use tempest.Engine.Effects.{complete_step-found}
use mathlib.Core.List.{Memᴰ}

-- What is in the queue stays when more is added.
insert_keeps :
    (m : List (String × QueueItem)) (k j : String) (item q : QueueItem)
    → lookup m j ≡ some q
    → (q' : QueueItem) × (lookup (insert m k item) j ≡ some q')
insert_keeps m k j item q there = elim (Bool-cases (k =? j)) [
  | inl same ↦ (item, simp (lookup-insert, same))
  | inr other ↦ (q, lookup-insert_ne m k j item other ∙ there)
]

module _ {Any Float : Type 0} where
  abbrev pub IsQueued : World Any Float → String → Type 0
  IsQueued w key = (q : QueueItem) × (lookup w.store.queue key ≡ some q)

  update_step_state-queue :
      (s : Store Any Float) (ns id : String) (step : StepRun Any)
      → (update_step_state s ns id step).1.queue ≡ s.queue
  unfolding update_step_state
  update_step_state-queue s ns id step = elim (Option-cases (lookup s.runs (run_key ns id))) [
    | inl miss ↦ ground (arith, miss)
    | inr (r, found) ↦ elim (Option-cases (put_step r.steps step)) [
      | inl lost ↦ ground (arith, found, lost)
      | inr (steps, placed) ↦ ground (arith, found, placed)
    ]
  ]

  -- One turn of the loop: the item is added, and the copy of the run stays that of the same run.
  enqueue_steps-turn :
      (w : World Any Float) (run : Run Any) (s : StepRun Any) (rest : List (StepRun Any)) (now : ℕ)
      → (w' : World Any Float) × (run' : Run Any) × (enqueue_steps w run (s ∷ rest) now
          ≡ enqueue_steps w' run' rest now)
        × (w'.store.queue
            ≡ insert w.store.queue
                (queue_key run.namespace run.id s.step_id)
                (queue_item_for run s now now))
        × ((step : String)
            → queue_key run'.namespace run'.id step ≡ queue_key run.namespace run.id step)
  unfolding enqueue_steps enqueue emit queue_item_for
  enqueue_steps-turn w run s rest now =
      let w₁ : World Any Float = record w {
        store = enqueue w.store (queue_item_for run s now now);
      } in
      let event = event_of event_step_queued run s.step_id now [] (succ s.attempt) in
      elim (Option-cases (change_step (has_id s.step_id) (with_state step_queued) run.steps)) [
        | inl miss ↦ (emit w₁ event, run, rw (enqueue_steps, miss) refl, refl, λ step. refl)
        | inr ((x, steps), found) ↦ (
          emit (save_step w₁ run x) event,
          record run { steps = steps },
          rw (enqueue_steps, found) refl,
          update_step_state-queue w₁.store run.namespace run.id x,
          λ step. refl,
        )
      ]

  enqueue_steps_keeps :
      (w : World Any Float) (run : Run Any) (l : List (StepRun Any)) (now : ℕ) (key : String)
      → IsQueued w key
      → IsQueued (enqueue_steps w run l now).0 key
  unfolding enqueue_steps
  enqueue_steps_keeps w run [] now key there = there
  enqueue_steps_keeps w run (s ∷ rest) now key (q, there) =
      let (w', run', same, added, _) = enqueue_steps-turn w run s rest now in
      let (q', still) =
        insert_keeps w.store.queue (queue_key run.namespace run.id s.step_id) key
          (queue_item_for run s now now) q there in
      rw same (enqueue_steps_keeps w' run' rest now key (q', ap (λ m. lookup m key) added ∙ still))

  enqueue_steps_adds :
      (w : World Any Float) (run : Run Any) (l : List (StepRun Any)) (now : ℕ) (s : StepRun Any)
      → Memᴰ s l
      → IsQueued (enqueue_steps w run l now).0 (queue_key run.namespace run.id s.step_id)
  enqueue_steps_adds w run [] now s member = elim member [ ]
  enqueue_steps_adds w run (t ∷ rest) now s (Memᴰ.head e) =
      let (w', run', same, added, _) = enqueue_steps-turn w run t rest now in
      let item = queue_item_for run t now now in
      let key = queue_key run.namespace run.id t.step_id in
      rw (e, same)
        (enqueue_steps_keeps w' run' rest now key
          (item, ap (λ m. lookup m key) added ∙ lookup-insert_self w.store.queue key item))
  enqueue_steps_adds w run (t ∷ rest) now s (Memᴰ.tail later) =
      let (w', run', same, _, same_key) = enqueue_steps-turn w run t rest now in
      rw same (
        subst (λ key. IsQueued (enqueue_steps w' run' rest now).0 key) (same_key s.step_id)
          (enqueue_steps_adds w' run' rest now s later))

module _ {Any Float : Type 0} (text : String → Any) where
  -- When a lease finishes whose item is in the queue, while some step of the copy of the run is not
  -- yet done, no error is returned, and every step that is then ready is in the queue.
  pub ready_steps-IsQueued :
      (w : World Any Float) (run : Run Any) (def : WorkflowDefinition Float) (lease : QueueLease)
      (output : List (String × Any)) (clock : ℕ → ℕ) (q : QueueItem) (x : StepRun Any)
      (steps : List (StepRun Any)) (s : StepRun Any)
      → lookup w.store.queue (queue_key lease.item.namespace lease.item.run_id lease.item.step_id)
        ≡ some q
      → change_step (has_id lease.item.step_id) (finished_step (clock 0) output) run.steps
        ≡ some (x, steps)
      → all_done steps ≡ false
      → Memᴰ s (ready_steps (some def) (some (record run { steps = steps })))
      → ((finish_step text w run def lease output clock).0 ≡ none)
        × IsQueued
            (finish_step text w run def lease output clock).1
            (queue_key run.namespace run.id s.step_id)
  unfolding finish_step enqueue_ready_steps emit
  ready_steps-IsQueued w run def lease output clock q x steps s found change more ready =
      let free =
        (complete_step-found w.store lease.item.namespace lease.item.run_id lease.item.step_id
          lease.token q found).0 in
      (
        rw (finish_step, free, change, more) refl,
        rw (finish_step, free, change, more, enqueue_ready_steps)
            (enqueue_steps_adds _ _ (ready_steps (some def) (some (record run { steps = steps })))
              (clock 1) s ready),
      )
