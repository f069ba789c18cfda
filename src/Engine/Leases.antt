-- ===== src/Engine/Leases.antt =====
-- internal/scheduler/scheduler.go: what is done with a lease from the queue. `start_lease` is
-- `executeLease` up to the handler's call, `end_lease` what follows it; between the two the store
-- may be changed by others, and the copy of the run is not read again.
use tempest.Base.{
  ℕ, suc, String, inl, inr, Option, none, some, List, [], ◌∷◌, if◌then◌else◌, ℤ, ◌=?◌, string_eq,
  nat_eq,
}
use tempest.Types.{succeeded, failed, step_running, step_succeeded, step_failed}
use tempest.Types.Records.{WorkflowDefinition, StepRun, Run}
use tempest.Types.Events.{QueueItem, event_step_started, event_step_done, event_step_failed}
use tempest.Plugin.{Handle, Answer, done, result_error, execute_error, Handler, Registry, resolve}
use tempest.MemStore.Definitions.{get_definition}
use tempest.MemStore.Runs.{get_run, update_step_state}
use tempest.MemStore.Queue.{QueueLease, complete_step, dequeue_any}
use tempest.Engine.{
  Error, from_store, nil_step_definition, World, change_step, find_step_def, event_of, has_id,
  all_done, emit, save_step, enqueue_ready_steps,
}
use tempest.Engine.Submit.{finish_run}

-- What is known once the handler is about to run: the copies of the run and its definition, the
-- handler and what it is given.
pub record Started (Any Float : Type 0) : Type 0 where
  pub run : Run Any
  pub def : WorkflowDefinition Float
  pub handler : Handler Any
  pub handle : Handle Any

module _ {Any : Type 0} where
  abbrev pub started_step : ℕ → StepRun Any → StepRun Any
  started_step at s = record s { state = step_running; started_at = some at }

  abbrev pub finished_step : ℕ → List (String × Any) → StepRun Any → StepRun Any
  finished_step at output s = record s {
    state = step_succeeded;
    finished_at = some at;
    output = output;
  }

module _ {Any Float : Type 0} where
  -- `markStepRunning`
  unfoldable pub mark_step_running :
      World Any Float → Run Any → QueueItem → ℕ → World Any Float × Run Any
  unfolding change_step
  mark_step_running w run item at =
      elim (change_step (has_id item.step_id) (started_step at) run.steps) [
        | none ↦ (w, run)
        | some p ↦ (save_step w run p.0, record run { steps = p.1 })
      ]

module _ {Any Float : Type 0} (text : String → Any) where
  -- `completeStep`: `clock 0` is its own reading, `clock 1` that of the promotion or the queueing.
  unfoldable pub finish_step :
      World Any Float
      → Run Any
      → WorkflowDefinition Float
      → QueueLease
      → List (String × Any)
      → (ℕ → ℕ)
      → Option Error × World Any Float
  unfolding change_step emit all_done enqueue_ready_steps finish_run
  finish_step w run def lease output clock =
      let item = lease.item in
      let (missing, s₁) =
        complete_step w.store item.namespace item.run_id item.step_id lease.token in
      elim missing [
        | some e ↦ (some (from_store e), w)
        | none ↦
            let w₁ : World Any Float = record w { store = s₁ } in
            let event = event_of event_step_done run item.step_id (clock 0) [] item.attempt in
            let (w₂, run') : World Any Float × Run Any =
              elim (change_step (has_id item.step_id) (finished_step (clock 0) output) run.steps) [
                | none ↦ (w₁, run)
                | some p ↦ (save_step w₁ run p.0, record run { steps = p.1 })
              ] in
            let w₃ = emit w₂ event in
            if all_done run'.steps
            then (none, finish_run text w₃ run' succeeded "" (clock 1))
            else (none, (enqueue_ready_steps w₃ def run' (clock 1)).0)
      ]

  -- `failStep`
  unfoldable pub fail_step :
      World Any Float → Run Any → QueueLease → String → (ℕ → ℕ) → World Any Float
  unfolding emit finish_run
  fail_step w run lease error clock =
      let item = lease.item in
      let message = if error =? "" then "step failed" else error in
      let failure : StepRun Any = record {
        step_id = item.step_id;
        state = step_failed;
        attempt = item.attempt;
        started_at = none;
        finished_at = none;
        output = [];
        error = message;
        last_err_type = "";
        metadata = [];
      } in
      let s₁ = (update_step_state w.store item.namespace item.run_id failure).1 in
      let payload : List (String × Any) = ("error", text message) ∷ [] in
      let event = event_of event_step_failed run item.step_id (clock 0) payload item.attempt in
      let w₂ = emit (record w { store = s₁ }) event in
      let s₃ = (complete_step w₂.store item.namespace item.run_id item.step_id lease.token).1 in
      finish_run text (record w₂ { store = s₃ }) run failed message (clock 1)

-- How `executeLease` stands when the handler is about to run: refused, over because no handler was
-- found, or started.
pub data Start (Any Float : Type 0) : Type 0 where
  refused : Error → Start Any Float
  over : World Any Float → Start Any Float
  begun : Started Any Float → World Any Float → Start Any Float

module _ {Any Float : Type 0} (text : String → Any) where
  -- `no_handler_text` is the text of `Resolve`'s error. A step that the definition does not have is
  -- a nil pointer, on which the program panics.
  unfoldable pub start_lease :
      World Any Float → Registry Any → (String → String) → QueueLease → (ℕ → ℕ) → Start Any Float
  unfolding find_step_def resolve mark_step_running emit fail_step
  start_lease w registry no_handler_text lease clock =
      let item = lease.item in
      elim (get_run w.store item.namespace item.run_id) [
        | inl e ↦ refused (from_store e)
        | inr run ↦ elim (get_definition w.store run.workflow) [
          | inl e ↦ refused (from_store e)
          | inr def ↦ elim (find_step_def def.steps item.step_id) [
            | none ↦ refused nil_step_definition
            | some sd ↦ elim (resolve registry sd.handler) [
              | inl e ↦ over (fail_step text w run lease (no_handler_text sd.handler) clock)
              | inr handler ↦
                  let (w₁, run') = mark_step_running w run item (clock 2) in
                  let event =
                    event_of event_step_started run' item.step_id (clock 3) [] item.attempt in
                  let handle : Handle Any = record {
                    run_id = run'.id;
                    step_id = item.step_id;
                    namespace = "";
                    run_input = run'.input.payload;
                    deadline = sd.timeout;
                  } in
                  let started : Started Any Float = record {
                    run = run';
                    def = def;
                    handler = handler;
                    handle = handle;
                  } in
                  begun started (emit w₁ event)
            ]
          ]
        ]
      ]

  unfoldable pub end_lease :
      World Any Float
      → Started Any Float
      → QueueLease
      → Answer Any
      → (ℕ → ℕ)
      → Option Error × World Any Float
  unfolding finish_step fail_step
  end_lease w started lease (done output) clock =
      finish_step text w started.run started.def lease output clock
  end_lease w started lease (result_error message) clock =
      (none, fail_step text w started.run lease message clock)
  end_lease w started lease (execute_error message) clock =
      (none, fail_step text w started.run lease message clock)

  unfoldable pub execute_lease :
      World Any Float
      → Registry Any
      → (String → String)
      → QueueLease
      → (ℕ → ℕ)
      → Option Error × World Any Float
  unfolding start_lease end_lease
  execute_lease w registry no_handler_text lease clock =
      elim (start_lease w registry no_handler_text lease clock) [
        | refused e ↦ (some e, w)
        | over w' ↦ (none, w')
        | begun started w' ↦
            end_lease w' started lease (started.handler.execute started.handle) clock
      ]

  -- The loop of `ProcessLeases`, which logs the errors; `clocks` has the readings of each lease.
  unfoldable pub process_leases :
      World Any Float
      → Registry Any
      → (String → String)
      → List QueueLease
      → (ℕ → ℕ → ℕ)
      → World Any Float
  unfolding execute_lease
  process_leases w registry no_handler_text [] clocks = w
  process_leases w registry no_handler_text (lease ∷ rest) clocks =
      let w' = (execute_lease w registry no_handler_text lease (clocks 0)).1 in
      process_leases w' registry no_handler_text rest (λ n. clocks (suc n))

  -- `ProcessLeases`, with what `DequeueAny` needs and the time at which it is called.
  unfoldable pub process :
      World Any Float
      → Registry Any
      → (String → String)
      → (ℕ → String)
      → List String
      → ℤ
      → ℕ
      → (ℕ → ℕ → ℕ)
      → World Any Float
  unfolding process_leases
  process w registry no_handler_text fresh order max_dequeue now clocks =
      let (leases, s) = dequeue_any w.store fresh order max_dequeue now in
      process_leases (record w { store = s }) registry no_handler_text leases clocks
