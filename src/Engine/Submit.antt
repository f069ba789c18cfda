-- ===== src/Engine/Submit.antt =====
-- internal/scheduler/scheduler.go: submitting a run, ending one, and cancelling one.
use tempest.Base.{
  ℕ, String, ◌⊎◌, inl, inr, Option, none, some, List, [], ◌∷◌, if◌then◌else◌, ℤ, pos, ◌=?◌,
  string_eq, nat_eq,
}
use tempest.Types.{RunState, queued, cancelled, is_terminal}
use tempest.Types.Records.{WorkflowDefinition, RunInput, Run}
use tempest.Types.Events.{event_run_created}
use tempest.Workflow.{new_run}
use tempest.MemStore.{Store}
use tempest.MemStore.Definitions.{get_definition_by_name}
use tempest.MemStore.Runs.{create_run, get_run, update_run_state, update_run_error}
use tempest.Engine.{
  Error, from_store, from_workflow, conflict, World, end_event, event_of, emit, enqueue_ready_steps,
}

module _ {Any Float : Type 0} (text : String → Any) where
  unfoldable pub finish_run : World Any Float → Run Any → RunState → String → ℕ → World Any Float
  unfolding emit
  finish_run w run state message now =
      let s₁ = (update_run_state w.store run.namespace run.id state now).1 in
      let s₂ = (update_run_error s₁ run.namespace run.id message).1 in
      let s₃ : Store Any Float = if message =? "" then s₁ else s₂ in
      let payload : List (String × Any) = ("error", text message) ∷ [] in
      emit (record w { store = s₃ }) (event_of (end_event state) run "" now payload (pos 0))

  unfoldable pub cancel : World Any Float → String → String → ℕ → Option Error × World Any Float
  unfolding finish_run
  cancel w namespace run_id now = elim (get_run w.store namespace run_id) [
    | inl e ↦ (some (from_store e), w)
    | inr run ↦
        if is_terminal run.state
        then (some conflict, w)
        else (none, finish_run w run cancelled "" now)
  ]

module _ {Any Float : Type 0} (text : String → Any) (number : ℤ → Any) where
  -- `Submit`, after the run was made; `later` is the time of `enqueueReadySteps`.
  unfoldable pub submit_run :
      World Any Float
      → WorkflowDefinition Float
      → Run Any
      → ℕ
      → ℕ
      → (Error ⊎ String) × World Any Float
  unfolding enqueue_ready_steps emit
  submit_run w def run now later =
      let (refused, s₁) = create_run w.store run in
      elim refused [
        | some e ↦ (inl (from_store e), w)
        | none ↦
            let (missing, s₂) = update_run_state s₁ run.namespace run.id queued now in
            elim missing [
              | some e ↦ (inl (from_store e), record w { store = s₁ })
              | none ↦
                  let (w', run') = enqueue_ready_steps (record w { store = s₂ }) def run later in
                  let payload : List (String × Any) =
                    ("workflow", text def.id.name) ∷ ("version", number def.id.version) ∷ [] in
                  (inr run'.id, emit w' (event_of event_run_created run' "" now payload (pos 0)))
            ]
      ]

  unfoldable pub submit :
      World Any Float → RunInput Any → ℕ → ℕ → String → (Error ⊎ String) × World Any Float
  unfolding submit_run
  submit w input now later id =
      elim (get_definition_by_name w.store input.workflow.namespace input.workflow.name) [
        | inl e ↦ (inl (from_store e), w)
        | inr def ↦ elim (new_run (some def) (record input { workflow = def.id }) now id) [
          | inl e ↦ (inl (from_workflow e), w)
          | inr run ↦ submit_run w def run now later
        ]
      ]
