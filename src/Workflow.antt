-- ===== src/Workflow.antt =====
-- internal/workflow/workflow.go: a run made from a definition, and the steps that may start. A nil
-- pointer is `none`. The text of the new run's ID, which comes from the clock, is an argument.
pub mod Ready
pub mod Progress
pub mod Start
use tempest.Base.{
  ℕ, String, ◌⊎◌, inl, inr, Bool, true, false, not, ◌||◌, Option, none, some, List, [], ◌∷◌, map,
  if◌then◌else◌, pos, ◌=?◌, string_eq, nat_eq,
}
use tempest.Base.GoMap.{lookup, insert}
use tempest.Types.{pending, StepState, step_pending, step_succeeded, step_skipped, step_state_eq}
use tempest.Types.Records.{StepDefinition, WorkflowDefinition, RunInput, StepRun, Run}

pub data Error : Type 0 where
  nil_definition no_steps : Error

-- `for ... { m[k] = v }`, over the pairs of a key and its value.
unfoldable pub fill {κ} : {V : Type κ} → List (String × V) → List (String × V) → List (String × V)
unfolding insert
fill [] m = m
fill ((k, v) ∷ rest) m = fill rest (insert m k v)

-- `stepState[dep]` is succeeded or skipped; a missing key reads as the empty text.
unfoldable pub is_done : Option StepState → Bool
is_done none = false
is_done (some s) = (s =? step_succeeded) || (s =? step_skipped)

-- The innermost loop of `ReadySteps`.
unfoldable pub all_deps_done : List (String × StepState) → List String → Bool
unfolding lookup is_done
all_deps_done step_state [] = true
all_deps_done step_state (dep ∷ rest) =
    let more = all_deps_done step_state rest in
    if not (is_done (lookup step_state dep)) then false else more

unfoldable pub deps_of : List (String × List String) → String → List String
unfolding lookup
deps_of deps id = elim (lookup deps id) [ none ↦ [] | some l ↦ l ]

module _ {Any Float : Type 0} where
  abbrev pub fresh_step : StepDefinition Float → StepRun Any
  fresh_step sd = record {
    step_id = sd.id;
    state = step_pending;
    attempt = pos 0;
    started_at = none;
    finished_at = none;
    output = [];
    error = "";
    last_err_type = "";
    metadata = [];
  }

  unfoldable pub new_run :
      Option (WorkflowDefinition Float) → RunInput Any → ℕ → String → Error ⊎ Run Any
  new_run none input now id = inl nil_definition
  new_run (some def) input now id = elim def.steps [
    | [] ↦ inl no_steps
    | first ∷ more ↦ inr (record {
      id = id;
      namespace = def.id.namespace;
      workflow = def.id;
      state = pending;
      input = record input { workflow = def.id };
      steps = map fresh_step def.steps;
      attempt = pos 0;
      created_at = now;
      started_at = none;
      finished_at = none;
      error = "";
      labels = [];
      parent_run_id = "";
    })
  ]

module _ {Any : Type 0} where
  -- The last loop of `ReadySteps` over the steps that are left.
  unfoldable pub select_ready :
      List (String × List String)
      → List (String × StepState)
      → List (StepRun Any)
      → List (StepRun Any)
  unfolding all_deps_done deps_of
  select_ready deps step_state [] = []
  select_ready deps step_state (s ∷ rest) =
      let more = select_ready deps step_state rest in
      if not (s.state =? step_pending)
      then more
      else if all_deps_done step_state (deps_of deps s.step_id)
      then s ∷ more
      else more

module _ {Any Float : Type 0} where
  unfoldable pub ready_steps :
      Option (WorkflowDefinition Float) → Option (Run Any) → List (StepRun Any)
  unfolding select_ready fill
  ready_steps none run = []
  ready_steps (some def) none = []
  ready_steps (some def) (some run) =
      select_ready (fill (map (λ sd. (sd.id, sd.depends_on)) def.steps) [])
        (fill (map (λ s. (s.step_id, s.state)) run.steps) []) run.steps
