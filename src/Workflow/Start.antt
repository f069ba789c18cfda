-- ===== src/Workflow/Start.antt =====
-- A new run, and the steps that it can start with.
use tempest.Base.{
  ℕ, String, ◌≡◌, refl, sym, ap, ◌∙◌, subst, ◌↔◌, inl, inr, some, [], map, arith, List-cases,
  string_eq, nat_eq,
}
use tempest.Types.{pending, StepState, step_pending}
use tempest.Types.Records.{StepDefinition, WorkflowDefinition, RunInput, StepRun, Run}
use tempest.Workflow.{fresh_step, new_run, ready_steps}
use tempest.Workflow.Ready.{IsOver}
use tempest.Workflow.Progress.{IsDistinct, ready_steps_iff}
use mathlib.Core.List.{Memᴰ}
use mathlib.Core.List.Memᴰ

step_pending-IsOver : (s : StepState) → s ≡ step_pending → ¬ IsOver s
step_pending-IsOver s e over = ground (arith, e, over)

module _ {Any Float : Type 0} where
  new_run-steps :
      (def : WorkflowDefinition Float) (input : RunInput Any) (now : ℕ) (id : String)
      (run : Run Any)
      → new_run (some def) input now id ≡ inr run
      → (run.steps ≡ map fresh_step def.steps) × (run.state ≡ pending)
  unfolding new_run
  new_run-steps def input now id run h = elim (List-cases def.steps) [
    | inl empty ↦ ground (arith, empty, h)
    | inr (x, rest, some_steps) ↦ ground (arith, some_steps, h)
  ]

  -- A run that `NewRun` makes of a definition whose steps have distinct IDs is pending, with one
  -- pending step for each step of the definition, in their order, and a step is ready at the start
  -- exactly when it depends on nothing.
  pub new_run-ready :
      (def : WorkflowDefinition Float) (input : RunInput Any) (now : ℕ) (id : String)
      (run : Run Any) (sd : StepDefinition Float)
      → new_run (some def) input now id ≡ inr run
      → IsDistinct (λ sd. sd.id) def.steps
      → Memᴰ sd def.steps
      → (run.state ≡ pending)
        × (run.steps ≡ map fresh_step def.steps)
        × (Memᴰ (fresh_step sd) (ready_steps (some def) (some run)) ↔ (sd.depends_on ≡ []))
  new_run-ready def input now id run sd h defs kd =
      let (steps, state) = new_run-steps def input now id run h in
      let here : Memᴰ (fresh_step sd) run.steps =
        subst (Memᴰ (fresh_step sd)) (sym steps) (Memᴰ.map fresh_step kd) in
      let made : (s : StepRun Any)
          → Memᴰ s run.steps
          → (d : StepDefinition Float) × Memᴰ d def.steps × (fresh_step d ≡ s) =
        λ s k. Memᴰ.of_map fresh_step def.steps (subst (Memᴰ s) steps k) in
      let runs : IsDistinct (λ s. s.step_id) run.steps = λ s t ks kt e.
        let (a, ka, ea) = made s ks in
        let (b, kb, eb) = made t kt in
        let same : a ≡ b = defs a b ka kb (
          ap (λ (x : StepRun Any). x.step_id) ea
          ∙ e
          ∙ sym (ap (λ (x : StepRun Any). x.step_id) eb)) in
        sym ea ∙ ap fresh_step same ∙ eb in
      let both = ready_steps_iff def run defs runs sd (fresh_step sd) kd here refl in
      (
        state,
        steps,
        (
          λ k. elim (List-cases sd.depends_on) [
            | inl empty ↦ empty
            | inr (d, rest, e) ↦
                let (t, kt, f, over) = (both.0 k).1 d (subst (Memᴰ d) (sym e) (Memᴰ.head refl)) in
                let (a, ka, ea) = made t kt in
                let idle : t.state ≡ step_pending = sym (ap (λ (x : StepRun Any). x.state) ea) in
                absurd (step_pending-IsOver t.state idle over)
          ],
          λ empty. both.1 (refl, λ d k. absurd (Memᴰ.not-nil (subst (Memᴰ d) empty k))),
        ),
      )
