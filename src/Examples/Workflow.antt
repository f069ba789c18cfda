-- ===== src/Examples/Workflow.antt =====
-- A workflow of two steps, the second after the first.
use tempest.Base.{
  ℕ, ◌<◌, String, ◌≡◌, refl, sym, ap, ◌∙◌, subst, ◌↔◌, ◌⊎◌, inl, inr, false, none, some, List, [],
  ◌∷◌, arith, if◌then◌else◌, pos, ◌=?◌, string_eq, nat_eq, =?_refl,
}
use tempest.Types.{pending, StepState, step_pending, step_succeeded}
use tempest.Types.Records.{StepDefinition, WorkflowDefinition, RunInput, StepRun, Run}
use tempest.Workflow.{fresh_step, ready_steps}
use tempest.Workflow.Ready.{IsOver}
use tempest.Workflow.Progress.{IsDistinct, IsSatisfied, WellFormed, ready_steps_iff, never_stuck}
use mathlib.Core.List.{Memᴰ}
use mathlib.Core.List.Memᴰ

abbrev step_of : String → List String → StepDefinition ℕ
step_of id deps = record {
  id = id;
  handler = "pass";
  depends_on = deps;
  timeout = pos 0;
  retry = record {
    max_attempts = pos 3;
    initial_interval = pos 0;
    max_interval = pos 0;
    multiplier = 2;
    max_elapsed = pos 0;
  };
  input_schema = "";
  output_schema = "";
  is_gateway = false;
  continue_on_err = false;
}

abbrev first_step : StepDefinition ℕ
first_step = step_of "build" []

abbrev second_step : StepDefinition ℕ
second_step = step_of "deploy" ("build" ∷ [])

abbrev release_def : WorkflowDefinition ℕ
release_def = record {
  id = record { namespace = "ops"; name = "release"; version = pos 1 };
  description = "";
  steps = first_step ∷ second_step ∷ [];
  tags = [];
  created_at = 1;
  updated_at = 1;
  timeout = pos 0;
}

abbrev no_input : RunInput ℕ
no_input = record { workflow = release_def.id; payload = []; labels = []; parent_run_id = "" }

abbrev run_of : StepState → Run ℕ
run_of s = record {
  id = ":1";
  namespace = "ops";
  workflow = release_def.id;
  state = pending;
  input = no_input;
  steps = record (fresh_step first_step) { state = s } ∷ fresh_step second_step ∷ [];
  attempt = pos 0;
  created_at = 7;
  started_at = none;
  finished_at = none;
  error = "";
  labels = [];
  parent_run_id = "";
}

two-IsDistinct :
    {S : Type 0} (key : S → String) (x y : S)
    → (key x =? key y) ≡ false
    → IsDistinct key (x ∷ y ∷ [])
two-IsDistinct key x y h s t ks kt e = elim (Memᴰ.cases_cons ks) [
  | inl a ↦ elim (Memᴰ.cases_cons kt) [
    | inl b ↦ a ∙ sym b
    | inr b ↦ absurd (clash (sym (ap key a) ∙ e ∙ ap key (Memᴰ.eq_of_singleton b)))
  ]
  | inr a ↦ elim (Memᴰ.cases_cons kt) [
    | inl b ↦ absurd (clash (sym (ap key b) ∙ sym e ∙ ap key (Memᴰ.eq_of_singleton a)))
    | inr b ↦ Memᴰ.eq_of_singleton a ∙ sym (Memᴰ.eq_of_singleton b)
  ]
]
  where
    clash : key x ≡ key y → ⊥
    clash e = ground (arith, h, e, =?_refl (key y))

defs-IsDistinct : IsDistinct (λ sd. sd.id) (first_step ∷ second_step ∷ [])
defs-IsDistinct = two-IsDistinct (λ sd. sd.id) first_step second_step refl

runs-IsDistinct : (s : StepState) → IsDistinct (λ s. s.step_id) (run_of s).steps
runs-IsDistinct s =
    two-IsDistinct (λ s. s.step_id) (record (fresh_step first_step) { state = s })
      (fresh_step second_step) refl

ready_steps_iff_example :
    Memᴰ (fresh_step second_step) (ready_steps (some release_def) (some (run_of step_succeeded)))
    ↔ ((step_pending ≡ step_pending)
        × ((d : String) → Memᴰ d ("build" ∷ []) → IsSatisfied (run_of step_succeeded) d))
ready_steps_iff_example =
    ready_steps_iff release_def (run_of step_succeeded) defs-IsDistinct
      (runs-IsDistinct step_succeeded) second_step (fresh_step second_step)
      (Memᴰ.tail (Memᴰ.head refl)) (Memᴰ.tail (Memᴰ.head refl)) refl

abbrev place : String → ℕ
place id = if id =? "deploy" then 1 else 0

released-WellFormed : WellFormed release_def (run_of step_pending) place
released-WellFormed = record {
  distinct_defs = defs-IsDistinct;
  distinct_runs = runs-IsDistinct step_pending;
  defined = λ s k. elim (Memᴰ.cases_cons k) [
    | inl a ↦ (first_step, Memᴰ.head refl, sym (ap (λ (x : StepRun ℕ). x.step_id) a))
    | inr a ↦ (
      second_step,
      Memᴰ.tail (Memᴰ.head refl),
      sym (ap (λ (x : StepRun ℕ). x.step_id) (Memᴰ.eq_of_singleton a)),
    )
  ];
  descends = λ sd d k kd. elim (Memᴰ.cases_cons k) [
    | inl a ↦ absurd (Memᴰ.not-nil (subst (λ (x : StepDefinition ℕ). Memᴰ d x.depends_on) a kd))
    | inr a ↦
        let last : sd ≡ second_step = Memᴰ.eq_of_singleton a in
        let dep : d ≡ "build" =
          Memᴰ.eq_of_singleton (subst (λ (x : StepDefinition ℕ). Memᴰ d x.depends_on) last kd) in
        let lower : place d < place sd.id =
          subst (λ x. place x < place sd.id) (sym dep)
            (subst (λ (x : StepDefinition ℕ). place "build" < place x.id) (sym last)
              (omega arith)) in
        (lower, (fresh_step first_step, Memᴰ.head refl, sym dep))
  ];
}

all_idle :
    (s : StepRun ℕ) → Memᴰ s (run_of step_pending).steps → (s.state ≡ step_pending) ⊎ IsOver s.state
all_idle s k = elim (Memᴰ.cases_cons k) [
  | inl a ↦ inl (ap (λ (x : StepRun ℕ). x.state) a)
  | inr a ↦ inl (ap (λ (x : StepRun ℕ). x.state) (Memᴰ.eq_of_singleton a))
]

never_stuck_example :
    (t : StepRun ℕ) × Memᴰ t (run_of step_pending).steps
    × Memᴰ t (ready_steps (some release_def) (some (run_of step_pending)))
never_stuck_example =
    never_stuck release_def (run_of step_pending) place released-WellFormed all_idle
      (fresh_step second_step) (Memᴰ.tail (Memᴰ.head refl)) refl
