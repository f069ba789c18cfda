-- ===== src/Workflow/Progress.antt =====
-- Which steps of a run are ready, and that a workflow whose dependencies are well founded always
-- has a step to start, until none is pending.
use tempest.Base.{
  ℕ, zero, suc, ◌<◌, String, ◌≡◌, refl, sym, ap, ◌∙◌, subst, ◌↔◌, ◌⊎◌, inl, inr, Bool, true, false,
  ◌&&◌, some, List, [], map, arith, Bool-cases, Option-cases, ◌=?◌, string_eq, nat_eq,
}
use tempest.Base.GoMap.{lookup}
use tempest.Types.{StepState, step_pending, step_state_eq}
use tempest.Types.Records.{StepDefinition, WorkflowDefinition, StepRun, Run}
use tempest.Workflow.{fill, is_done, all_deps_done, deps_of, select_ready, ready_steps}
use tempest.Workflow.Ready.{
  filled_finds, filled_source, IsOver, is_done_iff, all_deps_done_sound, all_deps_done-cases,
  passes, select_ready_sound, select_ready_complete,
}
use mathlib.Core.List.{Memᴰ}

-- The entries of a list are told apart by a key.
abbrev pub IsDistinct : {S : Type 0} → (S → String) → List S → Type 0
IsDistinct {S} key l = (s t : S) → Memᴰ s l → Memᴰ t l → key s ≡ key t → s ≡ t

-- A run's step of that ID is over.
abbrev pub IsSatisfied : {Any : Type 0} → Run Any → String → Type 0
IsSatisfied {Any} run d = (t : StepRun Any) × Memᴰ t run.steps × (t.step_id ≡ d) × IsOver t.state

and_split : (a b : Bool) → a && b ≡ true → (a ≡ true) × (b ≡ true)
and_split a b h = ground (arith, h, Bool-cases a, Bool-cases b)

contradictory : true ≡ false → ⊥
contradictory h = ground arith

module _ {Float : Type 0} where
  abbrev dep_map : WorkflowDefinition Float → List (String × List String)
  dep_map def = fill (map (λ (sd : StepDefinition Float). (sd.id, sd.depends_on)) def.steps) []

  deps_of-step :
      (def : WorkflowDefinition Float)
      → IsDistinct (λ sd. sd.id) def.steps
      → (sd : StepDefinition Float) (id : String) → Memᴰ sd def.steps
      → sd.id ≡ id
      → deps_of (dep_map def) id ≡ sd.depends_on
  unfolding deps_of
  deps_of-step def distinct sd id k e =
      let found : lookup (dep_map def) id ≡ some (sd.depends_on) =
        ap (lookup (dep_map def)) (sym e)
        ∙ filled_finds (λ sd. sd.id) (λ sd. sd.depends_on) def.steps distinct sd k in
      rw (found, deps_of) refl

module _ {Any : Type 0} where
  abbrev state_map : Run Any → List (String × StepState)
  state_map run = fill (map (λ (s : StepRun Any). (s.step_id, s.state)) run.steps) []

  state-step :
      (run : Run Any)
      → IsDistinct (λ s. s.step_id) run.steps
      → (t : StepRun Any) (d : String) → Memᴰ t run.steps
      → t.step_id ≡ d
      → lookup (state_map run) d ≡ some t.state
  state-step run distinct t d k e =
      ap (lookup (state_map run)) (sym e)
      ∙ filled_finds (λ s. s.step_id) (λ s. s.state) run.steps distinct t k

  IsSatisfied-done :
      (run : Run Any)
      → IsDistinct (λ s. s.step_id) run.steps
      → (d : String) → IsSatisfied run d
      → is_done (lookup (state_map run) d) ≡ true
  IsSatisfied-done run distinct d (t, k, e, over) =
      rw (state-step run distinct t d k e) ((is_done_iff t.state).1 over)

  done-IsSatisfied :
      (run : Run Any) (d : String) → is_done (lookup (state_map run) d) ≡ true → IsSatisfied run d
  unfolding is_done
  done-IsSatisfied run d h = elim (Option-cases (lookup (state_map run) d)) [
    | inl miss ↦ absurd (ground (arith, h, miss))
    | inr (v, found) ↦
        let (t, k, e, f) =
          filled_source (λ (s : StepRun Any). s.step_id) (λ s. s.state) run.steps d v found in
        let over : is_done (some t.state) ≡ true =
          ap (λ x. is_done (some x)) f ∙ ap is_done (sym found) ∙ h in
        (t, k, e, (is_done_iff t.state).0 over)
  ]

module _ {Any Float : Type 0} where
  ready_steps_lem :
      (def : WorkflowDefinition Float) (run : Run Any)
      → ready_steps (some def) (some run) ≡ select_ready (dep_map def) (state_map run) run.steps
  unfolding ready_steps
  ready_steps_lem def run = refl

  -- A pending step whose dependencies are done is given.
  gives :
      (def : WorkflowDefinition Float) (run : Run Any)
      → IsDistinct (λ sd. sd.id) def.steps
      → (sd : StepDefinition Float) (s : StepRun Any) → Memᴰ sd def.steps
      → Memᴰ s run.steps
      → sd.id ≡ s.step_id
      → s.state ≡ step_pending
      → all_deps_done (state_map run) sd.depends_on ≡ true
      → Memᴰ s (ready_steps (some def) (some run))
  gives def run defs sd s kd ks e is_pending done =
      let deps : deps_of (dep_map def) s.step_id ≡ sd.depends_on =
        deps_of-step def defs sd s.step_id kd e in
      let met : all_deps_done (state_map run) (deps_of (dep_map def) s.step_id) ≡ true =
        rw deps done in
      let pass : passes (dep_map def) (state_map run) s ≡ true =
        ground (arith, met, (step_state_eq.beq_iff s.state step_pending).1 is_pending) in
      subst (Memᴰ s) (sym (ready_steps_lem def run))
        (select_ready_complete (dep_map def) (state_map run) run.steps s ks pass)

  -- In a run and a definition whose steps have distinct IDs, `ReadySteps` gives a step of the run
  -- exactly when it is pending and each dependency that its definition names is a step of the run
  -- that has succeeded or was skipped.
  pub ready_steps_iff :
      (def : WorkflowDefinition Float) (run : Run Any)
      → IsDistinct (λ sd. sd.id) def.steps
      → IsDistinct (λ s. s.step_id) run.steps
      → (sd : StepDefinition Float) (s : StepRun Any) → Memᴰ sd def.steps
      → Memᴰ s run.steps
      → sd.id ≡ s.step_id
      → Memᴰ s (ready_steps (some def) (some run))
        ↔ ((s.state ≡ step_pending) × ((d : String) → Memᴰ d sd.depends_on → IsSatisfied run d))
  ready_steps_iff def run defs runs sd s kd ks e = (
    λ k.
        let (there, pass) =
          select_ready_sound (dep_map def) (state_map run) run.steps s
            (subst (Memᴰ s) (ready_steps_lem def run) k) in
        let (is_pending, met) =
          and_split (s.state =? step_pending)
            (all_deps_done (state_map run) (deps_of (dep_map def) s.step_id)) pass in
        let done : all_deps_done (state_map run) sd.depends_on ≡ true =
          ap (all_deps_done (state_map run)) (sym (deps_of-step def defs sd s.step_id kd e))
          ∙ met in
        (
          (step_state_eq.beq_iff s.state step_pending).0 is_pending,
          λ d kdep.
              done-IsSatisfied run d
                (all_deps_done_sound (state_map run) sd.depends_on d done kdep),
        ),
    λ (is_pending, deps). elim (all_deps_done-cases (state_map run) sd.depends_on) [
      | inl done ↦ gives def run defs sd s kd ks e is_pending done
      | inr (d, kdep, waiting) ↦
          absurd (contradictory (sym (IsSatisfied-done run runs d (deps d kdep)) ∙ waiting))
    ],
  )

  -- A definition's dependencies lead down a ranking, to steps of the run, and each step of the run
  -- has a definition.
  pub record WellFormed (def : WorkflowDefinition Float) (run : Run Any) (rank : String → ℕ)
      : Type 0 where
    pub distinct_defs : IsDistinct (λ sd. sd.id) def.steps
    pub distinct_runs : IsDistinct (λ s. s.step_id) run.steps
    pub defined :
        (s : StepRun Any)
        → Memᴰ s run.steps
        → (sd : StepDefinition Float) × Memᴰ sd def.steps × (sd.id ≡ s.step_id)
    pub descends :
        (sd : StepDefinition Float) (d : String)
        → Memᴰ sd def.steps
        → Memᴰ d sd.depends_on
        → (rank d < rank sd.id) × ((t : StepRun Any) × Memᴰ t run.steps × (t.step_id ≡ d))

  find_ready :
      (n : ℕ) (def : WorkflowDefinition Float) (run : Run Any) (rank : String → ℕ)
      → WellFormed def run rank
      → ((s : StepRun Any) → Memᴰ s run.steps → (s.state ≡ step_pending) ⊎ IsOver s.state)
      → (s : StepRun Any) → Memᴰ s run.steps
      → s.state ≡ step_pending
      → rank s.step_id < n
      → (t : StepRun Any) × Memᴰ t run.steps × Memᴰ t (ready_steps (some def) (some run))
  find_ready zero def run rank wf idle s ks is_pending below = absurd (omega arith)
  find_ready (suc n) def run rank wf idle s ks is_pending below =
      let (sd, kd, e) = wf.defined s ks in
      elim (all_deps_done-cases (state_map run) sd.depends_on) [
        | inl done ↦ (s, ks, gives def run wf.distinct_defs sd s kd ks e is_pending done)
        | inr (d, kdep, waiting) ↦
            let (lower, (t, kt, f)) = wf.descends sd d kd kdep in
            elim (idle t kt) [
              | inl t_pending ↦
                  let at : rank t.step_id < n = omega (arith, below, lower, ap rank f, ap rank e) in
                  find_ready n def run rank wf idle t kt t_pending at
              | inr over ↦ absurd (
                  contradictory
                    (sym (IsSatisfied-done run wf.distinct_runs d (t, kt, f, over)) ∙ waiting))
            ]
      ]

  -- When the steps of a definition and of its run have distinct IDs, every step of the run is
  -- defined, and every dependency is a step of the run that comes earlier in some ranking, so that
  -- there is no cycle, the run never gets stuck: while each of its steps is pending, succeeded or
  -- skipped, and some step is pending, `ReadySteps` gives a step of the run.
  pub never_stuck :
      (def : WorkflowDefinition Float) (run : Run Any) (rank : String → ℕ)
      → WellFormed def run rank
      → ((s : StepRun Any) → Memᴰ s run.steps → (s.state ≡ step_pending) ⊎ IsOver s.state)
      → (s : StepRun Any) → Memᴰ s run.steps
      → s.state ≡ step_pending
      → (t : StepRun Any) × Memᴰ t run.steps × Memᴰ t (ready_steps (some def) (some run))
  never_stuck def run rank wf idle s ks is_pending =
      find_ready (suc (rank s.step_id)) def run rank wf idle s ks is_pending (omega arith)
