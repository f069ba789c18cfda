-- ===== src/Saga.antt =====
-- internal/saga/saga.go: a saga runs its steps in order, and undoes those that ran, newest first,
-- when one fails. A step's callbacks act on the world outside, of type `W`, and may return an error
-- of type `E`; the context is what the callbacks make of it, and is left out.
pub mod Rollback
use tempest.Base.{
  ℕ, zero, suc, ◌+◌, String, Bool, true, false, ◌||◌, Option, none, some, List, [], ◌∷◌, ◌++◌,
  if◌then◌else◌, length, get_elem?,
}

module _ (W E : Type 0) where
  pub record Step : Type 0 where
    pub name : String
    pub execute_fn : W → Option E × W
    pub compensate_fn : Option (W → Option E × W)

  pub record Saga : Type 0 where
    pub steps : List Step
    pub executed : List Step
    pub is_completed : Bool
    pub is_failed : Bool
    pub err : Option E

-- What `Execute` returns: nil, the refusal of a finished saga, or a step's error.
pub data Outcome (E : Type 0) : Type 0 where
  succeeded already_finished : Outcome E
  step_error : E → Outcome E

module _ {W E : Type 0} where
  unfoldable pub new : Saga W E
  new = record { steps = []; executed = []; is_completed = false; is_failed = false; err = none }

  unfoldable pub add_step : Saga W E → Step W E → Saga W E
  add_step s step = record s { steps = s.steps ++ step ∷ [] }

  -- One round of the loop of `compensate`; the compensation's error is dropped.
  unfoldable pub undo : Option (Step W E) → W → W
  undo none w = w
  undo (some step) w = elim step.compensate_fn [ none ↦ w | some f ↦ (f w).1 ]

  -- The loop of `compensate`, `i` counting down from the number of executed steps.
  unfoldable pub compensate : List (Step W E) → ℕ → W → W
  compensate executed zero w = w
  compensate executed (suc i) w = compensate executed i (undo (get_elem? executed i) w)

  -- The loop of `Execute` over the steps that are left.
  unfoldable pub execute_steps : Saga W E → List (Step W E) → W → Outcome E × Saga W E × W
  unfolding compensate undo
  execute_steps s [] w = (succeeded, record s { is_completed = true }, w)
  execute_steps s (step ∷ rest) w =
      let (result, w') = step.execute_fn w in
      let next = execute_steps (record s { executed = s.executed ++ step ∷ [] }) rest w' in
      elim result [
        | none ↦ next
        | some e ↦ (
          step_error e,
          record s { is_failed = true; err = some e },
          compensate s.executed (length s.executed) w',
        )
      ]

  unfoldable pub execute : Saga W E → W → Outcome E × Saga W E × W
  unfolding execute_steps
  execute s w =
      if s.is_completed || s.is_failed then (already_finished, s, w) else execute_steps s s.steps w

  unfoldable pub steps_executed : Saga W E → ℕ
  steps_executed s = length s.executed

  unfoldable pub steps_total : Saga W E → ℕ
  steps_total s = length s.steps
