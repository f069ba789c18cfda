-- ===== src/Examples/Saga.antt =====
-- Runs of a saga over a world that is a number.
use tempest.Base.{
  ℕ, ◌+◌, ◌-◌, String, ◌≡◌, refl, true, false, none, some, [], ◌∷◌, arith, string_eq, nat_eq,
}
use tempest.Saga.{Step, Saga, step_error, execute, undo}
use tempest.Saga.Rollback.{Undoable, Result, course, execute-Result, failure_atomic}

-- Adds `n`, and takes it off again.
abbrev adds : ℕ → Step ℕ String
adds n = record {
  name = "add";
  execute_fn = λ w. (none, w + n);
  compensate_fn = some (λ w. (none, w - n));
}

-- Fails, and leaves the world alone.
abbrev refuses : Step ℕ String
refuses = record { name = "refuse"; execute_fn = λ w. (some "no", w); compensate_fn = none }

abbrev doomed : Saga ℕ String
doomed = record {
  steps = adds 3 ∷ adds 4 ∷ refuses ∷ adds 5 ∷ [];
  executed = [];
  is_completed = false;
  is_failed = false;
  err = none;
}

doomed-run : execute doomed 10 ≡ (
  step_error "no",
  record doomed { executed = adds 3 ∷ adds 4 ∷ []; is_failed = true; err = some "no" },
  10,
)
unfolding execute
doomed-run = refl

execute-Result_example : Result doomed 10 (course doomed.steps 10)
execute-Result_example = execute-Result doomed 10 refl refl refl

adds-Undoable : (n : ℕ) → Undoable (adds n)
unfolding undo
adds-Undoable n = record { takes_back = λ w u e. ground arith; fails_clean = λ w u x e. cc }

refuses-Undoable : Undoable refuses
refuses-Undoable = record { takes_back = λ w u e. cc; fails_clean = λ w u x e. ground arith }

failure_atomic_example : (execute doomed 10).2 ≡ 10
unfolding execute
failure_atomic_example =
    failure_atomic doomed 10 "no" refl refl refl
      (adds-Undoable 3, (adds-Undoable 4, (refuses-Undoable, (adds-Undoable 5, tt)))) refl
