-- ===== src/Saga/Rollback.antt =====
-- What a saga leaves behind, when it succeeds and when it fails.
use tempest.Base.{
  ℕ, zero, suc, ◌≡◌, refl, ap, ◌∙◌, subst, inl, inr, Bool, true, false, ◌||◌, none, some, List, [],
  ◌∷◌, ◌++◌, arith, Option-cases, length, get_elem?, All, string_eq, nat_eq,
}
use mathlib.Core.List.{append-nil, append_assoc}
use tempest.Saga.{
  Step, Saga, Outcome, succeeded, already_finished, step_error, undo, compensate, execute_steps,
  execute,
}

module _ {W E : Type 0} where
  -- The steps run one after another from `w` without an error, and leave `w'`.
  pub data Runs : List (Step W E) → W → W → Type 0 where
    none_left : {w : W} → Runs [] w w
    one_more :
        {step : Step W E} {rest : List (Step W E)} {w u v : W}
        → step.execute_fn w ≡ (none, u)
        → Runs rest u v
        → Runs (step ∷ rest) w v

  -- The compensations of `executed`, the last step's first.
  unfoldable pub rollback : List (Step W E) → W → W
  rollback [] w = w
  rollback (step ∷ rest) w = undo (some step) (rollback rest w)

  compensate-cons :
      (step : Step W E) (xs : List (Step W E)) (n : ℕ) (w : W)
      → compensate (step ∷ xs) (suc n) w ≡ undo (some step) (compensate xs n w)
  unfolding compensate
  compensate-cons step xs zero w = refl
  compensate-cons step xs (suc n) w = compensate-cons step xs n (undo (get_elem? xs n) w)

  -- The loop of `compensate` undoes the steps newest first.
  compensate-rollback : (xs : List (Step W E)) (w : W) → compensate xs (length xs) w ≡ rollback xs w
  unfolding rollback
  compensate-rollback [] w = unfold compensate in refl
  compensate-rollback (step ∷ xs) w =
      compensate-cons step xs (length xs) w ∙ ap (undo (some step)) (compensate-rollback xs w)

  step_ok :
      (s : Saga W E) (step : Step W E) (rest : List (Step W E)) (w u : W)
      → step.execute_fn w ≡ (none, u)
      → execute_steps s (step ∷ rest) w
        ≡ execute_steps (record s { executed = s.executed ++ step ∷ [] }) rest u
  unfolding execute_steps
  step_ok s step rest w u h = ground arith

  step_bad :
      (s : Saga W E) (step : Step W E) (rest : List (Step W E)) (w v : W) (e : E)
      → step.execute_fn w ≡ (some e, v)
      → execute_steps s (step ∷ rest) w
        ≡ (step_error e, record s { is_failed = true; err = some e }, rollback s.executed v)
  unfolding execute_steps
  step_bad s step rest w v e h = ground (arith, compensate-rollback s.executed v)

  execute_steps-Runs :
      (s : Saga W E) {xs : List (Step W E)} {w v : W}
      → Runs xs w v
      → execute_steps s xs w
        ≡ (succeeded, record s { executed = s.executed ++ xs; is_completed = true }, v)
  execute_steps-Runs s none_left = unfold execute_steps in rw (append-nil s.executed)
  execute_steps-Runs s {w = w} (one_more {step = step} {rest = rest} {u = u} first more) =
      step_ok s step rest w u first
      ∙ execute_steps-Runs (record s { executed = s.executed ++ step ∷ [] }) more
      ∙ rw append_assoc

  execute_steps-fails :
      (s : Saga W E) {xs : List (Step W E)} (step : Step W E) (later : List (Step W E)) {w u : W}
      (v : W) (e : E)
      → Runs xs w u
      → step.execute_fn u ≡ (some e, v)
      → execute_steps s (xs ++ step ∷ later) w ≡ (
        step_error e,
        record s { executed = s.executed ++ xs; is_failed = true; err = some e },
        rollback (s.executed ++ xs) v,
      )
  execute_steps-fails s step later {w = w} v e none_left bad =
      step_bad s step later w v e bad ∙ rw (append-nil s.executed)
  execute_steps-fails s step later {w = w} v e
        (one_more {step = x} {rest = rest} {u = u} first more) bad =
      step_ok s x (rest ++ step ∷ later) w u first
      ∙ execute_steps-fails (record s { executed = s.executed ++ x ∷ [] }) step later v e more bad
      ∙ rw append_assoc

  -- How a list of steps goes from `w`: all succeed, or the steps before the first failure do.
  pub data Course (xs : List (Step W E)) (w : W) : Type 0 where
    clear_run : (v : W) → Runs xs w v → Course xs w
    broken :
        (before : List (Step W E)) (step : Step W E) (later : List (Step W E)) (u v : W) (e : E)
        → xs ≡ before ++ step ∷ later
        → Runs before w u
        → step.execute_fn u ≡ (some e, v)
        → Course xs w

  course_after :
      (step : Step W E) (rest : List (Step W E)) (w u : W)
      → step.execute_fn w ≡ (none, u)
      → Course rest u
      → Course (step ∷ rest) w
  course_after step rest w u first (clear_run v more) = clear_run v (one_more first more)
  course_after step rest w u first (broken before bad later x v e split more fails) =
      broken (step ∷ before) bad later x v e (ap (λ l. step ∷ l) split) (one_more first more) fails

  -- One of the two always happens.
  pub course : (xs : List (Step W E)) (w : W) → Course xs w
  course [] w = clear_run w none_left
  course (step ∷ rest) w = elim (Option-cases (step.execute_fn w).0) [
    | inl ok ↦
        course_after step rest w (step.execute_fn w).1 (λ i. (ok i, (step.execute_fn w).1))
          (course rest (step.execute_fn w).1)
    | inr (e, bad) ↦
        broken [] step rest w (step.execute_fn w).1 e refl none_left
          (λ i. (bad i, (step.execute_fn w).1))
  ]

  -- What `Execute` makes of each course, for a saga that has not run yet.
  abbrev pub Result : (s : Saga W E) (w : W) → Course s.steps w → Type 0
  Result s w (clear_run v r) =
      execute s w ≡ (succeeded, record s { executed = s.steps; is_completed = true }, v)
  Result s w (broken before step later u v e split r bad) = execute s w ≡ (
    step_error e,
    record s { executed = before; is_failed = true; err = some e },
    rollback before v,
  )

  execute_open :
      (s : Saga W E) (w : W)
      → s.is_completed ≡ false
      → s.is_failed ≡ false
      → execute s w ≡ execute_steps s s.steps w
  unfolding execute
  execute_open s w open_c open_f = rw (open_c, open_f)

  course-Result :
      (s : Saga W E) (w : W)
      → s.executed ≡ []
      → s.is_completed ≡ false
      → s.is_failed ≡ false
      → (c : Course s.steps w) → Result s w c
  course-Result s w fresh open_c open_f (clear_run v r) =
      execute_open s w open_c open_f ∙ execute_steps-Runs s r ∙ ground arith
  course-Result s w fresh open_c open_f (broken before step later u v e split r bad) =
      execute_open s w open_c open_f
      ∙ ap (λ l. execute_steps s l w) split
      ∙ execute_steps-fails s step later v e r bad
      ∙ ground arith

  -- A saga that has not run yet completes when every step succeeds. Otherwise it fails with the
  -- first failing step's error, the steps after that one never run, and the compensations of the
  -- steps before it run newest first, from where the failing step left the world.
  pub execute-Result :
      (s : Saga W E) (w : W)
      → s.executed ≡ []
      → s.is_completed ≡ false
      → s.is_failed ≡ false
      → Result s w (course s.steps w)
  execute-Result s w fresh open_c open_f = course-Result s w fresh open_c open_f (course s.steps w)

  -- A step that leaves the world alone when it fails, and whose compensation takes it back when it
  -- succeeds.
  pub record Undoable (step : Step W E) : Type 0 where
    pub takes_back : (w u : W) → step.execute_fn w ≡ (none, u) → undo (some step) u ≡ w
    pub fails_clean : (w u : W) (e : E) → step.execute_fn w ≡ (some e, u) → u ≡ w

  rollback-Runs :
      {xs : List (Step W E)} {w v : W} → All Undoable xs → Runs xs w v → rollback xs v ≡ w
  unfolding rollback
  rollback-Runs h none_left = refl
  rollback-Runs {w = w} h (one_more {step = step} {u = u} first more) =
      ap (undo (some step)) (rollback-Runs h.1 more) ∙ h.0.takes_back w u first

  All-before :
      (xs : List (Step W E)) (step : Step W E) (ys : List (Step W E))
      → All Undoable (xs ++ step ∷ ys)
      → All Undoable xs × Undoable step
  All-before [] step ys h = (tt, h.0)
  All-before (x ∷ xs) step ys h =
      let (before, at) = All-before xs step ys h.1 in ((h.0, before), at)

  course-atomic :
      (s : Saga W E) (w : W) (e : E) (c : Course s.steps w)
      → All Undoable s.steps
      → Result s w c
      → (execute s w).0 ≡ step_error e
      → (execute s w).2 ≡ w
  course-atomic s w e (clear_run v r) h res failed = cc
  course-atomic s w e (broken before step later u v x split r bad) h res failed =
      let (undoes, clean) = All-before before step later (subst (All Undoable) split h) in
      ap (λ (t : Outcome E × Saga W E × W). t.2) res
      ∙ ap (rollback before) (clean.fails_clean u v x bad)
      ∙ rollback-Runs undoes r

  -- When each step's compensation takes it back where it succeeds, and each step that fails leaves the
  -- world alone, a saga that was not executed before and fails leaves the world as it found it.
  pub failure_atomic :
      (s : Saga W E) (w : W) (e : E)
      → s.executed ≡ []
      → s.is_completed ≡ false
      → s.is_failed ≡ false
      → All Undoable s.steps
      → (execute s w).0 ≡ step_error e
      → (execute s w).2 ≡ w
  failure_atomic s w e fresh open_c open_f h failed =
      course-atomic s w e (course s.steps w) h (execute-Result s w fresh open_c open_f) failed

  abbrev is_finished : Saga W E → Bool
  is_finished s = s.is_completed || s.is_failed

  execute_steps-finished :
      (s : Saga W E) (xs : List (Step W E)) (w : W) → is_finished (execute_steps s xs w).1 ≡ true
  unfolding execute_steps
  execute_steps-finished s [] w = refl
  execute_steps-finished s (step ∷ rest) w = ground (
    arith,
    execute_steps-finished (record s { executed = s.executed ++ step ∷ [] }) rest
        (step.execute_fn w).1,
  )

  -- A saga runs once: after one `Execute`, however it ended, another one is refused and touches
  -- neither the saga nor the world.
  pub executes_once :
      (s : Saga W E) (w w' : W)
      → let s' = (execute s w).1 in execute s' w' ≡ (already_finished, s', w')
  unfolding execute
  executes_once s w w' = ground (arith, execute_steps-finished s s.steps w)
