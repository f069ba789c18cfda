-- ===== src/Types.antt =====
-- pkg/types/types.go: the states of a run and of a step. A state is one of the package's string
-- constants; `parse_run_state` is where a text becomes one.
pub mod Records
pub mod Events
use tempest.Base.{
  string_eq, ℕ, ◌≡◌, refl, ◌↔◌, Bool, true, false, Option, none, some, String, arith, ◌==◌,
  if◌then◌else◌, Eq, ◌=?◌,
}
use text.Mathlib.TextEquality.{eq_iff}

pub data RunState : Type 0 where
  pending queued running succeeded failed cancelled timed_out : RunState

pub data StepState : Type 0 where
  step_pending step_queued step_running step_succeeded step_failed step_skipped : StepState

pub RunState-discrete : Discrete RunState
RunState-discrete = hlevel

-- The place of a constant in the source's list, by which two of them are compared.
abbrev pub run_code : RunState → ℕ
run_code pending = 0
run_code queued = 1
run_code running = 2
run_code succeeded = 3
run_code failed = 4
run_code cancelled = 5
run_code timed_out = 6

abbrev pub step_code : StepState → ℕ
step_code step_pending = 0
step_code step_queued = 1
step_code step_running = 2
step_code step_succeeded = 3
step_code step_failed = 4
step_code step_skipped = 5

abbrev run_beq : RunState → RunState → Bool
run_beq a b = run_code a == run_code b

abbrev step_beq : StepState → StepState → Bool
step_beq a b = step_code a == step_code b

pub run_beq_iff : (a b : RunState) → ((run_code a == run_code b) ≡ true) ↔ (a ≡ b)
run_beq_iff a b = (ground arith, ground arith)

pub step_beq_iff : (a b : StepState) → ((step_code a == step_code b) ≡ true) ↔ (a ≡ b)
step_beq_iff a b = (ground arith, ground arith)

instance abbrev pub run_state_eq : Eq RunState
run_state_eq = record { beq = run_beq; beq_iff = run_beq_iff }

instance abbrev pub step_state_eq : Eq StepState
step_state_eq = record { beq = step_beq; beq_iff = step_beq_iff }

unfoldable pub is_terminal : RunState → Bool
is_terminal succeeded = true
is_terminal failed = true
is_terminal cancelled = true
is_terminal timed_out = true
is_terminal _ = false

-- The constants' texts.
unfoldable pub run_state_text : RunState → String
run_state_text pending = "PENDING"
run_state_text queued = "QUEUED"
run_state_text running = "RUNNING"
run_state_text succeeded = "SUCCEEDED"
run_state_text failed = "FAILED"
run_state_text cancelled = "CANCELLED"
run_state_text timed_out = "TIMED_OUT"

-- The `switch` of `ParseRunState` on the normalised text; `none` is its error.
unfoldable pub run_state_of : String → Option RunState
run_state_of c =
    if c =? "PENDING"
    then some pending
    else if c =? "QUEUED"
    then some queued
    else if c =? "RUNNING"
    then some running
    else if c =? "SUCCEEDED"
    then some succeeded
    else if c =? "FAILED"
    then some failed
    else if c =? "CANCELLED"
    then some cancelled
    else if c =? "TIMED_OUT"
    then some timed_out
    else none

-- `normalise` is `strings.ToUpper(strings.TrimSpace(s))`.
unfoldable pub parse_run_state : (String → String) → String → Option RunState
unfolding run_state_of
parse_run_state normalise s = run_state_of (normalise s)

run_state_of-text : (s : RunState) → run_state_of (run_state_text s) ≡ some s
unfolding run_state_of run_state_text
run_state_of-text pending = refl
run_state_of-text _ = refl

run_state_of_sound : (c : String) (s : RunState) → run_state_of c ≡ some s → c ≡ run_state_text s
unfolding run_state_of run_state_text
run_state_of_sound c s h = ground (
  arith,
  eq_iff c "PENDING",
  eq_iff c "QUEUED",
  eq_iff c "RUNNING",
  eq_iff c "SUCCEEDED",
  eq_iff c "FAILED",
  eq_iff c "CANCELLED",
  eq_iff c "TIMED_OUT",
)

-- A text parses to a state exactly when its normalised form is that state's constant.
pub parse_run_state_iff :
    (normalise : String → String) (s : String) (r : RunState)
    → (parse_run_state normalise s ≡ some r) ↔ (normalise s ≡ run_state_text r)
unfolding parse_run_state
parse_run_state_iff normalise s r =
    (run_state_of_sound (normalise s) r, λ e. rw e (run_state_of-text r))
