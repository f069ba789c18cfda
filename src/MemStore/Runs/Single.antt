-- ===== src/MemStore/Runs/Single.antt =====
-- A single run, kept by itself, and what the calls that write it make of it.
use tempest.Base.{
  ℕ, suc, String, ◌⊎◌, inl, inr, ◌&&◌, Option, none, some, List, [], ◌∷◌, if◌then◌else◌, set,
  int_eq, ◌=?◌, string_eq, nat_eq,
}
use mathlib.Core.Option
use tempest.Types.{RunState, running, succeeded, failed, cancelled, timed_out, run_state_eq}
use tempest.Types.Records.{StepRun, Run}
use tempest.MemStore.{Error, not_found}

-- The calls that write a run.
pub data Call (Any : Type 0) : Type 0 where
  creates : Run Any → Call Any
  sets_state : String → String → RunState → ℕ → Call Any
  sets_error : String → String → String → Call Any
  sets_step : String → String → StepRun Any → Call Any

-- The start and the end that a run has after it was put into a state.
abbrev pub new_start : Option ℕ → RunState → ℕ → Option ℕ
new_start (some t) to at = some t
new_start none running at = some at
new_start none succeeded at = some at
new_start none failed at = some at
new_start none _ at = none

abbrev pub new_end : Option ℕ → Option ℕ → RunState → ℕ → Option ℕ
new_end start old cancelled at = some at
new_end start old timed_out at = some at
new_end (some t) old succeeded at = some at
new_end (some t) old failed at = some at
new_end start old _ at = old

module _ {Any : Type 0} where
  abbrev pub space_of : Call Any → String
  space_of (creates r) = r.namespace
  space_of (sets_state namespace id to at) = namespace
  space_of (sets_error namespace id message) = namespace
  space_of (sets_step namespace id step) = namespace

  abbrev pub id_of : Call Any → String
  id_of (creates r) = r.id
  id_of (sets_state namespace id to at) = id
  id_of (sets_error namespace id message) = id
  id_of (sets_step namespace id step) = id

  -- The place of the first step of that ID.
  unfoldable pub place_of : String → List (StepRun Any) → Option ℕ
  place_of id [] = none
  place_of id (s ∷ rest) = if s.step_id =? id then some 0 else Option.map suc (place_of id rest)

  -- What a single run, if it is there, becomes by a call on it.
  unfoldable pub write : Option (Run Any) → Call Any → Option (Run Any)
  unfolding place_of
  write none (creates r) = some r
  write none _ = none
  write (some old) (creates r) = some old
  write (some r) (sets_state namespace id to at) = some (record r {
    state = to;
    started_at = new_start r.started_at to at;
    finished_at = new_end r.started_at r.finished_at to at;
  })
  write (some r) (sets_error namespace id message) = some (record r { error = message })
  write (some r) (sets_step namespace id step) = elim (place_of step.step_id r.steps) [
    | none ↦ some r
    | some i ↦ some (record r { steps = set r.steps i step })
  ]

  -- The run of that namespace and ID after the calls that give them; the others do not matter.
  unfoldable pub register_run :
      String → String → Option (Run Any) → List (Call Any) → Option (Run Any)
  unfolding write
  register_run namespace id r [] = r
  register_run namespace id r (c ∷ cs) =
      register_run namespace id
        (if (space_of c =? namespace) && (id_of c =? id) then write r c else r) cs

  -- The answer of `GetRun`.
  abbrev pub answer : Option (Run Any) → Error ⊎ Run Any
  answer none = inl not_found
  answer (some r) = inr r
