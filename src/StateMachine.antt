-- ===== src/StateMachine.antt =====
-- internal/statemachine/statemachine.go: the table of legal run transitions. A hook is a callback
-- of the caller, known here by a value of `H`; the calls made are returned as a list.
pub mod Legal
use tempest.Base.{Bool, true, false, Option, none, some, List, [], ◌∷◌, ◌++◌, map, if◌then◌else◌}
use tempest.Base.GoMap.{lookup, insert}
use tempest.Types.{
  run_state_eq, RunState, pending, queued, running, succeeded, failed, cancelled, timed_out,
  is_terminal,
}

pub data Error : Type 0 where
  illegal_transition terminal_state : Error

abbrev pub Row : Type 0
Row = List (RunState × Bool)

pub record StateMachine {ℓ} (H : Type ℓ) : Type ℓ where
  pub legal : List (RunState × Row)
  pub hooks : List H

-- `sm.legal[from][to] = true`, with the row made first where it is nil.
unfoldable pub allow : List (RunState × Row) → RunState → RunState → List (RunState × Row)
unfolding lookup insert
allow legal from to = elim (lookup legal from) [
  | none ↦ insert legal from (insert [] to true)
  | some row ↦ insert legal from (insert row to true)
]

module _ {ℓ} {H : Type ℓ} where
  unfoldable pub new : StateMachine H
  unfolding allow
  new = record {
    legal =
        allow
          (allow
            (allow
              (allow
                (allow (allow (allow (allow [] pending queued) pending cancelled) queued running)
                  queued cancelled)
                running succeeded)
              running failed)
            running cancelled)
          running timed_out;
    hooks = [];
  }

  unfoldable pub register_hook : StateMachine H → H → StateMachine H
  register_hook sm hook = record sm { hooks = sm.hooks ++ hook ∷ [] }

  unfoldable pub can_transition : StateMachine H → RunState → RunState → Bool
  unfolding is_terminal lookup
  can_transition sm from to = if is_terminal from then false else elim (lookup sm.legal from) [
    | none ↦ false
    | some row ↦ elim (lookup row to) [ none ↦ false | some ok ↦ ok ]
  ]

  -- The error, if any, and the hooks that were called with `(from, to)`, in order.
  unfoldable pub transition :
      StateMachine H → RunState → RunState → Option Error × List (H × RunState × RunState)
  unfolding can_transition
  transition sm from to =
      if is_terminal from
      then (some terminal_state, [])
      else if can_transition sm from to
      then (none, map (λ h. (h, from, to)) sm.hooks)
      else (some illegal_transition, [])
