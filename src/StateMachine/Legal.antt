-- ===== src/StateMachine/Legal.antt =====
-- What the table of `New` allows, as a relation, and the lives of a run under it.
use tempest.Base.{
  ℕ, ◌≤◌, ◌<◌, ◌≡◌, refl, sym, ◌∙◌, ◌≢◌, ◌↔◌, Bool, true, false, ◌&&◌, Option, none, some, List, [],
  ◌∷◌, ◌++◌, map, arith, length, string_eq, nat_eq,
}
use mathlib.Core.List.{append-nil, append_assoc}
use tempest.Types.{
  RunState, pending, queued, running, succeeded, failed, cancelled, timed_out, run_state_eq,
  is_terminal,
}
use tempest.StateMachine.{
  StateMachine, new, register_hook, can_transition, transition, terminal_state,
}

-- The transitions that the package documents.
infix 40 ◌⟶◌
pub data ◌⟶◌ : RunState → RunState → Type 0 where
  enqueue : pending ⟶ queued
  drop_pending : pending ⟶ cancelled
  start : queued ⟶ running
  drop_queued : queued ⟶ cancelled
  succeed : running ⟶ succeeded
  fail : running ⟶ failed
  cancel : running ⟶ cancelled
  time_out : running ⟶ timed_out

ruleset edges = (enqueue, drop_pending, start, drop_queued, succeed, fail, cancel, time_out)

-- How many transitions are left at most.
abbrev height : RunState → ℕ
height pending = 3
height queued = 2
height running = 1
height _ = 0

edge_falls : {s t : RunState} → s ⟶ t → height t < height s
edge_falls enqueue = omega arith
edge_falls _ = omega arith

abbrev pub is_none {ℓ} : {A : Type ℓ} → Option A → Bool
is_none none = true
is_none (some a) = false

module _ {ℓ} {H : Type ℓ} where
  -- A machine as `New` makes it, with hooks registered one after another.
  unfoldable pub registered : StateMachine H → List H → StateMachine H
  registered sm [] = sm
  registered sm (h ∷ hs) = registered (register_hook sm h) hs

  pub registered-legal : (sm : StateMachine H) (hs : List H) → (registered sm hs).legal ≡ sm.legal
  unfolding registered register_hook
  registered-legal sm [] = refl
  registered-legal sm (h ∷ hs) = registered-legal (register_hook sm h) hs

  pub registered-hooks :
      (sm : StateMachine H) (hs : List H) → (registered sm hs).hooks ≡ sm.hooks ++ hs
  unfolding registered register_hook
  registered-hooks sm [] = sym (append-nil sm.hooks)
  registered-hooks sm (h ∷ hs) =
      registered-hooks (register_hook sm h) hs ∙ append_assoc sm.hooks (h ∷ []) hs

  can_transition-sound :
      (sm : StateMachine H) (s t : RunState)
      → sm.legal ≡ (new {H = H}).legal
      → can_transition sm s t ≡ true
      → s ⟶ t
  unfolding can_transition new
  can_transition-sound sm pending t e h = grind (arith, edges)
  can_transition-sound sm _ t e h = grind (arith, edges)

  can_transition_complete :
      (sm : StateMachine H) {s t : RunState}
      → sm.legal ≡ (new {H = H}).legal
      → s ⟶ t
      → can_transition sm s t ≡ true
  unfolding can_transition new
  can_transition_complete sm e enqueue = ground arith
  can_transition_complete sm e _ = ground arith

  -- Asked in turn from `s`, the machine accepts every one of the targets.
  unfoldable pub accepts : StateMachine H → RunState → List RunState → Bool
  unfolding transition
  accepts sm s [] = true
  accepts sm s (t ∷ ts) = is_none (transition sm s t).0 && accepts sm t ts

  transition-ok :
      (sm : StateMachine H) (s t : RunState)
      → sm.legal ≡ (new {H = H}).legal
      → (transition sm s t).0 ≡ none
      → s ⟶ t
  unfolding transition
  transition-ok sm s t e h = can_transition-sound sm s t e (ground arith)

  transition-accepts :
      (sm : StateMachine H) (s t : RunState)
      → can_transition sm s t ≡ true
      → (transition sm s t).0 ≡ none
  unfolding transition
  transition-accepts sm s t h = ground arith

  transition-terminal :
      (sm : StateMachine H) (s t : RunState)
      → ((transition sm s t).0 ≡ some terminal_state) ↔ (is_terminal s ≡ true)
  unfolding transition
  transition-terminal sm s t = (ground arith, ground arith)

  new_hooks : (new {H = H}).hooks ≡ []
  unfolding new
  new_hooks = refl

  -- `Transition` on a machine from `New`, whatever hooks were registered since: it accepts exactly
  -- the documented transitions; it answers `ErrTerminalState` exactly from a terminal state; when it
  -- accepts, every hook is called once, in the order of registration; when it refuses, none is.
  pub transition_lem :
      (hs : List H) (s t : RunState)
      → let m = registered new hs in
        (((transition m s t).0 ≡ none) ↔ (s ⟶ t))
        × (((transition m s t).0 ≡ some terminal_state) ↔ (is_terminal s ≡ true))
        × ((transition m s t).0 ≡ none → (transition m s t).1 ≡ map (λ h. (h, s, t)) hs)
        × ((transition m s t).0 ≢ none → (transition m s t).1 ≡ [])
  unfolding transition
  transition_lem hs s t =
      let legal = registered-legal new hs in
      (
        (
          transition-ok _ s t legal,
          λ e. transition-accepts _ s t (can_transition_complete (registered new hs) legal e),
        ),
        transition-terminal _ s t,
        ground (arith, registered-hooks new hs, new_hooks),
        ground arith,
      )

  accepts-cons :
      (sm : StateMachine H) (s t : RunState) (ts : List RunState)
      → accepts sm s (t ∷ ts) ≡ true
      → ((transition sm s t).0 ≡ none) × (accepts sm t ts ≡ true)
  unfolding accepts
  accepts-cons sm s t ts h = (ground arith, ground arith)

  accepts-height :
      (sm : StateMachine H) (s : RunState) (ts : List RunState)
      → sm.legal ≡ (new {H = H}).legal
      → accepts sm s ts ≡ true
      → length ts ≤ height s
  unfolding accepts
  accepts-height sm s [] e h = omega arith
  accepts-height sm s (t ∷ ts) e h =
      let (taken, rest) = accepts-cons sm s t ts h in
      omega (arith, edge_falls (transition-ok sm s t e taken), accepts-height sm t ts e rest)

  -- A run makes at most three accepted transitions after it was created as pending.
  pub lifecycle_bounded :
      (hs : List H) (ts : List RunState)
      → accepts (registered new hs) pending ts ≡ true
      → length ts ≤ 3
  lifecycle_bounded hs ts h = accepts-height _ pending ts (registered-legal new hs) h
