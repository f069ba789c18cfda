-- ===== src/Examples/StateMachine.antt =====
-- Runs of the state machine and of the state texts.
use tempest.Base.{
  ℕ, ◌≤◌, ◌≡◌, refl, ◌≢◌, ◌↔◌, true, none, some, List, [], ◌∷◌, map, length, string_eq, nat_eq,
}
use tempest.Types.{RunState, is_terminal, queued, running, succeeded}
use tempest.StateMachine.{new, transition, terminal_state}
use tempest.StateMachine.Legal.{◌⟶◌, registered, accepts, transition_lem, lifecycle_bounded}

-- A text that is read as it stands.
-- Two hooks, 7 and 9, and the start of a queued run.
transition_lem_example :
    let m = registered {H = ℕ} new (7 ∷ 9 ∷ []) in
    (((transition m queued running).0 ≡ none) ↔ (queued ⟶ running))
    × (((transition m queued running).0 ≡ some terminal_state) ↔ (is_terminal queued ≡ true))
    × ((transition m queued running).0 ≡ none
        → (transition m queued running).1 ≡ map {A = ℕ} (λ h. (h, queued, running)) (7 ∷ 9 ∷ []))
    × ((transition m queued running).0 ≢ none → (transition m queued running).1 ≡ [])
transition_lem_example = transition_lem (7 ∷ 9 ∷ []) queued running

abbrev whole_life : List RunState
whole_life = queued ∷ running ∷ succeeded ∷ []

lifecycle_bounded_example : length whole_life ≤ 3
unfolding accepts new registered transition
lifecycle_bounded_example = lifecycle_bounded {H = ℕ} [] whole_life refl
