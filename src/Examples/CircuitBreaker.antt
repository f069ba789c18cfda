-- ===== src/Examples/CircuitBreaker.antt =====
-- Runs of the circuit breaker.
use tempest.Base.{◌≡◌, refl, true, not, List, [], ◌∷◌, pos, string_eq, nat_eq}
use tempest.CircuitBreaker.{
  closed, open_state, half_open, Breaker, new, allow, record_success, record_failure, state_at,
  Call, allows, failures, run, step,
}
use tempest.CircuitBreaker.Probe.{
  half_open_unlimited, is_open, allow-agrees_state_at, succeed_times, probe_phase,
}

-- Three failures open it, two successes close it, and it waits 100 in between.
abbrev fresh : Breaker
fresh = record {
  state = closed;
  failure_count = 0;
  success_count = 0;
  failure_threshold = pos 3;
  success_threshold = pos 2;
  timeout = pos 100;
  last_failure = 0;
  half_open_max = 1;
  half_open_count = 0;
}

abbrev tripped : Breaker
tripped = record fresh { state = open_state; failure_count = 3; last_failure = 30 }

abbrev probing : Breaker
probing = record tripped { state = half_open }

abbrev to_half_open : List Call
to_half_open = failures 10 ∷ failures 20 ∷ failures 30 ∷ allows 200 ∷ allows 201 ∷ []

half_open_unlimited_example :
    let b = run (new (pos 3) (pos 2) (pos 100)) to_half_open in allow b 202 ≡ (b, true)
unfolding run new step
half_open_unlimited_example = half_open_unlimited (pos 3) (pos 2) (pos 100) to_half_open 202 refl

allow-agrees_state_at_example :
    let b = run (new (pos 3) (pos 2) (pos 100)) to_half_open in
    ((allow b 202).1 ≡ not (is_open (state_at b 202))) × ((allow b 202).0.state ≡ state_at b 202)
allow-agrees_state_at_example = allow-agrees_state_at (pos 3) (pos 2) (pos 100) to_half_open 202

probe_phase_example :
    let c = succeed_times 1 probing in
    (c ≡ record probing { success_count = 1 })
    × (record_success c ≡ record probing { state = closed; failure_count = 0; success_count = 0 })
    × (record_failure c 300 ≡ record probing {
      state = open_state;
      last_failure = 300;
      half_open_count = 0;
      success_count = 0;
    })
probe_phase_example = probe_phase 1 2 probing 300 refl refl refl
