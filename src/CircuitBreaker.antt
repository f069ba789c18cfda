-- ===== src/CircuitBreaker.antt =====
-- internal/circuitbreaker/circuitbreaker.go: a breaker that opens after failures in a row, lets
-- probes through once its timeout has passed, and closes after enough successes. Each method that
-- reads the clock takes the time, in nanoseconds; the mutex makes each method one step.
pub mod Trip
pub mod Probe
use tempest.Base.{
  ℕ, ◌+◌, ◌-◌, Bool, true, false, List, [], ◌∷◌, ltb, leb, if◌then◌else◌, ℤ, pos, negsuc,
}

pub data State : Type 0 where
  closed open_state half_open : State

pub record Breaker : Type 0 where
  pub state : State
  pub failure_count : ℕ
  pub success_count : ℕ
  pub failure_threshold : ℤ
  pub success_threshold : ℤ
  pub timeout : ℤ
  pub last_failure : ℕ
  pub half_open_max : ℕ
  pub half_open_count : ℕ

-- `count >= threshold` for a counter and an `int` of the caller's choice.
abbrev pub reached : ℕ → ℤ → Bool
reached n (pos t) = leb t n
reached n (negsuc t) = true

-- `time.Since(last) > timeout` at time `now`, which does not lie before `last`.
abbrev pub waited : ℕ → ℕ → ℤ → Bool
waited now last (pos t) = ltb t (now - last)
waited now last (negsuc t) = true

-- `New`; the zero `time.Time` of `lastFailure` is 0.
unfoldable pub new : ℤ → ℤ → ℤ → Breaker
new failure_threshold success_threshold timeout = record {
  state = closed;
  failure_count = 0;
  success_count = 0;
  failure_threshold = failure_threshold;
  success_threshold = success_threshold;
  timeout = timeout;
  last_failure = 0;
  half_open_max = 1;
  half_open_count = 0;
}

allow_in : State → Breaker → ℕ → Breaker × Bool
allow_in closed b now = (b, true)
allow_in open_state b now =
    if waited now b.last_failure b.timeout
    then (record b { state = half_open; half_open_count = 0; success_count = 0 }, true)
    else (b, false)
allow_in half_open b now = (b, ltb b.half_open_count b.half_open_max)

unfoldable pub allow : Breaker → ℕ → Breaker × Bool
unfolding allow_in
allow b now = allow_in b.state b now

success_in : State → Breaker → Breaker
success_in closed b = record b { failure_count = 0 }
success_in open_state b = b
success_in half_open b =
    if reached (b.success_count + 1) b.success_threshold
    then record b { state = closed; failure_count = 0; success_count = 0 }
    else record b { success_count = b.success_count + 1 }

unfoldable pub record_success : Breaker → Breaker
unfolding success_in
record_success b = success_in b.state b

failure_in : State → Breaker → ℕ → Breaker
failure_in closed b now =
    if reached (b.failure_count + 1) b.failure_threshold
    then record b { failure_count = b.failure_count + 1; state = open_state; last_failure = now }
    else record b { failure_count = b.failure_count + 1 }
failure_in open_state b now = b
failure_in half_open b now = record b {
  state = open_state;
  last_failure = now;
  half_open_count = 0;
  success_count = 0;
}

unfoldable pub record_failure : Breaker → ℕ → Breaker
unfolding failure_in
record_failure b now = failure_in b.state b now

state_in : State → Breaker → ℕ → State
state_in open_state b now = if waited now b.last_failure b.timeout then half_open else open_state
state_in s b now = s

-- The method `State`, which reports an open breaker as half open once its timeout has passed.
unfoldable pub state_at : Breaker → ℕ → State
unfolding state_in
state_at b now = state_in b.state b now

unfoldable pub reset : Breaker → Breaker
reset b = record b { state = closed; failure_count = 0; success_count = 0; half_open_count = 0 }

-- A caller's calls, each with the time at which it is made.
pub data Call : Type 0 where
  allows failures : ℕ → Call
  successes resets : Call

unfoldable pub step : Breaker → Call → Breaker
unfolding allow record_success record_failure reset
step b (allows now) = (allow b now).0
step b (failures now) = record_failure b now
step b successes = record_success b
step b resets = reset b

unfoldable pub run : Breaker → List Call → Breaker
run b [] = b
run b (c ∷ cs) = run (step b c) cs
