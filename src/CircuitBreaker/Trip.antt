-- ===== src/CircuitBreaker/Trip.antt =====
-- When a breaker opens, and how long it stays open.
use tempest.Base.{
  ℕ, ◌+◌, ◌<◌, ◌≡◌, refl, ◌∙◌, false, List, [], ◌∷◌, arith, length, All, ℤ, pos, string_eq, nat_eq,
}
use tempest.CircuitBreaker.{
  closed, open_state, Breaker, reached, waited, new, allow, record_failure, Call, allows, failures,
  successes, resets, step, run,
}

-- `n` failures in a row, the k-th at time `times k`.
unfoldable pub fail_times : Breaker → List ℕ → Breaker
fail_times b [] = b
fail_times b (t ∷ ts) = fail_times (record_failure b t) ts

-- What every call keeps: the settings, the probe counter at 0, and a closed breaker's failures
-- below its threshold.
pub record Inv (f s w : ℤ) (b : Breaker) : Type 0 where
  pub failure_setting : b.failure_threshold ≡ f
  pub success_setting : b.success_threshold ≡ s
  pub timeout_setting : b.timeout ≡ w
  pub probes_uncounted : b.half_open_count ≡ 0
  pub probe_limit : b.half_open_max ≡ 1
  pub below : b.state ≡ closed → 0 < b.failure_count → reached b.failure_count f ≡ false
  pub closed_clean : b.state ≡ closed → b.success_count ≡ 0

pub step-Inv : (f s w : ℤ) (b : Breaker) (c : Call) → Inv f s w b → Inv f s w (step b c)
unfolding step
step-Inv f s w b (allows now) v = ground arith
step-Inv f s w b _ v = ground arith

pub run-Inv : (f s w : ℤ) (b : Breaker) (cs : List Call) → Inv f s w b → Inv f s w (run b cs)
unfolding run
run-Inv f s w b [] v = v
run-Inv f s w b (c ∷ cs) v = run-Inv f s w (step b c) cs (step-Inv f s w b c v)

pub new-Inv : (f s w : ℤ) → Inv f s w (new f s w)
unfolding new
new-Inv f s w = ground arith

-- After any calls, the settings are those given to `New`, the probe counter is 0, and a closed
-- breaker has counted failures strictly short of its threshold.
pub run-new-Inv : (f s w : ℤ) (cs : List Call) → Inv f s w (run (new f s w) cs)
run-new-Inv f s w cs = run-Inv f s w (new f s w) cs (new-Inv f s w)

failure-counts :
    (b : Breaker) (k t : ℕ)
    → b.state ≡ closed
    → b.failure_threshold ≡ pos k
    → b.failure_count + 1 < k
    → record_failure b t ≡ record b { failure_count = b.failure_count + 1 }
unfolding record_failure
failure-counts b k t h e lt = ground arith

-- Fewer failures than the threshold needs leave a closed breaker closed, and are counted.
pub below_threshold_closed :
    (b : Breaker) (k : ℕ) (ts : List ℕ)
    → b.state ≡ closed
    → b.failure_threshold ≡ pos k
    → b.failure_count + length ts < k
    → fail_times b ts ≡ record b { failure_count = b.failure_count + length ts }
unfolding fail_times
below_threshold_closed b k [] h e c = ground arith
below_threshold_closed b k (t ∷ ts) h e c = rw (failure-counts b k t h e (omega arith)) (
    below_threshold_closed (record b { failure_count = b.failure_count + 1 }) k ts h e (omega arith)
    ∙ ground arith)

-- No reset, and every `Allow` comes before the timeout is over.
abbrev pub IsEarly : Breaker → Call → Type 0
IsEarly b (allows now) = waited now b.last_failure b.timeout ≡ false
IsEarly b (failures now) = Unit
IsEarly b successes = Unit
IsEarly b resets = ⊥

step_early : (b : Breaker) (c : Call) → b.state ≡ open_state → IsEarly b c → step b c ≡ b
unfolding step
step_early b (allows now) h e = ground arith
step_early b (failures now) h e = ground arith
step_early b successes h e = ground arith
step_early b resets h e = absurd e

refuse :
    (b : Breaker) (now : ℕ)
    → b.state ≡ open_state
    → waited now b.last_failure b.timeout ≡ false
    → allow b now ≡ (b, false)
unfolding allow
refuse b now h w = ground arith

-- Until its timeout is over or it is reset, an open breaker refuses every `Allow`, and no call
-- changes it.
pub open_holds :
    (b : Breaker) (cs : List Call)
    → b.state ≡ open_state
    → All (IsEarly b) cs
    → (run b cs ≡ b)
      × ((now : ℕ) → waited now b.last_failure b.timeout ≡ false → allow b now ≡ (b, false))
unfolding run
open_holds b [] h early = (refl, λ now w. refuse b now h w)
open_holds b (c ∷ cs) h early =
    let (same, refuses) = open_holds b cs h early.1 in (rw (step_early b c h early.0) same, refuses)
