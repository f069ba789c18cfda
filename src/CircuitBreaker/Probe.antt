-- ===== src/CircuitBreaker/Probe.antt =====
-- The half-open state: who is let through, and when it ends.
use tempest.Base.{
  ℕ, zero, suc, ◌+◌, ◌<◌, ◌≡◌, refl, ◌∙◌, Bool, true, false, not, List, arith, ℤ, pos, string_eq,
  nat_eq,
}
use tempest.CircuitBreaker.{
  State, closed, open_state, half_open, Breaker, new, allow, record_success, record_failure,
  state_at, Call, run,
}
use tempest.CircuitBreaker.Trip.{run-new-Inv}

-- Whatever calls came before, a half-open breaker lets every caller through and counts none of
-- them: `halfOpenMax` limits nothing, since nothing adds to `halfOpenCount`.
pub half_open_unlimited :
    (f s w : ℤ) (cs : List Call) (now : ℕ)
    → let b = run (new f s w) cs in b.state ≡ half_open → allow b now ≡ (b, true)
unfolding allow
half_open_unlimited f s w cs now h = ground (arith, run-new-Inv f s w cs)

unfoldable pub is_open : State → Bool
is_open open_state = true
is_open _ = false

-- After any calls, `Allow` admits a caller exactly when `State` does not report the breaker open,
-- and leaves it in the state that was reported.
pub allow-agrees_state_at :
    (f s w : ℤ) (cs : List Call) (now : ℕ)
    → let b = run (new f s w) cs in
      ((allow b now).1 ≡ not (is_open (state_at b now))) × ((allow b now).0.state ≡ state_at b now)
unfolding allow state_at is_open
allow-agrees_state_at f s w cs now = ground (arith, run-new-Inv f s w cs)

unfoldable pub succeed_times : ℕ → Breaker → Breaker
succeed_times zero b = b
succeed_times (suc n) b = succeed_times n (record_success b)

success-counts :
    (b : Breaker) (k : ℕ)
    → b.state ≡ half_open
    → b.success_threshold ≡ pos k
    → b.success_count + 1 < k
    → record_success b ≡ record b { success_count = b.success_count + 1 }
unfolding record_success
success-counts b k h e lt = ground arith

succeed_times-counts :
    (n k : ℕ) (b : Breaker)
    → b.state ≡ half_open
    → b.success_threshold ≡ pos k
    → b.success_count + n < k
    → succeed_times n b ≡ record b { success_count = b.success_count + n }
unfolding succeed_times
succeed_times-counts zero k b h e c = ground arith
succeed_times-counts (suc n) k b h e c = rw (success-counts b k h e (omega arith)) (
    succeed_times-counts n k (record b { success_count = b.success_count + 1 }) h e (omega arith)
    ∙ ground arith)

probe-ends :
    (b : Breaker) (k now : ℕ)
    → b.state ≡ half_open
    → b.success_threshold ≡ pos k
    → b.success_count + 1 ≡ k
    → (record_success b ≡ record b { state = closed; failure_count = 0; success_count = 0 })
      × (record_failure b now ≡ record b {
        state = open_state;
        last_failure = now;
        half_open_count = 0;
        success_count = 0;
      })
unfolding record_success record_failure
probe-ends b k now h e c = (ground arith, ground arith)

-- From half open, n successes short of the threshold k by one more leave the breaker half open and
-- counting; then one more success closes it with both counters at 0, and a failure instead opens
-- it again, at the failure's time, with the successes forgotten.
pub probe_phase :
    (n k : ℕ) (b : Breaker) (now : ℕ)
    → b.state ≡ half_open
    → b.success_threshold ≡ pos k
    → b.success_count + n + 1 ≡ k
    → let c = succeed_times n b in
      (c ≡ record b { success_count = b.success_count + n })
      × (record_success c ≡ record b { state = closed; failure_count = 0; success_count = 0 })
      × (record_failure c now ≡ record b {
        state = open_state;
        last_failure = now;
        half_open_count = 0;
        success_count = 0;
      })
probe_phase n k b now h e c =
    let counted = succeed_times-counts n k b h e (omega arith) in
    let (closes, opens) =
      probe-ends (record b { success_count = b.success_count + n }) k now h e c in
    rw counted (refl, closes, opens)
