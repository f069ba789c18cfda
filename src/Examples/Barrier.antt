-- ===== src/Examples/Barrier.antt =====
-- Runs of a barrier.
use tempest.Base.{
  ◌<◌, ◌≡◌, refl, false, none, some, List, [], ◌∷◌, arith, ltb→lt, pos, int_eq, string_eq, nat_eq,
}
use tempest.Base.GoMap.{lookup, insert}
use tempest.Barrier.{
  barrier_broken, from_caller, Barrier, new, arrive, waits, wake, break_locked, reset,
}
use tempest.Barrier.Calls.{Call, arrives, cancels, run, joined}
use tempest.Barrier.Release.{released_together, reset_hides_break}

abbrev of_two : Barrier
of_two = record { threshold = 2; arrived = []; generation = 0; broken = false; broken_err = none }

abbrev two_and_one : List Call
two_and_one = arrives "a" 1 ∷ arrives "a" 2 ∷ arrives "b" 3 ∷ arrives "c" 4 ∷ []

arrive_runs :
    ((arrive of_two "a" 1).0 ≡ waits 0)
    × (wake (run of_two (arrives "a" 1 ∷ [])) 0 ≡ none)
    × (wake (run of_two (arrives "a" 1 ∷ cancels 0 (from_caller "late") ∷ [])) 0
        ≡ some (some (from_caller "late")))
unfolding arrive wake run lookup insert
arrive_runs = (refl, refl, refl)

released_together_example : (joined of_two two_and_one 0 ≡ 2) × (0 < 2)
unfolding new wake run joined lookup insert
released_together_example =
    released_together (pos 2) of_two two_and_one 0 refl (omega arith) (ltb→lt 0 2 refl) refl

reset_hides_break_example :
    (wake (break_locked of_two (some barrier_broken)) 0 ≡ some (some barrier_broken))
    × (wake (reset (break_locked of_two (some barrier_broken))) 0 ≡ some none)
reset_hides_break_example = reset_hides_break of_two barrier_broken refl (omega arith)
