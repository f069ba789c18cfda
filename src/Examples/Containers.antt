-- ===== src/Examples/Containers.antt =====
-- Runs of the ring buffer.
use tempest.Base.{ℕ, ◌≡◌, refl, true, false, List, [], ◌∷◌, pos, string_eq, nat_eq}
use tempest.RingBuffer.{new}
use tempest.RingBuffer.Queue.{
  Call, pushes, pops, lists, accepted, took, listed, run, queue_run, queue_step, ring_refines_queue,
}

abbrev calls : List (Call ℕ)
calls = pushes 1 ∷ pushes 2 ∷ pushes 3 ∷ pops ∷ pushes 4 ∷ lists ∷ []

-- Room for two: the third push is refused.
ring_refines_queue_example : run 0 (new 0 (pos 2)) calls ≡ queue_run 0 2 [] calls
ring_refines_queue_example = ring_refines_queue 0 (pos 2) calls

run_calls :
    queue_run 0 2 [] calls
    ≡ accepted true
      ∷ accepted true
      ∷ accepted false
      ∷ took 1 true
      ∷ accepted true
      ∷ listed (2 ∷ 4 ∷ [])
      ∷ []
unfolding queue_run queue_step
run_calls = refl
