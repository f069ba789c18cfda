-- ===== src/RingBuffer/Queue.antt =====
-- The ring behaves, over any calls, as a first-in first-out queue of at most `cap` items.
use tempest.Base.{
  ℕ, ◌<◌, ◌≡◌, refl, sym, ap, ◌∙◌, inl, inr, Bool, true, false, List, [], ◌∷◌, ◌++◌, arith, ltb,
  lt→ltb, ◌==◌, if◌then◌else◌, Bool-cases, length, ℤ, positive_or, string_eq, nat_eq,
}
use native.Mathlib.Nat.{mod-eq_of_lt}
use tempest.RingBuffer.{
  RingBuffer, new, push, pop, peek, items, items_from, len, full, empty, clear,
}
use tempest.RingBuffer.Circle.{
  Inv, pushed-Inv, popped-Inv, new-Inv, items-pushed, items-popped, length-items,
}

pub data Call {ℓ} (T : Type ℓ) : Type ℓ where
  pushes : T → Call T
  pops peeks lists measures clears : Call T

pub data Reply {ℓ} (T : Type ℓ) : Type ℓ where
  accepted : Bool → Reply T
  took : T → Bool → Reply T
  listed : List T → Reply T
  measured : ℕ → Bool → Bool → Reply T
  done : Reply T

module _ {ℓ} {T : Type ℓ} (z : T) where
  -- One call of the ring: what it returns, and the ring after it.
  unfoldable pub step : RingBuffer T → Call T → Reply T × RingBuffer T
  step rb (pushes x) = let (ok, rb') = push rb x in (accepted ok, rb')
  step rb pops = let ((x, ok), rb') = pop z rb in (took x ok, rb')
  step rb peeks = let (x, ok) = peek z rb in (took x ok, rb)
  step rb lists = (listed (items z rb), rb)
  step rb measures = (measured (len rb) (full rb) (empty rb), rb)
  step rb clears = (done, clear rb)

  unfoldable pub run : RingBuffer T → List (Call T) → List (Reply T)
  run rb [] = []
  run rb (c ∷ cs) = let (r, rb') = step rb c in r ∷ run rb' cs

  -- The same calls on a list, oldest first.
  unfoldable pub queue_step : ℕ → List T → Call T → Reply T × List T
  queue_step cap q (pushes x) =
      if ltb (length q) cap then (accepted true, q ++ x ∷ []) else (accepted false, q)
  queue_step cap [] pops = (took z false, [])
  queue_step cap (x ∷ q) pops = (took x true, q)
  queue_step cap [] peeks = (took z false, [])
  queue_step cap (x ∷ q) peeks = (took x true, x ∷ q)
  queue_step cap q lists = (listed q, q)
  queue_step cap q measures = (measured (length q) (length q == cap) (length q == 0), q)
  queue_step cap q clears = (done, [])

  unfoldable pub queue_run : ℕ → List T → List (Call T) → List (Reply T)
  queue_run cap q [] = []
  queue_run cap q (c ∷ cs) = let (r, q') = queue_step cap q c in r ∷ queue_run cap q' cs

  -- One call on the ring is the same call on its listing, and keeps the ring sound.
  abbrev Simulates : RingBuffer T → Call T → Type ℓ
  Simulates rb c =
      (queue_step rb.max_cap (items z rb) c ≡ ((step rb c).0, items z (step rb c).1))
      × Inv (step rb c).1
      × ((step rb c).1.max_cap ≡ rb.max_cap)

  items_empty : (rb : RingBuffer T) → rb.count ≡ 0 → items z rb ≡ []
  unfolding items items_from
  items_empty rb e = ap (items_from z rb 0) e

  push-Simulates : (rb : RingBuffer T) (x : T) → Inv rb → Simulates rb (pushes x)
  unfolding step push queue_step
  push-Simulates rb x v = elim (Bool-cases (rb.count == rb.max_cap)) [
    | inl filled ↦
        let no_room : ltb rb.count rb.max_cap ≡ false = ground arith in
        rw (filled, length-items z rb, no_room) (refl, v, refl)
    | inr free ↦
        let room : rb.count < rb.max_cap = ground (arith, v.count_in) in
        rw (free, length-items z rb, lt→ltb rb.count rb.max_cap room, items-pushed z rb x v room)
          (refl, pushed-Inv rb x v room, refl)
  ]

  pop-Simulates : (rb : RingBuffer T) → Inv rb → Simulates rb pops
  unfolding step pop queue_step
  pop-Simulates rb v = elim (Bool-cases (rb.count == 0)) [
    | inl none_left ↦ rw (none_left, items_empty rb (ground arith)) (refl, v, refl)
    | inr some_left ↦
        let left : 0 < rb.count = ground arith in
        rw (some_left, items-popped z rb v left) (refl, popped-Inv rb v left, refl)
  ]

  peek-Simulates : (rb : RingBuffer T) → Inv rb → Simulates rb peeks
  unfolding step peek queue_step
  peek-Simulates rb v = elim (Bool-cases (rb.count == 0)) [
    | inl none_left ↦ rw (none_left, items_empty rb (ground arith)) (refl, v, refl)
    | inr some_left ↦
        let left : 0 < rb.count = ground arith in
        rw (some_left, items-popped z rb v left) (refl, v, refl)
  ]

  clear-Inv : (rb : RingBuffer T) → Inv rb → Inv (clear rb)
  unfolding clear
  clear-Inv rb v = record {
    room = v.room;
    sized = v.sized;
    tail_in = v.room;
    count_in = omega arith;
    head_at = sym (mod-eq_of_lt v.room);
  }

  step-Simulates : (rb : RingBuffer T) (c : Call T) → Inv rb → Simulates rb c
  unfolding step queue_step len full empty clear
  step-Simulates rb (pushes x) v = push-Simulates rb x v
  step-Simulates rb pops v = pop-Simulates rb v
  step-Simulates rb peeks v = peek-Simulates rb v
  step-Simulates rb lists v = (refl, v, refl)
  step-Simulates rb measures v = (rw (length-items z rb), v, refl)
  step-Simulates rb clears v =
      (ap (λ l. (done, l)) (sym (items_empty (clear rb) refl)), clear-Inv rb v, refl)

  run-Simulates :
      (rb : RingBuffer T) (cs : List (Call T))
      → Inv rb
      → queue_run rb.max_cap (items z rb) cs ≡ run rb cs
  unfolding run queue_run
  run-Simulates rb [] v = refl
  run-Simulates rb (c ∷ cs) v =
      let (same, kept, sized) = step-Simulates rb c v in
      ap (λ (p : Reply T × List T). p.0 ∷ queue_run rb.max_cap p.1 cs) same
      ∙ ap (λ k. (step rb c).0 ∷ queue_run k (items z (step rb c).1) cs) (sym sized)
      ∙ ap (λ l. (step rb c).0 ∷ l) (run-Simulates (step rb c).1 cs kept)

  -- A ring made by `New` answers any calls just as a queue of the requested capacity does, or of 64
  -- where the request is not positive: pushes are refused exactly when it is full, and items come
  -- out in the order in which they went in.
  pub ring_refines_queue :
      (capacity : ℤ) (cs : List (Call T))
      → run (new z capacity) cs ≡ queue_run (positive_or 64 capacity) [] cs
  unfolding new
  ring_refines_queue capacity cs =
      sym (run-Simulates (new z capacity) cs (new-Inv z capacity))
      ∙ ap (λ l. queue_run (positive_or 64 capacity) l cs) (items_empty (new z capacity) refl)
