-- ===== src/RingBuffer.antt =====
-- internal/ringbuffer/ringbuffer.go: a fixed array used as a circle. `z` is the zero value of `T`;
-- the mutex makes each method one step.
pub mod Circle
pub mod Queue
use tempest.Base.{
  ℕ, zero, suc, ◌+◌, ◌-◌, ◌%◌, Bool, true, false, List, [], ◌∷◌, ◌==◌, if◌then◌else◌, get_or, set,
  replicate, ℤ, positive_or,
}

pub record RingBuffer {ℓ} (T : Type ℓ) : Type ℓ where
  pub buf : List T
  pub head : ℕ
  pub tail : ℕ
  pub count : ℕ
  pub max_cap : ℕ

module _ {ℓ} {T : Type ℓ} (z : T) where
  unfoldable pub new : ℤ → RingBuffer T
  new capacity =
      let cap = positive_or 64 capacity in
      record { buf = replicate cap z; head = 0; tail = 0; count = 0; max_cap = cap }

  unfoldable pub pop : RingBuffer T → (T × Bool) × RingBuffer T
  pop rb = if rb.count == 0 then ((z, false), rb) else (
    (get_or rb.buf rb.tail z, true),
    record rb { tail = (rb.tail + 1) % rb.max_cap; count = rb.count - 1 },
  )

  unfoldable pub peek : RingBuffer T → T × Bool
  peek rb = if rb.count == 0 then (z, false) else (get_or rb.buf rb.tail z, true)

  -- The loop of `Items` from index `i`, with `n` rounds left.
  unfoldable pub items_from : RingBuffer T → ℕ → ℕ → List T
  items_from rb i zero = []
  items_from rb i (suc n) = get_or rb.buf ((rb.tail + i) % rb.max_cap) z ∷ items_from rb (i + 1) n

  unfoldable pub items : RingBuffer T → List T
  unfolding items_from
  items rb = items_from rb 0 rb.count

module _ {ℓ} {T : Type ℓ} where
  unfoldable pub push : RingBuffer T → T → Bool × RingBuffer T
  push rb item = if rb.count == rb.max_cap then (false, rb) else (
    true,
    record rb {
      buf = set rb.buf rb.head item;
      head = (rb.head + 1) % rb.max_cap;
      count = rb.count + 1;
    },
  )

  unfoldable pub len : RingBuffer T → ℕ
  len rb = rb.count

  unfoldable pub cap : RingBuffer T → ℕ
  cap rb = rb.max_cap

  unfoldable pub full : RingBuffer T → Bool
  full rb = rb.count == rb.max_cap

  unfoldable pub empty : RingBuffer T → Bool
  empty rb = rb.count == 0

  -- `Clear` leaves the array as it is.
  unfoldable pub clear : RingBuffer T → RingBuffer T
  clear rb = record rb { head = 0; tail = 0; count = 0 }
