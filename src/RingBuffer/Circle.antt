-- ===== src/RingBuffer/Circle.antt =====
-- The indices stay on the circle, and what `Items` lists is what was pushed and not popped.
use tempest.Base.{
  wrap_lem, ℕ, zero, suc, ◌+◌, ◌-◌, ◌%◌, ◌≤◌, ◌<◌, ◌≡◌, refl, sym, ap, ◌∙◌, ◌≢◌, inl, inr, [], ◌∷◌,
  ◌++◌, arith, ◌==◌, Bool-cases, length, get_or, set, length-set, get_or-set_self, get_or-set_ne,
  length-replicate, ℤ, positive_or, positive_or_pos, string_eq, nat_eq,
}
use native.Mathlib.Numerals.{add-one}
use native.Mathlib.Nat.{mod-lt, mod-eq_of_lt, mod-add-mod}
use tempest.RingBuffer.{RingBuffer, new, pop, items_from, items}

-- Distinct offsets below the capacity name distinct cells.
cells_differ : (t i n c : ℕ) → t < c → i < n → n < c → (t + n) % c ≢ (t + i) % c
cells_differ t i n c ht hi hn = ground (arith, wrap_lem (t + i) c, wrap_lem (t + n) c)

pub record Inv {ℓ} {T : Type ℓ} (rb : RingBuffer T) : Type 0 where
  pub room : 0 < rb.max_cap
  pub sized : length rb.buf ≡ rb.max_cap
  pub tail_in : rb.tail < rb.max_cap
  pub count_in : rb.count ≤ rb.max_cap
  pub head_at : rb.head ≡ (rb.tail + rb.count) % rb.max_cap

-- A ring after a `Push` that finds room, and after a `Pop` that finds an item.
abbrev pub pushed {ℓ} : {T : Type ℓ} → RingBuffer T → T → RingBuffer T
pushed rb x = record rb {
  buf = set rb.buf rb.head x;
  head = (rb.head + 1) % rb.max_cap;
  count = rb.count + 1;
}

abbrev pub popped {ℓ} : {T : Type ℓ} → RingBuffer T → RingBuffer T
popped rb = record rb { tail = (rb.tail + 1) % rb.max_cap; count = rb.count - 1 }

pub popped-Inv {ℓ} : {T : Type ℓ} (rb : RingBuffer T) → Inv rb → 0 < rb.count → Inv (popped rb)
popped-Inv rb v some_item = record {
  room = v.room;
  sized = v.sized;
  tail_in = mod-lt (rb.tail + 1) v.room;
  count_in = omega (arith, v.count_in);
  head_at =
      v.head_at
      ∙ ap (λ k. k % rb.max_cap) (omega arith)
      ∙ sym (mod-add-mod (rb.tail + 1) rb.max_cap (rb.count - 1));
}

pub pushed-Inv {ℓ} :
    {T : Type ℓ} (rb : RingBuffer T) (x : T) → Inv rb → rb.count < rb.max_cap → Inv (pushed rb x)
pushed-Inv rb x v free = record {
  room = v.room;
  sized = length-set rb.buf rb.head x ∙ v.sized;
  tail_in = v.tail_in;
  count_in = omega arith;
  head_at =
      ap (λ k. (k + 1) % rb.max_cap) v.head_at
      ∙ mod-add-mod (rb.tail + rb.count) rb.max_cap 1
      ∙ ap (λ k. k % rb.max_cap) (omega arith);
}

module _ {ℓ} {T : Type ℓ} (z : T) where
  pub new-Inv : (capacity : ℤ) → Inv (new z capacity)
  unfolding new
  new-Inv capacity =
      let positive = positive_or_pos 64 capacity (omega arith) in
      record {
        room = positive;
        sized = length-replicate (positive_or 64 capacity) z;
        tail_in = positive;
        count_in = omega arith;
        head_at = sym (mod-eq_of_lt positive);
      }

  pub pop-Inv : (rb : RingBuffer T) → Inv rb → Inv (pop z rb).1
  unfolding pop
  pop-Inv rb v = elim (Bool-cases (rb.count == 0)) [
    | inl e ↦ rw e v
    | inr e ↦ rw e (popped-Inv rb v (ground arith))
  ]

  -- After a pop the same cells are read, one index further.
  items_from-pop :
      (rb : RingBuffer T) (i n : ℕ) → items_from z (popped rb) i n ≡ items_from z rb (i + 1) n
  unfolding items_from
  items_from-pop rb i zero = refl
  items_from-pop rb i (suc n) =
      let same : ((rb.tail + 1) % rb.max_cap + i) % rb.max_cap ≡ (rb.tail + (i + 1)) % rb.max_cap =
        mod-add-mod (rb.tail + 1) rb.max_cap i ∙ ap (λ k. k % rb.max_cap) (omega arith) in
      λ j. get_or rb.buf (same j) z ∷ items_from-pop rb (i + 1) n j

  items_from-push :
      (rb : RingBuffer T) (x : T) (i n : ℕ)
      → Inv rb
      → rb.count < rb.max_cap
      → i + n ≤ rb.count
      → items_from z (pushed rb x) i n ≡ items_from z rb i n
  unfolding items_from
  items_from-push rb x i zero v room h = refl
  items_from-push rb x i (suc n) v room h =
      let kept : get_or (set rb.buf rb.head x) (cell i) z ≡ get_or rb.buf (cell i) z =
        get_or-set_ne rb.buf rb.head (cell i) x z (apart i (omega arith)) in
      λ j. kept j ∷ items_from-push rb x (i + 1) n v room (omega arith) j
    where
      cell : ℕ → ℕ
      cell k = (rb.tail + k) % rb.max_cap

      apart : (k : ℕ) → k < rb.count → rb.head ≢ cell k
      apart k below e =
          cells_differ rb.tail k rb.count rb.max_cap v.tail_in below room (sym v.head_at ∙ e)

  items_from-last :
      (rb : RingBuffer T) (i n : ℕ)
      → items_from z rb i (suc n)
        ≡ items_from z rb i n ++ get_or rb.buf ((rb.tail + (i + n)) % rb.max_cap) z ∷ []
  unfolding items_from
  items_from-last rb i zero =
      ap (λ k. get_or rb.buf ((rb.tail + k) % rb.max_cap) z ∷ []) (omega arith)
  items_from-last rb i (suc n) =
      ap (λ l. get_or rb.buf ((rb.tail + i) % rb.max_cap) z ∷ l)
        (items_from-last rb (i + 1) n
          ∙ ap (λ k. items_from z rb (i + 1) n ++ get_or rb.buf ((rb.tail + k) % rb.max_cap) z ∷ [])
              (omega arith))

  length-items_from : (rb : RingBuffer T) (i n : ℕ) → length (items_from z rb i n) ≡ n
  unfolding items_from
  length-items_from rb i zero = refl
  length-items_from rb i (suc n) = ap suc (length-items_from rb (i + 1) n)

  pub length-items : (rb : RingBuffer T) → length (items z rb) ≡ rb.count
  unfolding items
  length-items rb = length-items_from rb 0 rb.count

  -- A push that finds room puts its item at the end of the listing.
  pub items-pushed :
      (rb : RingBuffer T) (x : T)
      → Inv rb
      → rb.count < rb.max_cap
      → items z (pushed rb x) ≡ items z rb ++ x ∷ []
  unfolding items
  items-pushed rb x v room =
      ap (items_from z (pushed rb x) 0) (add-one rb.count)
      ∙ items_from-last (pushed rb x) 0 rb.count
      ∙ λ j. items_from-push rb x 0 rb.count v room (omega arith) j ++ written j ∷ []
    where
      written : get_or (set rb.buf rb.head x) ((rb.tail + (0 + rb.count)) % rb.max_cap) z ≡ x
      written =
          let here : (rb.tail + (0 + rb.count)) % rb.max_cap ≡ rb.head =
            ap (λ k. k % rb.max_cap) (omega arith) ∙ sym v.head_at in
          rw here (
            get_or-set_self rb.buf rb.head x z
              (omega (arith, v.sized, v.head_at, mod-lt (rb.tail + rb.count) v.room)))

  -- A pop that finds an item takes the head of the listing.
  pub items-popped :
      (rb : RingBuffer T)
      → Inv rb
      → 0 < rb.count
      → items z rb ≡ get_or rb.buf rb.tail z ∷ items z (popped rb)
  unfolding items items_from
  items-popped rb v some_item =
      let one_more : rb.count ≡ suc (rb.count - 1) = omega arith in
      let front : (rb.tail + 0) % rb.max_cap ≡ rb.tail =
        ap (λ k. k % rb.max_cap) (omega arith) ∙ mod-eq_of_lt v.tail_in in
      ap (items_from z rb 0) one_more ∙ λ j.
      get_or rb.buf (front j) z ∷ sym (items_from-pop rb 0 (rb.count - 1)) j
