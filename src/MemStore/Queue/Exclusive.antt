-- ===== src/MemStore/Queue/Exclusive.antt =====
-- An item that was dequeued is nobody else's while its lease lasts.
use tempest.Base.{
  ℕ, ◌+◌, ◌≤◌, String, ◌≡◌, refl, sym, ap, ◌∙◌, subst, ◌⊎◌, inl, inr, Bool, true, false, Option,
  none, some, List, [], ◌∷◌, arith, Option-cases, All, ℤ, ◌=?◌, string_eq, nat_eq,
}
use tempest.Base.GoMap.{lookup, insert, erase, lookup-erase, lookup-insert_ne}
use tempest.Types.Events.{QueueItem}
use tempest.MemStore.{Store, new}
use tempest.MemStore.Keys.{queue_key}
use tempest.MemStore.Queue.{
  QueueLease, lease_time, enqueue, dequeue, dequeue_any, complete_step, release_step,
  requeue_with_delay,
}
use tempest.MemStore.Queue.Visibility.{
  Items, key_of, IsKeyed, insert-IsKeyed, erase-IsKeyed, taken, taken-IsKeyed, taken-hidden,
  taken-leased,
}
use mathlib.Core.List.{Memᴰ}

-- The calls on the queue. `dequeues` is Dequeue in a namespace, or DequeueAny.
pub data Call : Type 0 where
  enqueues : QueueItem → Call
  dequeues : (ℕ → String) → List String → Option String → ℤ → ℕ → Call
  completes : String → String → String → String → Call
  releases : String → String → String → ℕ → Call
  requeues : String → String → String → ℕ → ℤ → Call

abbrev wanted : Option String → QueueItem → Bool
wanted none item = true
wanted (some namespace) item = item.namespace =? namespace

module _ {Any Float : Type 0} where
  unfoldable pub take_leases :
      Store Any Float
      → (ℕ → String)
      → List String
      → Option String
      → ℤ
      → ℕ
      → List QueueLease × Store Any Float
  take_leases s fresh order none limit now = dequeue_any s fresh order limit now
  take_leases s fresh order (some namespace) limit now = dequeue s fresh order namespace limit now

  unfoldable pub step : Store Any Float → Call → Store Any Float
  unfolding take_leases
  step s (enqueues item) = enqueue s item
  step s (dequeues fresh order namespace limit now) =
      (take_leases s fresh order namespace limit now).1
  step s (completes namespace run_id step_id token) =
      (complete_step s namespace run_id step_id token).1
  step s (releases namespace run_id step_id now) = (release_step s namespace run_id step_id now).1
  step s (requeues namespace run_id step_id visible_at attempt) =
      (requeue_with_delay s namespace run_id step_id visible_at attempt).1

  unfoldable pub run : Store Any Float → List Call → Store Any Float
  unfolding step
  run s [] = s
  run s (c ∷ cs) = run (step s c) cs

  take_leases-taken :
      (s : Store Any Float) (fresh : ℕ → String) (order : List String) (ns : Option String)
      (limit : ℤ) (now : ℕ)
      → ((take_leases s fresh order ns limit now).0
          ≡ (taken fresh (wanted ns) limit now order s.queue).0)
        × ((take_leases s fresh order ns limit now).1.queue
            ≡ (taken fresh (wanted ns) limit now order s.queue).1)
  unfolding take_leases dequeue dequeue_any
  take_leases-taken s fresh order none limit now = (refl, refl)
  take_leases-taken s fresh order (some namespace) limit now = (refl, refl)

-- A call that leaves the item at that key to the one who leased it until then: a dequeuing before
-- the lease is over, or a call on another item.
abbrev pub IsQuiet : String → ℕ → Call → Type 0
IsQuiet k until (enqueues item) = (key_of item =? k) ≡ false
IsQuiet k until (dequeues fresh order namespace limit now) = now ≤ until
IsQuiet k until (completes namespace run_id step_id token) =
    (queue_key namespace run_id step_id =? k) ≡ false
IsQuiet k until (releases namespace run_id step_id now) =
    (queue_key namespace run_id step_id =? k) ≡ false
IsQuiet k until (requeues namespace run_id step_id visible_at attempt) =
    (queue_key namespace run_id step_id =? k) ≡ false

-- A call that dequeues nothing edits the queue at one key at most.
abbrev IsEdit : Items → Items → Call → Type 0
IsEdit q q' c =
    (q' ≡ q)
    ⊎ ((k : String) × ((j : String) (until : ℕ) → IsQuiet j until c → (k =? j) ≡ false)
        × ((q' ≡ erase q k) ⊎ ((item : QueueItem) × (key_of item ≡ k) × (q' ≡ insert q k item))))

edit-IsKeyed : (q q' : Items) (c : Call) → IsEdit q q' c → IsKeyed q → IsKeyed q'
edit-IsKeyed q q' c (inl same) v = subst IsKeyed (sym same) v
edit-IsKeyed q q' c (inr (k, apart, inl e)) v = subst IsKeyed (sym e) (erase-IsKeyed q k v)
edit-IsKeyed q q' c (inr (k, apart, inr (item, key, e))) v =
    subst IsKeyed (sym e) (insert-IsKeyed q k item v key)

edit-kept :
    (q q' : Items) (c : Call) (j : String) (until : ℕ) (item : QueueItem)
    → IsEdit q q' c
    → IsQuiet j until c
    → lookup q j ≡ some item
    → lookup q' j ≡ some item
edit-kept q q' c j until item (inl same) quiet h = ap (λ x. lookup x j) same ∙ h
edit-kept q q' c j until item (inr (k, apart, inl e)) quiet h =
    ap (λ x. lookup x j) e ∙ lookup-erase q k j ∙ rw (apart j until quiet) h
edit-kept q q' c j until item (inr (k, apart, inr (new_item, key, e))) quiet h =
    ap (λ x. lookup x j) e ∙ lookup-insert_ne q k j new_item (apart j until quiet) ∙ h

module _ {Any Float : Type 0} where
  complete_step-IsEdit :
      (s : Store Any Float) (ns r st token : String)
      → IsEdit s.queue (complete_step s ns r st token).1.queue (completes ns r st token)
  unfolding complete_step
  complete_step-IsEdit s ns r st token = elim (Option-cases (lookup s.queue (queue_key ns r st))) [
    | inl miss ↦ inl (ground (arith, miss))
    | inr (item, found) ↦
        inr (queue_key ns r st, λ j until quiet. quiet, inl (ground (arith, found)))
  ]

  release_step-IsEdit :
      (s : Store Any Float) (ns r st : String) (now : ℕ)
      → IsKeyed s.queue
      → IsEdit s.queue (release_step s ns r st now).1.queue (releases ns r st now)
  unfolding release_step
  release_step-IsEdit s ns r st now v = elim (Option-cases (lookup s.queue (queue_key ns r st))) [
    | inl miss ↦ inl (ground (arith, miss))
    | inr (item, found) ↦
        let item' : QueueItem = record item { visible_at = now } in
        inr (
          queue_key ns r st,
          λ j until quiet. quiet,
          inr (item', v (queue_key ns r st) item found, ground (arith, found)),
        )
  ]

  requeue_with_delay-IsEdit :
      (s : Store Any Float) (ns r st : String) (visible_at : ℕ) (attempt : ℤ)
      → IsKeyed s.queue
      → IsEdit s.queue
          (requeue_with_delay s ns r st visible_at attempt).1.queue
          (requeues ns r st visible_at attempt)
  unfolding requeue_with_delay
  requeue_with_delay-IsEdit s ns r st visible_at attempt v =
      elim (Option-cases (lookup s.queue (queue_key ns r st))) [
        | inl miss ↦ inl (ground (arith, miss))
        | inr (item, found) ↦
            let item' : QueueItem = record item { visible_at = visible_at; attempt = attempt } in
            inr (
              queue_key ns r st,
              λ j until quiet. quiet,
              inr (item', v (queue_key ns r st) item found, ground (arith, found)),
            )
      ]

  -- A call keeps every item under its key, and leaves an item on which it is quiet.
  step-leaves :
      (s : Store Any Float) (c : Call)
      → IsKeyed s.queue
      → IsKeyed (step s c).queue
        × ((j : String) (item : QueueItem)
            → IsQuiet j item.visible_at c
            → lookup s.queue j ≡ some item
            → lookup (step s c).queue j ≡ some item)
  unfolding step enqueue
  step-leaves s (enqueues item) v =
      let e : IsEdit s.queue (enqueue s item).queue (enqueues item) =
        inr (key_of item, λ j until quiet. quiet, inr (item, refl, refl)) in
      (
        edit-IsKeyed s.queue (enqueue s item).queue (enqueues item) e v,
        λ j it quiet h.
            edit-kept s.queue (enqueue s item).queue (enqueues item) j it.visible_at it e quiet h,
      )
  step-leaves s (dequeues fresh order ns limit now) v =
      let same = (take_leases-taken s fresh order ns limit now).1 in
      (
        subst IsKeyed (sym same) (taken-IsKeyed fresh (wanted ns) limit now order s.queue v),
        λ j it quiet h.
            ap (λ q. lookup q j) same
            ∙ (taken-hidden fresh (wanted ns) limit now order s.queue j it v h quiet).0,
      )
  step-leaves s (completes ns r st token) v =
      let e = complete_step-IsEdit s ns r st token in
      let q' = (complete_step s ns r st token).1.queue in
      (
        edit-IsKeyed s.queue q' (completes ns r st token) e v,
        λ j it quiet h. edit-kept s.queue q' (completes ns r st token) j it.visible_at it e quiet h,
      )
  step-leaves s (releases ns r st now) v =
      let e = release_step-IsEdit s ns r st now v in
      let q' = (release_step s ns r st now).1.queue in
      (
        edit-IsKeyed s.queue q' (releases ns r st now) e v,
        λ j it quiet h. edit-kept s.queue q' (releases ns r st now) j it.visible_at it e quiet h,
      )
  step-leaves s (requeues ns r st visible_at attempt) v =
      let e = requeue_with_delay-IsEdit s ns r st visible_at attempt v in
      let q' = (requeue_with_delay s ns r st visible_at attempt).1.queue in
      (
        edit-IsKeyed s.queue q' (requeues ns r st visible_at attempt) e v,
        λ j it quiet h.
            edit-kept s.queue q' (requeues ns r st visible_at attempt) j it.visible_at it e quiet h,
      )

  run-IsKeyed : (s : Store Any Float) (cs : List Call) → IsKeyed s.queue → IsKeyed (run s cs).queue
  unfolding run
  run-IsKeyed s [] v = v
  run-IsKeyed s (c ∷ cs) v = run-IsKeyed (step s c) cs ((step-leaves s c v).0)

  run-kept :
      (s : Store Any Float) (cs : List Call) (j : String) (item : QueueItem)
      → IsKeyed s.queue
      → All (IsQuiet j item.visible_at) cs
      → lookup s.queue j ≡ some item
      → lookup (run s cs).queue j ≡ some item
  unfolding run
  run-kept s [] j item v quiet h = h
  run-kept s (c ∷ cs) j item v quiet h =
      let (v', leaves) = step-leaves s c v in
      run-kept (step s c) cs j item v' (quiet.1) (leaves j item (quiet.0) h)

module _ (Any Float : Type 0) where
  new-IsKeyed : IsKeyed (new {Any = Any} {Float = Float}).queue
  unfolding new lookup
  new-IsKeyed k item h = ground (arith, h)

  -- In a store made by `New`, after any calls: when a dequeuing hands out an item, then, whatever
  -- items are enqueued, completed, released or requeued elsewhere and whoever dequeues before its
  -- 30 seconds are over, no dequeuing within that time hands out an item of the same namespace, run
  -- and step.
  pub lease_exclusive_in_time :
      (before cs : List Call) (fresh fresh' : ℕ → String) (order order' : List String)
      (ns ns' : Option String) (limit limit' : ℤ) (now now' : ℕ) (l l' : QueueLease)
      → Memᴰ l
          (take_leases (run (new {Any = Any} {Float = Float}) before) fresh order ns limit now).0
      → All (IsQuiet (key_of l.item) (now + lease_time)) cs
      → now' ≤ now + lease_time
      → Memᴰ l'
          (take_leases
            (run
              (take_leases
                (run (new {Any = Any} {Float = Float}) before)
                fresh
                order
                ns
                limit
                now).1
              cs)
            fresh'
            order'
            ns'
            limit'
            now').0
      → (key_of l'.item =? key_of l.item) ≡ false
  lease_exclusive_in_time before cs fresh fresh' order order' ns ns' limit limit' now now' l l' got
        quiet early again =
      let s = run (new {Any = Any} {Float = Float}) before in
      let v = run-IsKeyed (new {Any = Any} {Float = Float}) before new-IsKeyed in
      let (out, left) = take_leases-taken s fresh order ns limit now in
      let s' = (take_leases s fresh order ns limit now).1 in
      let v' : IsKeyed s'.queue =
        subst IsKeyed (sym left) (taken-IsKeyed fresh (wanted ns) limit now order s.queue v) in
      let (there, until) =
        taken-leased fresh (wanted ns) limit now order s.queue v l (subst (Memᴰ l) out got) in
      let stored : lookup s'.queue (key_of l.item) ≡ some l.item =
        ap (λ q. lookup q (key_of l.item)) left ∙ there in
      let calm : All (IsQuiet (key_of l.item) l.item.visible_at) cs =
        subst (λ u. All (IsQuiet (key_of l.item) u) cs) (sym until) quiet in
      let kept = run-kept s' cs (key_of l.item) l.item v' calm stored in
      let (out', left') = take_leases-taken (run s' cs) fresh' order' ns' limit' now' in
      (taken-hidden fresh' (wanted ns') limit' now' order' (run s' cs).queue (key_of l.item) l.item
          (run-IsKeyed s' cs v') kept (omega (arith, early, until))).1
        l' (subst (Memᴰ l') out' again)
