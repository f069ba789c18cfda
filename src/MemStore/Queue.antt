-- ===== src/MemStore/Queue.antt =====
-- internal/persistence/memstore/memstore.go: the methods on the queue of steps. `order` is the order
-- in which a `range` visits the keys; `fresh` gives the texts of the lease tokens, which are random.
pub mod Visibility
pub mod Exclusive
use tempest.Base.{
  ℕ, zero, suc, ◌+◌, String, Bool, true, false, not, ◌&&◌, Option, none, some, List, [], ◌∷◌, ◌++◌,
  ltb, leb, if◌then◌else◌, length, ℤ, pos, negsuc, succ, is_positive, ◌=?◌, string_eq, nat_eq,
}
use tempest.Base.GoMap.{lookup, insert, erase}
use tempest.Types.Events.{QueueItem}
use tempest.MemStore.{Store, Error, not_found}
use tempest.MemStore.Keys.{queue_key}

pub record QueueLease : Type 0 where
  pub item : QueueItem
  pub token : String

-- `limit > 0 && len(out) >= limit`
abbrev pub is_reached : ℤ → ℕ → Bool
is_reached (pos zero) n = false
is_reached (pos (suc k)) n = leb (suc k) n
is_reached (negsuc k) n = false

-- 30 seconds.
abbrev pub lease_time : ℕ
lease_time = 30000000000

abbrev pub leased : QueueItem → ℕ → QueueItem
leased item now = record item { attempt = succ item.attempt; visible_at = now + lease_time }

-- The loop of `Dequeue` and of `DequeueAny` over the keys that are left; `mine` is the test of the
-- namespace, and `out` what is dequeued so far.
unfoldable pub dequeue_from :
    (ℕ → String)
    → (QueueItem → Bool)
    → ℤ
    → ℕ
    → List String
    → List (String × QueueItem)
    → List QueueLease
    → List QueueLease × List (String × QueueItem)
dequeue_from fresh mine limit now [] queue out = (out, queue)
dequeue_from fresh mine limit now (k ∷ rest) queue out =
    let pass = dequeue_from fresh mine limit now rest queue out in
    elim (lookup queue k) [
      | none ↦ pass
      | some item ↦
          let lease : QueueLease = record { item = leased item now; token = fresh (length out) } in
          let out' = out ++ lease ∷ [] in
          let queue' = insert queue k (leased item now) in
          let on = dequeue_from fresh mine limit now rest queue' out' in
          if not (mine item && ltb item.visible_at now)
          then pass
          else if is_reached limit (length out')
          then (out', queue')
          else on
    ]

-- The loops that collect items.
unfoldable pub collect :
    (QueueItem → Bool)
    → ℤ
    → List String
    → List (String × QueueItem)
    → List QueueItem
    → List QueueItem
collect keep limit [] queue out = out
collect keep limit (k ∷ rest) queue out =
    let pass = collect keep limit rest queue out in
    elim (lookup queue k) [
      | none ↦ pass
      | some item ↦
          let out' = out ++ item ∷ [] in
          let on = collect keep limit rest queue out' in
          if not (keep item) then pass else if is_reached limit (length out') then out' else on
    ]

-- `now.Sub(t) > timeout`.
abbrev pub is_past : ℕ → ℕ → ℤ → Bool
is_past now t (pos d) = ltb (t + d) now
is_past now t (negsuc d) = ltb t (now + suc d)

module _ {Any Float : Type 0} where
  unfoldable pub enqueue : Store Any Float → QueueItem → Store Any Float
  enqueue s item = record s {
    queue = insert s.queue (queue_key item.namespace item.run_id item.step_id) item;
  }

  unfoldable pub dequeue :
      Store Any Float
      → (ℕ → String)
      → List String
      → String
      → ℤ
      → ℕ
      → List QueueLease × Store Any Float
  unfolding dequeue_from
  dequeue s fresh order namespace limit now =
      let mine = λ (item : QueueItem). item.namespace =? namespace in
      let (out, left) = dequeue_from fresh mine limit now order s.queue [] in
      (out, record s { queue = left })

  unfoldable pub dequeue_any :
      Store Any Float → (ℕ → String) → List String → ℤ → ℕ → List QueueLease × Store Any Float
  unfolding dequeue_from
  dequeue_any s fresh order limit now =
      let (out, left) = dequeue_from fresh (λ _. true) limit now order s.queue [] in
      (out, record s { queue = left })

  -- The lease token is not looked at.
  unfoldable pub complete_step :
      Store Any Float → String → String → String → String → Option Error × Store Any Float
  complete_step s namespace run_id step_id lease_token =
      elim (lookup s.queue (queue_key namespace run_id step_id)) [
        | none ↦ (some not_found, s)
        | some item ↦
            (none, record s { queue = erase s.queue (queue_key namespace run_id step_id) })
      ]

  unfoldable pub release_step :
      Store Any Float → String → String → String → ℕ → Option Error × Store Any Float
  release_step s namespace run_id step_id now =
      elim (lookup s.queue (queue_key namespace run_id step_id)) [
        | none ↦ (some not_found, s)
        | some item ↦
            let item' : QueueItem = record item { visible_at = now } in
            (none, record s { queue = insert s.queue (queue_key namespace run_id step_id) item' })
      ]

  unfoldable pub requeue_with_delay :
      Store Any Float → String → String → String → ℕ → ℤ → Option Error × Store Any Float
  requeue_with_delay s namespace run_id step_id visible_at attempt =
      elim (lookup s.queue (queue_key namespace run_id step_id)) [
        | none ↦ (some not_found, s)
        | some item ↦
            let item' : QueueItem = record item { visible_at = visible_at; attempt = attempt } in
            (none, record s { queue = insert s.queue (queue_key namespace run_id step_id) item' })
      ]

  unfoldable pub lease_expired : Store Any Float → List String → ℤ → ℕ → List QueueItem
  unfolding collect
  lease_expired s order lease_timeout now =
      let keep = λ (item : QueueItem).
        is_positive item.attempt && is_past now item.visible_at lease_timeout in
      collect keep (pos 0) order s.queue []

  unfoldable pub list_queue : Store Any Float → List String → String → ℤ → List QueueItem
  unfolding collect
  list_queue s order namespace limit =
      collect (λ (item : QueueItem). item.namespace =? namespace) limit order s.queue []
