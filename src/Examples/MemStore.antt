-- ===== src/Examples/MemStore.antt =====
-- Runs of the store.
use tempest.Base.{
  ℕ, String, ◌≡◌, refl, ◌↔◌, inl, inr, true, false, Option, none, some, List, [], ◌∷◌, arith, pos,
  negsuc, ◌=?◌, string_eq, nat_eq,
}
use tempest.Base.GoMap.{lookup, insert, erase}
use tempest.Types.Events.{QueueItem}
use tempest.MemStore.{Store, new}
use tempest.MemStore.Keys.{queue_key, mentions, def_key}
use tempest.MemStore.Queue.{QueueLease, leased, dequeue_any, dequeue, enqueue, complete_step}
use tempest.MemStore.Queue.Visibility.{key_of}
use tempest.MemStore.Queue.Exclusive.{
  Call, enqueues, completes, take_leases, run, lease_exclusive_in_time,
}
use tempest.Types.{RunState, queued, running, succeeded, cancelled, is_terminal}
use tempest.Types.Records.{Run}
use tempest.MemStore.Keys.{run_key, values}
use tempest.MemStore.Runs.{get_run, update_run_state, compact_runs, is_expired}
use tempest.MemStore.Runs.Compaction.{compact_runs_iff}
use tempest.MemStore.Runs.Finish.{unstarted_never_expires}
use tempest.MemStore.Runs.Single.{
  creates, sets_state, sets_error, register_run, answer, Call as RunCall,
}
use tempest.MemStore.Runs.Register.{store_refines_run, run as run_store}
use tempest.Base.Text.{has_char}
use mathlib.Core.List.{Memᴰ}

key_texts :
    (def_key "ns" "wf" (pos 120) ≡ "ns/wf@120") × (def_key "ns" "wf" (negsuc 6) ≡ "ns/wf@-7")
unfolding def_key
key_texts = (refl, refl)

mentions_texts : (mentions "ns/r1/s" "r1" ≡ true) × (mentions "ns/r1/s" "r" ≡ false)
unfolding mentions
mentions_texts = (refl, refl)

abbrev item_of : String → String → QueueItem
item_of run_id step_id = record {
  run_id = run_id;
  namespace = "ns";
  step_id = step_id;
  enqueued_at = 5;
  visible_at = 5;
  attempt = pos 1;
}

abbrev loaded : List Call
loaded = enqueues (item_of "r1" "a") ∷ enqueues (item_of "r2" "a") ∷ []

abbrev tokens : ℕ → String
tokens n = "lease"

abbrev first_lease : QueueLease
first_lease = record { item = leased (item_of "r1" "a") 10; token = "lease" }

abbrev second_lease : QueueLease
second_lease = record { item = leased (item_of "r2" "a") 20; token = "lease" }

abbrev keys_first : List String
keys_first = "ns/r1/a" ∷ "ns/r2/a" ∷ []

lease_exclusive_in_time_example : (key_of second_lease.item =? key_of first_lease.item) ≡ false
unfolding run take_leases dequeue_any dequeue queue_key new enqueue lookup insert complete_step
    erase
lease_exclusive_in_time_example =
    lease_exclusive_in_time ℕ ℕ loaded
      (enqueues (item_of "r3" "a") ∷ completes "ns" "r3" "a" "t" ∷ []) tokens tokens keys_first
      keys_first none (some "ns") (pos 1) (pos 9) 10 20 first_lease second_lease (Memᴰ.head refl)
      (refl, (refl, tt)) (omega arith) (Memᴰ.head refl)

abbrev run_in : String → RunState → Option ℕ → Run ℕ
run_in namespace state finished = record {
  id = "r1";
  namespace = namespace;
  workflow = record { namespace = namespace; name = "wf"; version = pos 1 };
  state = state;
  input = record {
    workflow = record { namespace = namespace; name = "wf"; version = pos 1 };
    payload = [];
    labels = [];
    parent_run_id = "";
  };
  steps = [];
  attempt = pos 0;
  created_at = 1;
  started_at = none;
  finished_at = finished;
  error = "";
  labels = [];
  parent_run_id = "";
}

-- A cancelled run, and a live one of the same ID in another namespace.
abbrev two_runs : Store ℕ ℕ
two_runs = record {
  definitions = [];
  runs = ("a/r1", run_in "a" cancelled (some 5)) ∷ ("b/r1", run_in "b" queued none) ∷ [];
  queue = [];
  events = [];
  webhooks = [];
  deliveries = [];
  tokens = [];
  token_hash = [];
}

abbrev all_orders : String → List String × List String
all_orders id = ("a/r1" ∷ "b/r1" ∷ [], [])

compact_runs_iff_example :
    (lookup (compact_runs two_runs two_runs 9 (pos 0) all_orders).1.runs "b/r1" ≡ none)
    ↔ ((x : Run ℕ) × Memᴰ x (values two_runs.runs) × (is_expired 9 x ≡ true) × (x.id ≡ "r1"))
unfolding lookup
compact_runs_iff_example =
    compact_runs_iff two_runs two_runs 9 all_orders "b/r1" (run_in "b" queued none) refl
      (λ id. Memᴰ.tail (Memᴰ.head refl))

unstarted_never_expires_example :
    (ended : Run ℕ) × (get_run (update_run_state two_runs "b" "r1" succeeded 7).1 "b" "r1"
      ≡ inr ended)
    × (ended.state ≡ succeeded)
    × (is_terminal ended.state ≡ true)
    × (ended.started_at ≡ some 7)
    × (ended.finished_at ≡ none)
    × (is_expired 100 ended ≡ false)
unfolding get_run lookup run_key
unstarted_never_expires_example =
    unstarted_never_expires two_runs "b" "r1" (run_in "b" queued none) succeeded 7 100 refl refl
      refl (inl refl)

abbrev run_calls : List (RunCall ℕ)
run_calls =
    creates (run_in "c" queued none)
    ∷ sets_state "b" "r1" running 3
    ∷ sets_error "a" "r1" "late"
    ∷ []

store_refines_run_example :
    get_run (run_store two_runs run_calls) "b" "r1"
    ≡ answer (register_run "b" "r1" (some (run_in "b" queued none)) run_calls)
unfolding get_run lookup run_key has_char
store_refines_run_example =
    store_refines_run two_runs run_calls "b" "r1" (some (run_in "b" queued none)) refl
      (refl, (refl, (refl, tt))) refl
