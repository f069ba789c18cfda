-- ===== src/Examples/Fencing.antt =====
-- Runs of the fencing tokens, the fenced storage and the lease manager.
use tempest.Base.{
  ℕ, ◌+◌, ◌≤◌, ◌<◌, String, ◌≡◌, refl, ◌≢◌, none, some, [], ◌∷◌, arith, pos, u64, string_eq, nat_eq,
}
use tempest.Base.GoMap.{lookup}
use tempest.Fencing.Token.{
  FencingToken, TokenGenerator, new_token_generator, acquire_token, next_epoch, latest_token,
  count_at, current_token_number, is_expired,
}
use tempest.Fencing.Token.Monotonic.{
  acquires, advances, run, grants, tokens_increase, epoch_falls_back,
}
use tempest.Fencing.Storage.{new_fenced_storage, put, stale_fencing_token}
use tempest.Fencing.Storage.Fence.{
  puts, deletes, step, run as run_storage, zombie_fenced, register, register_run,
  storage_refines_register, Call as StorageCall,
}
use tempest.Fencing.LeaseManager.{check_preemption, extend_lease}
use tempest.Fencing.LeaseManager.Preemption.{
  extended, preemption_final, extension_hides_grant, run as run_leases, extends, latest_number,
}

abbrev token_of_owner : ℕ → FencingToken
token_of_owner n = record {
  resource = "db";
  token = n;
  owner = "a";
  epoch = 1;
  issued_at = 0;
  expires_at = 100;
}

tokens_increase_example :
    let (t, g') = acquire_token new_token_generator "db" "a" (pos 5) 0 in
    (acquire_token
      (run g' (acquires "db" "b" (pos 5) 1 ∷ advances "db" ∷ []))
      "db"
      "c"
      (pos 5)
      2).0.token
    ≡ t.token + 1 + 1
unfolding grants
tokens_increase_example =
    tokens_increase new_token_generator "db" "a" "c" (pos 5) (pos 5) 0 2
      (acquires "db" "b" (pos 5) 1 ∷ advances "db" ∷ [])
      (unfold new_token_generator current_token_number lookup in omega arith)

abbrev advanced_once : TokenGenerator
advanced_once = record { last_token = []; epochs = ("db", 1) ∷ []; active_tokens = [] }

epoch_falls_back_example :
    let (e, g₁) = next_epoch advanced_once "db" in
    let (t, g₂) = acquire_token g₁ "db" "a" (pos 5) 0 in
    (2 ≤ e) × (t.epoch ≡ 1) × (lookup g₂.epochs "db" ≡ some 1)
unfolding current_token_number count_at lookup
epoch_falls_back_example =
    epoch_falls_back advanced_once "db" "a" (pos 5) 0 refl (omega arith) (omega arith)

abbrev later_write : StorageCall
later_write = puts "k" (1 ∷ []) (token_of_owner 5) 10

abbrev zombie_write : StorageCall
zombie_write = puts "k" (9 ∷ []) (token_of_owner 4) 12

zombie_fenced_example :
    let s' =
      run_storage
        (step new_fenced_storage later_write).1
        (deletes "k" (token_of_owner 6) 11 ∷ []) in
    step s' zombie_write
    ≡ (some stale_fencing_token, record s' { rejected_cnt = u64 (s'.rejected_cnt + 1) })
unfolding step put new_fenced_storage lookup is_expired
zombie_fenced_example =
    zombie_fenced new_fenced_storage later_write (deletes "k" (token_of_owner 6) 11 ∷ [])
      zombie_write refl refl (omega arith) refl

storage_refines_register_example :
    register (run_storage new_fenced_storage (later_write ∷ zombie_write ∷ [])) "k"
    ≡ register_run "k" (register new_fenced_storage "k") (later_write ∷ zombie_write ∷ [])
storage_refines_register_example =
    storage_refines_register new_fenced_storage (later_write ∷ zombie_write ∷ []) "k"

-- Two tokens were granted on the resource; the first holder has been preempted.
abbrev two_granted : TokenGenerator
two_granted = record {
  last_token = ("db", 2) ∷ [];
  epochs = ("db", 1) ∷ [];
  active_tokens = ("db", token_of_owner 2) ∷ [];
}

two_granted-Inv : (r : String) → latest_number two_granted r ≤ current_token_number two_granted r
unfolding latest_number latest_token current_token_number count_at lookup
two_granted-Inv r = ground arith

preemption_final_example :
    let g' = run_leases two_granted (extends (token_of_owner 2) (pos 9) 3 4 ∷ []) in
    (check_preemption g' (token_of_owner 1) 5 ≢ none)
    × ((extend_lease new_token_generator g' g' (token_of_owner 1) (pos 9) 5 6).0 ≢ none)
    × ((extend_lease new_token_generator g' g' (token_of_owner 1) (pos 9) 5 6).2 ≡ g')
unfolding latest_number latest_token current_token_number count_at lookup
preemption_final_example =
    preemption_final two_granted new_token_generator (token_of_owner 1)
      (extends (token_of_owner 2) (pos 9) 3 4 ∷ []) (pos 9) 5 6 two_granted-Inv (omega arith, tt)
      (omega arith)

extension_hides_grant_example :
    let (newer, g'') = acquire_token two_granted "db" "b" (pos 9) 4 in
    let (err, older, after) =
      extend_lease two_granted two_granted g'' (token_of_owner 2) (pos 9) 3 5 in
    (2 < newer.token)
    × (err ≡ none)
    × (older ≡ extended (token_of_owner 2) (pos 9) 5)
    × (latest_token after "db" ≡ some older)
    × (check_preemption after older 6 ≡ none)
unfolding check_preemption latest_token current_token_number count_at lookup
extension_hides_grant_example =
    extension_hides_grant two_granted (token_of_owner 2) "b" (pos 9) (pos 9) 3 4 5 6 refl
      (omega arith) (omega arith) (omega arith)
