-- ===== src/Examples/Leader.antt =====
-- Runs of an election.
use tempest.Base.{
  ◌^◌, String, ◌≡◌, refl, sym, true, false, some, List, [], ◌∷◌, ltb→lt, int_eq, string_eq, nat_eq,
}
use mathlib.Core.List.{Memᴰ}
use mathlib.Core.Bool.{true≢false}
use tempest.Leader.{state_follower, state_leader, Record, new_in_mem_coordinator, Candidate, tick}
use tempest.Leader.Terms.{Call, acquires, granted, term_has_one_leader}
use tempest.Leader.Handover.{overtaken_leader_yields}

abbrev name_a : String
name_a = "a"

abbrev election : List Call
election = acquires "a" 5 1 ∷ acquires "a" 5 3 ∷ acquires "b" 5 4 ∷ acquires "b" 5 9 ∷ []

election_runs : granted new_in_mem_coordinator election [] ≡ ("b", 2) ∷ ("a", 1) ∷ ("a", 1) ∷ []
unfolding granted new_in_mem_coordinator
election_runs = refl

term_has_one_leader_example : name_a ≡ name_a
unfolding granted new_in_mem_coordinator
term_has_one_leader_example =
    term_has_one_leader election name_a name_a 1 (ltb→lt 4 (2 ^ 64) refl)
      (Memᴰ.tail (Memᴰ.head refl)) (Memᴰ.tail (Memᴰ.tail (Memᴰ.head refl)))

abbrev follower : String → Candidate
follower id = record {
  id = id;
  cfg = record { lease_duration = 5; renew_interval = 2; retry_interval = 1 };
  state = state_follower;
  term = 0;
  is_leader = false;
}

abbrev leader_a : Candidate
leader_a = record (follower "a") { state = state_leader; term = 1; is_leader = true }

abbrev lease_of_a : Record
lease_of_a = record { leader_id = "a"; term = 1; expires_at = some 6 }

overtaken_leader_yields_example :
    ((tick (follower "b") lease_of_a 7).0
      ≡ record (follower "b") { state = state_leader; term = 2; is_leader = true })
    × ((tick (follower "b") lease_of_a 7).1.leader_id ≡ "b")
    × (tick leader_a (tick (follower "b") lease_of_a 7).1 8 ≡ (
      record leader_a { state = state_follower; is_leader = false },
      (tick (follower "b") lease_of_a 7).1,
    ))
overtaken_leader_yields_example =
    overtaken_leader_yields leader_a (follower "b") lease_of_a 7 8 refl refl
      (λ p. true≢false (sym ((string_eq.beq_iff "b" "a").1 p)))
      (λ p. true≢false (sym ((string_eq.beq_iff "b" "").1 p))) refl (ltb→lt 8 12 refl)
