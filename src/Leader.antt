-- ===== src/Leader.antt =====
-- internal/leader/leader.go, inmem.go: candidates that compete for a lease with a term. The zero
-- time is `none`. The loop of a candidate is a sequence of `tick`s, ended by `step_down`; its
-- tickers, channels and callbacks are left out.
pub mod Terms
pub mod Handover
use tempest.Base.{
  ℕ, ◌+◌, String, ◌⊎◌, inl, inr, Bool, true, false, not, ◌&&◌, ◌||◌, Option, none, some, ltb,
  if◌then◌else◌, ℤ, positive_or, int_eq, u64, ◌=?◌, string_eq, nat_eq,
}

-- `State`, under the names of its constants.
pub data State : Type 0 where
  state_follower state_candidate state_leader : State

unfoldable pub state_text : State → String
state_text state_follower = "FOLLOWER"
state_text state_candidate = "CANDIDATE"
state_text state_leader = "LEADER"

pub data Error : Type 0 where
  not_leader : Error

pub record Config : Type 0 where
  pub lease_duration : ℕ
  pub renew_interval : ℕ
  pub retry_interval : ℕ

-- `Record`, and the only field of `InMemCoordinator`.
pub record Record : Type 0 where
  pub leader_id : String
  pub term : ℕ
  pub expires_at : Option ℕ

unfoldable pub new_in_mem_coordinator : Record
new_in_mem_coordinator = record { leader_id = ""; term = 0; expires_at = none }

abbrev pub is_before : ℕ → Option ℕ → Bool
is_before now none = false
is_before now (some t) = ltb now t

abbrev pub is_after : ℕ → Option ℕ → Bool
is_after now none = true
is_after now (some t) = ltb t now

unfoldable pub try_acquire_or_renew : Record → String → ℕ → ℕ → (Record × Bool) × Record
try_acquire_or_renew r candidate_id ttl now =
    if not (r.leader_id =? "") && not (r.leader_id =? candidate_id) && is_before now r.expires_at
    then ((r, false), r)
    else let term =
        if not (r.leader_id =? candidate_id) || is_after now r.expires_at
        then u64 (r.term + 1)
        else r.term in
      let r' : Record = record {
        leader_id = candidate_id;
        term = term;
        expires_at = some (now + ttl);
      } in
      ((r', true), r')

unfoldable pub get_leader : Record → ℕ → Error ⊎ Record
get_leader r now = if is_after now r.expires_at then inl not_leader else inr r

unfoldable pub release : Record → String → Record
release r candidate_id =
    if r.leader_id =? candidate_id then record r { leader_id = ""; expires_at = none } else r

pub record Candidate : Type 0 where
  pub id : String
  pub cfg : Config
  pub state : State
  pub term : ℕ
  pub is_leader : Bool

unfoldable pub new_candidate : String → ℤ → ℤ → ℤ → Candidate
new_candidate id lease renew retry = record {
  id = id;
  cfg = record {
    lease_duration = positive_or 500000000 lease;
    renew_interval = positive_or 150000000 renew;
    retry_interval = positive_or 100000000 retry;
  };
  state = state_follower;
  term = 0;
  is_leader = false;
}

-- `Campaign`, whether it was won; this coordinator has no errors.
unfoldable pub campaign : Candidate → Record → ℕ → Bool × Candidate × Record
unfolding try_acquire_or_renew
campaign c r now =
    let ((rec, acquired), r') = try_acquire_or_renew r c.id c.cfg.lease_duration now in
    if acquired
    then (true, record c { state = state_leader; term = rec.term; is_leader = true }, r')
    else (false, record c { state = state_follower; is_leader = false }, r')

unfoldable pub step_down : Candidate → Record → Candidate × Record
unfolding release
step_down c r =
    let c' : Candidate = record c { state = state_follower; is_leader = false } in
    elim c.state [ state_leader ↦ (c', release r c.id) | _ ↦ (c', r) ]

-- The heartbeat of a leader in `runLoop`.
unfoldable pub renew : Candidate → Record → ℕ → Candidate × Record
unfolding try_acquire_or_renew step_down
renew c r now =
    let ((rec, renewed), r') = try_acquire_or_renew r c.id c.cfg.lease_duration now in
    if renewed then (record c { term = rec.term }, r') else step_down c r'

-- One turn of `runLoop` on the ticker.
unfoldable pub tick : Candidate → Record → ℕ → Candidate × Record
unfolding renew campaign
tick c r now = elim c.state [
  | state_leader ↦ renew c r now
  | _ ↦ let (won, c', r') = campaign c r now in (c', r')
]
