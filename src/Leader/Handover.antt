-- ===== src/Leader/Handover.antt =====
-- How one leader follows another.
use tempest.Base.{
  ℕ, ◌+◌, ◌<◌, String, ◌≡◌, refl, ap, ◌∙◌, ◌≢◌, inl, inr, true, false, not, ◌&&◌, ◌||◌, some, arith,
  lt→ltb, Option-cases, int_eq, u64, ◌=?◌, string_eq, nat_eq, =?_ne,
}
use tempest.Leader.{
  state_follower, state_leader, Record, is_after, is_before, try_acquire_or_renew, release,
  Candidate, campaign, step_down, renew, tick,
}

-- The lease of a candidate that comes when the last one is over, and what it is afterwards.
abbrev next_record : Candidate → Record → ℕ → Record
next_record b r now = record {
  leader_id = b.id;
  term = u64 (r.term + 1);
  expires_at = some (now + b.cfg.lease_duration);
}

not_before :
    (r : Record) (now : ℕ) → is_after now r.expires_at ≡ true → is_before now r.expires_at ≡ false
not_before r now late = elim (Option-cases r.expires_at) [
  | inl unset ↦ rw unset refl
  | inr (t, set_to) ↦ ground (arith, set_to, late)
]

try_acquire-late :
    (b : Candidate) (r : Record) (now : ℕ)
    → is_after now r.expires_at ≡ true
    → try_acquire_or_renew r b.id b.cfg.lease_duration now
      ≡ ((next_record b r now, true), next_record b r now)
unfolding try_acquire_or_renew
try_acquire-late b r now late =
    let no_or : (not (r.leader_id =? b.id) || true) ≡ true = ground arith in
    let no_and : (not (r.leader_id =? "") && not (r.leader_id =? b.id) && false) ≡ false =
      ground arith in
    simp (late, not_before r now late, no_or, no_and)

try_acquire-held :
    (id : String) (r : Record) (ttl now : ℕ)
    → (r.leader_id =? "") ≡ false
    → (r.leader_id =? id) ≡ false
    → is_before now r.expires_at ≡ true
    → try_acquire_or_renew r id ttl now ≡ ((r, false), r)
unfolding try_acquire_or_renew
try_acquire-held id r ttl now some_leader other early = simp (some_leader, other, early)

tick-wins :
    (b : Candidate) (r : Record) (now : ℕ)
    → b.state ≡ state_follower
    → is_after now r.expires_at ≡ true
    → tick b r now ≡ (
      record b { state = state_leader; term = u64 (r.term + 1); is_leader = true },
      next_record b r now,
    )
unfolding tick campaign
tick-wins b r now follows late = simp (tick, follows, campaign, try_acquire-late b r now late)

tick-renews :
    (a : Candidate) (r : Record) (now : ℕ) → a.state ≡ state_leader → tick a r now ≡ renew a r now
unfolding tick
tick-renews a r now leads = simp (tick, leads)

renew-held :
    (a : Candidate) (r : Record) (now : ℕ)
    → try_acquire_or_renew r a.id a.cfg.lease_duration now ≡ ((r, false), r)
    → renew a r now ≡ step_down a r
unfolding renew
renew-held a r now held = simp (renew, held)

step_down-other :
    (a : Candidate) (r : Record)
    → a.state ≡ state_leader
    → (r.leader_id =? a.id) ≡ false
    → step_down a r ≡ (record a { state = state_follower; is_leader = false }, r)
unfolding step_down release
step_down-other a r leads other = simp (step_down, leads, release, other)

tick-yields :
    (a : Candidate) (r : Record) (now : ℕ)
    → a.state ≡ state_leader
    → (r.leader_id =? "") ≡ false
    → (r.leader_id =? a.id) ≡ false
    → is_before now r.expires_at ≡ true
    → tick a r now ≡ (record a { state = state_follower; is_leader = false }, r)
tick-yields a r now leads named other early =
    tick-renews a r now leads
    ∙ renew-held a r now (try_acquire-held a.id r a.cfg.lease_duration now named other early)
    ∙ step_down-other a r leads other

-- When a lease is over, the turn of another candidate, a follower with a name, makes it the leader of
-- the next term; if the
-- old leader has its turn while that lease runs, it becomes a follower, and the new leader's lease
-- stays as it is.
pub overtaken_leader_yields :
    (a b : Candidate) (r : Record) (now later : ℕ)
    → a.state ≡ state_leader
    → b.state ≡ state_follower
    → b.id ≢ a.id
    → b.id ≢ ""
    → is_after now r.expires_at ≡ true
    → later < now + b.cfg.lease_duration
    → ((tick b r now).0
        ≡ record b { state = state_leader; term = u64 (r.term + 1); is_leader = true })
      × ((tick b r now).1.leader_id ≡ b.id)
      × (tick a (tick b r now).1 later
          ≡ (record a { state = state_follower; is_leader = false }, (tick b r now).1))
overtaken_leader_yields a b r now later leads follows other named late early =
    let won = tick-wins b r now follows late in
    (
      ap (λ p. p.0) won,
      ap (λ p. p.1.leader_id) won,
      rw won (
          tick-yields a (next_record b r now) later leads (=?_ne b.id "" named)
            (=?_ne b.id a.id other) (lt→ltb later (now + b.cfg.lease_duration) early)),
    )
