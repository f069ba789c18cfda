-- ===== src/Fencing/LeaseManager.antt =====
-- internal/fencing/lease.go: the checks and extensions that go through the generator, and the
-- callbacks on preemption, each known here by a value of `C`. The manager's own mutex does not keep
-- other callers off the generator, which is read and written under the generator's mutex: so
-- `extend_lease` takes the generator as it stands at each of its three accesses.
pub mod Preemption
use tempest.Base.{
  string_eq, ℕ, ◌+◌, String, Bool, false, Option, none, some, List, [], ◌∷◌, ◌++◌, map, ltb,
  if◌then◌else◌, ℤ, positive_or,
}
use tempest.Base.GoMap.{lookup, insert}
use tempest.Fencing.Token.{FencingToken, is_expired, TokenGenerator, latest_token, default_ttl}

pub data Error : Type 0 where
  token_expired preempted : Error

-- `latest, ok := LatestToken(...)`, then `ok && latest.Token > current.Token`
unfoldable pub superseded : TokenGenerator → FencingToken → Bool
unfolding latest_token
superseded g current = elim (latest_token g current.resource) [
  | none ↦ false
  | some latest ↦ ltb current.token latest.token
]

unfoldable pub check_preemption : TokenGenerator → FencingToken → ℕ → Option Error
unfolding is_expired superseded
check_preemption g current now =
    if is_expired current now
    then some token_expired
    else if superseded g current
    then some preempted
    else none

-- `g` is the generator at the first check, `g'` at the second and `g''` at the write. The clock is
-- read at `now` for the check and at `later` for the new expiry. On an error nothing is written.
unfoldable pub extend_lease :
    TokenGenerator
    → TokenGenerator
    → TokenGenerator
    → FencingToken
    → ℤ
    → ℕ
    → ℕ
    → Option Error × FencingToken × TokenGenerator
unfolding check_preemption superseded
extend_lease g g' g'' current additional_ttl now later = elim (check_preemption g current now) [
  | some e ↦ (some e, current, g'')
  | none ↦
      if superseded g' current
      then (some preempted, current, g'')
      else let updated : FencingToken = record current {
        expires_at = later + positive_or default_ttl additional_ttl;
      } in
        (
          none,
          updated,
          record g'' { active_tokens = insert g''.active_tokens current.resource updated },
        )
]

-- `preemptSubs`: the callbacks of each resource, in the order of registration.
unfoldable pub on_preemption {ℓ} :
    {C : Type ℓ} → List (String × List C) → String → C → List (String × List C)
on_preemption subs resource callback = elim (lookup subs resource) [
  | none ↦ insert subs resource (callback ∷ [])
  | some cs ↦ insert subs resource (cs ++ callback ∷ [])
]

-- The calls that `NotifyPreemption` makes, in order.
unfoldable pub notify_preemption {ℓ} :
    {C : Type ℓ} → List (String × List C) → FencingToken → List (C × FencingToken)
notify_preemption subs new_token = elim (lookup subs new_token.resource) [
  | none ↦ []
  | some cs ↦ map (λ c. (c, new_token)) cs
]
