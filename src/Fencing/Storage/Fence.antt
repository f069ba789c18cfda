-- ===== src/Fencing/Storage/Fence.antt =====
-- Once a write with some token is accepted at a key, no write with a smaller one is accepted there
-- again, and the stored value is that of the last accepted call.
use tempest.Base.{
  ℕ, ◌+◌, ◌≤◌, ◌<◌, String, ◌≡◌, refl, sym, ap, ◌∙◌, Bool, true, false, ◌&&◌, ◌||◌, Option, none,
  some, List, [], ◌∷◌, arith, ltb, if◌then◌else◌, u64, ◌=?◌, string_eq, nat_eq, =?_refl,
}
use tempest.Base.GoMap.{lookup-insert, lookup-erase}
use text.Mathlib.TextEquality.{eq_iff}
use tempest.Fencing.Token.{FencingToken, is_expired, count_at-insert}
use tempest.Fencing.Storage.{
  Error, token_expired, stale_fencing_token, FencedStorage, is_stale, put, get, delete,
  highest_observed_token,
}

-- The mutating calls, each with the time at which it checks its token.
pub data Call : Type 0 where
  puts : String → List ℕ → FencingToken → ℕ → Call
  deletes : String → FencingToken → ℕ → Call

abbrev pub key_of : Call → String
key_of (puts k v t now) = k
key_of (deletes k t now) = k

abbrev pub token_of : Call → FencingToken
token_of (puts k v t now) = t
token_of (deletes k t now) = t

abbrev pub time_of : Call → ℕ
time_of (puts k v t now) = now
time_of (deletes k t now) = now

abbrev pub accepted : Option Error → Bool
accepted none = true
accepted (some e) = false

unfoldable pub step : FencedStorage → Call → Option Error × FencedStorage
step s (puts k v t now) = put s k v t now
step s (deletes k t now) = delete s k t now

unfoldable pub run : FencedStorage → List Call → FencedStorage
run s [] = s
run s (c ∷ cs) = run (step s c).1 cs

stale_below :
    (s : FencedStorage) (k : String) (t : FencingToken)
    → is_stale s k t ≡ ltb t.token (highest_observed_token s k)
unfolding is_stale highest_observed_token
stale_below s k t = ground arith

-- A call is accepted when its token is neither expired nor below the highest seen at its key.
unfoldable pub verdict : FencedStorage → Call → Option Error
unfolding is_expired
verdict s c =
    if is_expired (token_of c) (time_of c)
    then some token_expired
    else if ltb (token_of c).token (highest_observed_token s (key_of c))
    then some stale_fencing_token
    else none

step-verdict : (s : FencedStorage) (c : Call) → (step s c).0 ≡ verdict s c
unfolding step put delete verdict
step-verdict s (puts k v t now) = ground (arith, stale_below s k t)
step-verdict s (deletes k t now) = ground (arith, stale_below s k t)

step-highest :
    (s : FencedStorage) (c : Call) (j : String)
    → highest_observed_token (step s c).1 j ≡ (
        if accepted (verdict s c) && key_of c =? j
        then (token_of c).token
        else highest_observed_token s j)
unfolding step put delete verdict highest_observed_token
step-highest s (puts k v t now) j =
    ground (arith, stale_below s k t, count_at-insert s.highest_token k j t.token)
step-highest s (deletes k t now) j =
    ground (arith, stale_below s k t, count_at-insert s.highest_token k j t.token)

-- One call never lowers the highest token seen at any key.
step-highest_mono :
    (s : FencedStorage) (c : Call) (j : String)
    → highest_observed_token s j ≤ highest_observed_token (step s c).1 j
unfolding verdict
step-highest_mono s c j = ground (arith, step-highest s c j, eq_iff (key_of c) j)

run-highest_mono :
    (s : FencedStorage) (cs : List Call) (j : String)
    → highest_observed_token s j ≤ highest_observed_token (run s cs) j
unfolding run
run-highest_mono s [] j = omega arith
run-highest_mono s (c ∷ cs) j =
    omega (arith, step-highest_mono s c j, run-highest_mono (step s c).1 cs j)

step-stale :
    (s : FencedStorage) (c : Call)
    → verdict s c ≡ some stale_fencing_token
    → (step s c).1 ≡ record s { rejected_cnt = u64 (s.rejected_cnt + 1) }
unfolding step put delete verdict
step-stale s (puts k v t now) h = ground (arith, stale_below s k t)
step-stale s (deletes k t now) h = ground (arith, stale_below s k t)

step_sets-highest :
    (s : FencedStorage) (c : Call)
    → verdict s c ≡ none
    → highest_observed_token (step s c).1 (key_of c) ≡ (token_of c).token
step_sets-highest s c h = step-highest s c (key_of c) ∙ rw (h, =?_refl (key_of c))

verdict_below :
    (s : FencedStorage) (z : Call)
    → is_expired (token_of z) (time_of z) ≡ false
    → (token_of z).token < highest_observed_token s (key_of z)
    → verdict s z ≡ some stale_fencing_token
unfolding verdict
verdict_below s z live low = ground arith

-- After a write or a delete is accepted at a key, and whatever calls follow it, a write or a delete
-- at that key with a smaller token that has not expired is refused as stale: nothing is stored or
-- deleted, and only the counter of rejections moves.
pub zombie_fenced :
    (s : FencedStorage) (c : Call) (cs : List Call) (z : Call)
    → (step s c).0 ≡ none
    → key_of z ≡ key_of c
    → (token_of z).token < (token_of c).token
    → is_expired (token_of z) (time_of z) ≡ false
    → let s' = run (step s c).1 cs in
      step s' z ≡ (some stale_fencing_token, record s' { rejected_cnt = u64 (s'.rejected_cnt + 1) })
zombie_fenced s c cs z ok same lower live =
    let s' = run (step s c).1 cs in
    let refused : verdict s' z ≡ some stale_fencing_token = verdict_below s' z live (
      omega (
        arith,
        step_sets-highest s c (sym (step-verdict s c) ∙ ok),
        run-highest_mono (step s c).1 cs (key_of c),
        ap (highest_observed_token s') same,
      )) in
    λ i. ((step-verdict s' z ∙ refused) i, step-stale s' z refused i)

-- What the storage keeps at one key: the highest token and the entry.
pub record Register : Type 0 where
  pub highest : ℕ
  pub content : Option (List ℕ × FencingToken)

abbrev pub register : FencedStorage → String → Register
register s j = record { highest = highest_observed_token s j; content = get s j }

-- What an accepted call leaves in the register.
abbrev pub content_after : Call → Option (List ℕ × FencingToken)
content_after (puts k v t now) = some (v, t)
content_after (deletes k t now) = none

-- One register, as a specification: it takes a call or leaves it.
unfoldable pub register_step : Register → Call → Register
register_step r c =
    if is_expired (token_of c) (time_of c) || ltb (token_of c).token r.highest
    then r
    else record { highest = (token_of c).token; content = content_after c }

-- The calls at the key `j` alone, one after another.
unfoldable pub register_run : String → Register → List Call → Register
register_run j r [] = r
register_run j r (c ∷ cs) = register_run j (if key_of c =? j then register_step r c else r) cs

step-content :
    (s : FencedStorage) (c : Call) (j : String)
    → get (step s c).1 j
      ≡ (if accepted (verdict s c) && key_of c =? j then content_after c else get s j)
unfolding step put delete verdict get
step-content s (puts k v t now) j =
    ground (
      arith,
      stale_below s k t,
      lookup-insert s.store k j (record { value = v; fencing_token = t }),
    )
step-content s (deletes k t now) j = ground (arith, stale_below s k t, lookup-erase s.store k j)

register-step :
    (s : FencedStorage) (c : Call) (j : String)
    → register (step s c).1 j
      ≡ (if key_of c =? j then register_step (register s j) c else register s j)
unfolding register_step verdict
register-step s c j = ground (arith, step-highest s c j, step-content s c j, eq_iff (key_of c) j)

-- At each key the storage behaves, over any calls, as a single register fed the calls at that key:
-- calls at other keys do not matter.
pub storage_refines_register :
    (s : FencedStorage) (cs : List Call) (j : String)
    → register (run s cs) j ≡ register_run j (register s j) cs
unfolding run register_run
storage_refines_register s [] j = refl
storage_refines_register s (c ∷ cs) j =
    storage_refines_register (step s c).1 cs j ∙ ap (λ r. register_run j r cs) (register-step s c j)
