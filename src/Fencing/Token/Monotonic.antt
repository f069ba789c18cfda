-- ===== src/Fencing/Token/Monotonic.antt =====
-- Token numbers grow by one with every grant, whatever else happens in between.
use tempest.Base.{
  ℕ, suc, ◌+◌, ◌^◌, ◌≤◌, ◌<◌, String, ◌≡◌, refl, ◌∙◌, some, List, [], ◌∷◌, arith, if◌then◌else◌, ℤ,
  u64, ◌=?◌, string_eq, nat_eq, =?_refl,
}
use tempest.Base.GoMap.{lookup, insert, lookup-insert_self}
use text.Mathlib.TextEquality.{eq_iff}
use tempest.Fencing.Token.{
  TokenGenerator, acquire_token, next_epoch, current_token_number, count_at, latest_token,
  count_at-insert,
}

-- The generator's mutating calls.
pub data Call : Type 0 where
  acquires : String → String → ℤ → ℕ → Call
  advances : String → Call

unfoldable pub step : TokenGenerator → Call → TokenGenerator
step g (acquires resource owner ttl now) = (acquire_token g resource owner ttl now).1
step g (advances resource) = (next_epoch g resource).1

unfoldable pub run : TokenGenerator → List Call → TokenGenerator
run g [] = g
run g (c ∷ cs) = run (step g c) cs

-- How many of the calls ask for a token of `r`.
unfoldable pub grants : String → List Call → ℕ
grants r [] = 0
grants r (acquires resource owner ttl now ∷ cs) =
    let rest = grants r cs in if resource =? r then suc rest else rest
grants r (advances resource ∷ cs) = grants r cs

next_number : (m : List (String × ℕ)) (r : String) → ℕ
next_number m r = count_at (insert m r (u64 (count_at m r + 1))) r

next_number_lem :
    (m : List (String × ℕ)) (r : String)
    → count_at m r + 1 < 2 ^ 64
    → next_number m r ≡ count_at m r + 1
unfolding next_number
next_number_lem m r h = rw (count_at-insert m r r (u64 (count_at m r + 1)), =?_refl r) (omega arith)

pub acquire-token :
    (g : TokenGenerator) (r o : String) (ttl : ℤ) (now : ℕ)
    → current_token_number g r + 1 < 2 ^ 64
    → (acquire_token g r o ttl now).0.token ≡ current_token_number g r + 1
unfolding acquire_token current_token_number next_number
acquire-token g r o ttl now h = next_number_lem g.last_token r h

-- A resource's counter after a grant on any resource.
pub current-acquire :
    (g : TokenGenerator) (r o s : String) (ttl : ℤ) (now : ℕ)
    → current_token_number (acquire_token g r o ttl now).1 s
      ≡ (if r =? s then (acquire_token g r o ttl now).0.token else current_token_number g s)
unfolding acquire_token current_token_number
current-acquire g r o s ttl now = ground (
  arith,
  count_at-insert g.last_token r s (u64 (count_at g.last_token r + 1)),
  count_at-insert g.last_token r r (u64 (count_at g.last_token r + 1)),
  eq_iff r s,
  eq_iff r r,
)

-- One call moves a resource's counter by the number of tokens it grants on it.
step-current :
    (g : TokenGenerator) (r : String) (c : Call)
    → current_token_number g r + grants r (c ∷ []) < 2 ^ 64
    → current_token_number (step g c) r ≡ current_token_number g r + grants r (c ∷ [])
unfolding step acquire_token next_epoch current_token_number grants
step-current g r (acquires resource owner ttl now) h = ground (
  arith,
  count_at-insert g.last_token resource r (u64 (count_at g.last_token resource + 1)),
  eq_iff resource r,
)
step-current g r (advances resource) h = omega arith

grants-cons :
    (r : String) (c : Call) (cs : List Call) → grants r (c ∷ cs) ≡ grants r (c ∷ []) + grants r cs
unfolding grants
grants-cons r (acquires resource owner ttl now) cs = ground arith
grants-cons r (advances resource) cs = omega arith

pub run-current :
    (g : TokenGenerator) (r : String) (cs : List Call)
    → current_token_number g r + grants r cs < 2 ^ 64
    → current_token_number (run g cs) r ≡ current_token_number g r + grants r cs
unfolding run
run-current g r [] h = unfold grants in omega arith
run-current g r (c ∷ cs) h =
    let more = grants-cons r c cs in
    let now : current_token_number (step g c) r ≡ current_token_number g r + grants r (c ∷ []) =
      step-current g r c (omega arith) in
    omega (arith, run-current (step g c) r cs (omega arith))

acquire-current :
    (g : TokenGenerator) (r o : String) (ttl : ℤ) (now : ℕ)
    → current_token_number (acquire_token g r o ttl now).1 r ≡ (acquire_token g r o ttl now).0.token
unfolding acquire_token current_token_number
acquire-current g r o ttl now = refl

-- While a resource's counter does not wrap, a token granted on it, and the next one granted after
-- any other calls, differ by one more than the number of grants on it between them. So the later
-- token is always the greater.
pub tokens_increase :
    (g : TokenGenerator) (r o o' : String) (ttl ttl' : ℤ) (now now' : ℕ) (cs : List Call)
    → current_token_number g r + grants r cs + 2 < 2 ^ 64
    → let (t, g') = acquire_token g r o ttl now in
      (acquire_token (run g' cs) r o' ttl' now').0.token ≡ t.token + grants r cs + 1
tokens_increase g r o o' ttl ttl' now now' cs h =
    let first = acquire-token g r o ttl now (omega arith) in
    let held = acquire-current g r o ttl now in
    let g' = (acquire_token g r o ttl now).1 in
    let between : current_token_number (run g' cs) r ≡ current_token_number g' r + grants r cs =
      run-current g' r cs (omega arith) in
    omega (arith, acquire-token (run g' cs) r o' ttl' now' (omega arith))

-- `NextEpoch` leaves every resource's token sequence where it was.
pub next_epoch_keeps_sequence :
    (g : TokenGenerator) (r s : String)
    → (current_token_number (next_epoch g r).1 s ≡ current_token_number g s)
      × (latest_token (next_epoch g r).1 s ≡ latest_token g s)
unfolding next_epoch current_token_number latest_token
next_epoch_keeps_sequence g r s = (refl, refl)

advanced :
    (g : TokenGenerator) (r : String)
    → count_at g.epochs r + 1 < 2 ^ 64
    → (next_epoch g r).0 ≡ count_at g.epochs r + 1
unfolding next_epoch next_number
advanced g r h = next_number_lem g.epochs r h

first_grant :
    (g : TokenGenerator) (r o : String) (ttl : ℤ) (now : ℕ)
    → current_token_number g r ≡ 0
    → let (t, g') = acquire_token g r o ttl now in (t.epoch ≡ 1) × (lookup g'.epochs r ≡ some 1)
unfolding acquire_token next_number current_token_number
first_grant g r o ttl now h =
    let one : next_number g.last_token r ≡ 1 =
      next_number_lem g.last_token r (omega arith) ∙ omega arith in
    rw one (refl, lookup-insert_self g.epochs r 1)

-- Where no token was granted yet on a resource whose epoch had been advanced before, and the epoch
-- does not wrap at 2 ^ 64, the epoch goes back: one more `NextEpoch` answers at least 2, and the
-- token granted next carries epoch 1, which is also what the generator then holds.
pub epoch_falls_back :
    (g : TokenGenerator) (r o : String) (ttl : ℤ) (now : ℕ)
    → current_token_number g r ≡ 0
    → 0 < count_at g.epochs r
    → count_at g.epochs r + 1 < 2 ^ 64
    → let (e, g₁) = next_epoch g r in
      let (t, g₂) = acquire_token g₁ r o ttl now in
      (2 ≤ e) × (t.epoch ≡ 1) × (lookup g₂.epochs r ≡ some 1)
epoch_falls_back g r o ttl now h pos_epoch room =
    let g₁ = (next_epoch g r).1 in
    let (one, held) = first_grant g₁ r o ttl now ((next_epoch_keeps_sequence g r r).0 ∙ h) in
    (omega (arith, advanced g r room, pos_epoch), one, held)
