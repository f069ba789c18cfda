-- ===== src/Fencing/LeaseManager/Preemption.antt =====
-- Extending a lease alone keeps newer grants safe; a grant in the middle of it is lost.
use tempest.Base.{
  ℕ, ◌+◌, ◌^◌, ◌≤◌, ◌<◌, String, ◌≡◌, ◌∙◌, ◌≢◌, true, ◌||◌, none, some, List, [], ◌∷◌, arith, ltb,
  lt→ltb, if◌then◌else◌, ℤ, positive_or, ◌=?◌, string_eq, nat_eq,
}
use tempest.Base.GoMap.{insert, lookup-insert, lookup-insert_self}
use text.Mathlib.TextEquality.{eq_iff}
use tempest.Fencing.Token.{
  FencingToken, is_expired, TokenGenerator, latest_token, acquire_token, current_token_number,
  default_ttl,
}
use tempest.Fencing.Token.Monotonic.{acquire-token, current-acquire}
use tempest.Fencing.LeaseManager.{superseded, check_preemption, extend_lease}

-- The number of the latest token of a resource, 0 where there is none.
unfoldable pub latest_number : TokenGenerator → String → ℕ
latest_number g r = elim (latest_token g r) [ none ↦ 0 | some t ↦ t.token ]

-- Calls that run one after another: each extension has the generator to itself.
pub data Call : Type 0 where
  acquires : String → String → ℤ → ℕ → Call
  extends : FencingToken → ℤ → ℕ → ℕ → Call

unfoldable pub step : TokenGenerator → Call → TokenGenerator
step g (acquires r o ttl now) = (acquire_token g r o ttl now).1
step g (extends t ttl now later) = (extend_lease g g g t ttl now later).2

unfoldable pub run : TokenGenerator → List Call → TokenGenerator
run g [] = g
run g (c ∷ cs) = run (step g c) cs

-- No counter wraps, and only tokens that the generator could have issued are extended.
abbrev pub Sound : TokenGenerator → Call → Type 0
Sound g (acquires r o ttl now) = current_token_number g r + 1 < 2 ^ 64
Sound g (extends t ttl now later) = t.token ≤ current_token_number g t.resource

abbrev pub AllSound : TokenGenerator → List Call → Type 0
AllSound g [] = Unit
AllSound g (c ∷ cs) = Sound g c × AllSound (step g c) cs

-- No active token is ahead of its resource's counter.
abbrev pub Inv : TokenGenerator → Type 0
Inv g = (r : String) → latest_number g r ≤ current_token_number g r

superseded_below :
    (g : TokenGenerator) (t : FencingToken)
    → superseded g t ≡ ltb t.token (latest_number g t.resource)
unfolding superseded latest_number
superseded_below g t = ground arith

latest-acquire :
    (g : TokenGenerator) (r o s : String) (ttl : ℤ) (now : ℕ)
    → latest_number (acquire_token g r o ttl now).1 s
      ≡ (if r =? s then (acquire_token g r o ttl now).0.token else latest_number g s)
unfolding acquire_token latest_number latest_token
latest-acquire g r o s ttl now =
    ground (arith, lookup-insert g.active_tokens r s (acquire_token g r o ttl now).0)

latest-insert :
    (g : TokenGenerator) (r s : String) (u : FencingToken)
    → latest_number (record g { active_tokens = insert g.active_tokens r u }) s
      ≡ (if r =? s then u.token else latest_number g s)
unfolding latest_number latest_token
latest-insert g r s u = ground (arith, lookup-insert g.active_tokens r s u)

-- The extended token.
abbrev pub extended : FencingToken → ℤ → ℕ → FencingToken
extended current ttl later = record current { expires_at = later + positive_or default_ttl ttl }

extend_alone :
    (g : TokenGenerator) (t : FencingToken) (ttl : ℤ) (now later : ℕ)
    → (extend_lease g g g t ttl now later).2 ≡ (
        if is_expired t now || superseded g t
        then g
        else record g { active_tokens = insert g.active_tokens t.resource (extended t ttl later) })
unfolding extend_lease
extend_alone g t ttl now later = ground arith

latest-extend :
    (g : TokenGenerator) (t : FencingToken) (s : String) (ttl : ℤ) (now later : ℕ)
    → latest_number g s ≤ latest_number (extend_lease g g g t ttl now later).2 s
latest-extend g t s ttl now later = ground (
  arith,
  extend_alone g t ttl now later,
  latest-insert g t.resource s (extended t ttl later),
  superseded_below g t,
  eq_iff t.resource s,
)

current-extend :
    (g : TokenGenerator) (t : FencingToken) (s : String) (ttl : ℤ) (now later : ℕ)
    → current_token_number (extend_lease g g g t ttl now later).2 s ≡ current_token_number g s
unfolding extend_lease current_token_number
current-extend g t s ttl now later = ground arith

-- A call never lowers the number of a resource's latest token.
step-latest :
    (g : TokenGenerator) (c : Call) (s : String)
    → Inv g
    → Sound g c
    → latest_number g s ≤ latest_number (step g c) s
unfolding step
step-latest g (acquires r o ttl now) s v ok =
    ground (arith, latest-acquire g r o s ttl now, acquire-token g r o ttl now ok, eq_iff r s, v s)
step-latest g (extends t ttl now later) s v ok = latest-extend g t s ttl now later

step-Inv : (g : TokenGenerator) (c : Call) → Inv g → Sound g c → Inv (step g c)
unfolding step
step-Inv g (acquires r o ttl now) v ok s =
    ground (arith, latest-acquire g r o s ttl now, current-acquire g r o s ttl now, v s)
step-Inv g (extends t ttl now later) v ok s = ground (
  arith,
  current-extend g t s ttl now later,
  extend_alone g t ttl now later,
  latest-insert g t.resource s (extended t ttl later),
  eq_iff t.resource s,
  v s,
)

run-latest :
    (g : TokenGenerator) (cs : List Call) (s : String)
    → Inv g
    → AllSound g cs
    → latest_number g s ≤ latest_number (run g cs) s
unfolding run
run-latest g [] s v ok = omega arith
run-latest g (c ∷ cs) s v ok =
    omega (arith, step-latest g c s v ok.0, run-latest (step g c) cs s (step-Inv g c v ok.0) ok.1)

check_fails :
    (g : TokenGenerator) (t : FencingToken) (now : ℕ)
    → superseded g t ≡ true
    → check_preemption g t now ≢ none
unfolding check_preemption
check_fails g t now h = ground arith

extend_fails :
    (f g : TokenGenerator) (t : FencingToken) (ttl : ℤ) (now later : ℕ)
    → superseded g t ≡ true
    → ((extend_lease f g g t ttl now later).0 ≢ none) × ((extend_lease f g g t ttl now later).2 ≡ g)
unfolding extend_lease check_preemption
extend_fails f g t ttl now later h = (ground arith, ground arith)

-- As long as each of the further extensions has the generator to itself, no counter wraps, no latest
-- token is ahead of its resource's counter, and only tokens that are not ahead of it either are
-- extended, preemption is final: once a token is below the latest number on its resource, then
-- after any further grants and extensions, at any time, its check answers an error, and extending
-- it answers an error and leaves the generator as it is, whatever generator the first check of that
-- extension saw.
pub preemption_final :
    (g seen : TokenGenerator) (t : FencingToken) (cs : List Call) (ttl : ℤ) (now later : ℕ)
    → Inv g
    → AllSound g cs
    → t.token < latest_number g t.resource
    → let g' = run g cs in
      (check_preemption g' t now ≢ none)
      × ((extend_lease seen g' g' t ttl now later).0 ≢ none)
      × ((extend_lease seen g' g' t ttl now later).2 ≡ g')
preemption_final g seen t cs ttl now later v ok low =
    let still : superseded (run g cs) t ≡ true =
      superseded_below (run g cs) t ∙ lt→ltb _ _ (omega (arith, run-latest g cs t.resource v ok)) in
    let refused = extend_fails seen (run g cs) t ttl now later still in
    (check_fails (run g cs) t now still, refused.0, refused.1)

extend_race :
    (g h : TokenGenerator) (t : FencingToken) (ttl : ℤ) (now later : ℕ)
    → check_preemption g t now ≡ none
    → extend_lease g g h t ttl now later ≡ (
      none,
      extended t ttl later,
      record h { active_tokens = insert h.active_tokens t.resource (extended t ttl later) },
    )
unfolding extend_lease
extend_race g h t ttl now later valid = ground arith

valid_at :
    (h : TokenGenerator) (u : FencingToken) (at : ℕ)
    → at ≤ u.expires_at
    → check_preemption (record h { active_tokens = insert h.active_tokens u.resource u }) u at
      ≡ none
unfolding check_preemption
valid_at h u at early = ground (
  arith,
  superseded_below (record h { active_tokens = insert h.active_tokens u.resource u }) u,
  latest-insert h u.resource u.resource u,
  eq_iff u.resource u.resource,
)

-- But the generator is not locked from the second check to the write of an extension. If the
-- resource's next token is granted just then, where the extended token is not ahead of the counter
-- and the counter does not wrap, the write puts the older token back as the latest, with its number
-- and all but its expiry as they were: the token granted is the greater, and yet the old holder's
-- check passes again, until its new expiry.
pub extension_hides_grant :
    (g : TokenGenerator) (t : FencingToken) (o : String) (ttl ttl' : ℤ) (now at later check : ℕ)
    → check_preemption g t now ≡ none
    → t.token ≤ current_token_number g t.resource
    → current_token_number g t.resource + 1 < 2 ^ 64
    → check ≤ (extended t ttl later).expires_at
    → let (newer, g'') = acquire_token g t.resource o ttl' at in
      let (err, older, after) = extend_lease g g g'' t ttl now later in
      (t.token < newer.token)
      × (err ≡ none)
      × (older ≡ extended t ttl later)
      × (latest_token after t.resource ≡ some older)
      × (check_preemption after older check ≡ none)
unfolding latest_token
extension_hides_grant g t o ttl ttl' now at later check valid issued room early =
    let h = (acquire_token g t.resource o ttl' at).1 in
    (
      omega (arith, acquire-token g t.resource o ttl' at room),
      rw (extend_race g h t ttl now later valid),
      rw (extend_race g h t ttl now later valid),
      rw (extend_race g h t ttl now later valid)
          (lookup-insert_self h.active_tokens t.resource (extended t ttl later)),
      rw (extend_race g h t ttl now later valid) (valid_at h (extended t ttl later) check early),
    )
