-- ===== src/Fencing/Token.antt =====
-- internal/fencing/token.go. Token and epoch numbers are uint64.
pub mod Monotonic
use tempest.Base.{
  string_eq, ℕ, ◌+◌, ◌-◌, ◌*◌, ◌^◌, String, ◌≡◌, Bool, Option, none, some, List, [], arith, ltb,
  ◌==◌, if◌then◌else◌, ℤ, positive_or, u64, ◌=?◌,
}
use tempest.Base.GoMap.{lookup, insert, lookup-insert}

pub record FencingToken : Type 0 where
  pub resource : String
  pub token : ℕ
  pub owner : String
  pub epoch : ℕ
  pub issued_at : ℕ
  pub expires_at : ℕ

-- `time.Now().UTC().After(t.ExpiresAt)`
unfoldable pub is_expired : FencingToken → ℕ → Bool
is_expired t now = ltb t.expires_at now

pub record TokenGenerator : Type 0 where
  pub last_token : List (String × ℕ)
  pub epochs : List (String × ℕ)
  pub active_tokens : List (String × FencingToken)

unfoldable pub new_token_generator : TokenGenerator
new_token_generator = record { last_token = []; epochs = []; active_tokens = [] }

-- `m[key]` of a `map[string]uint64`, 0 where the key is missing.
unfoldable pub count_at : List (String × ℕ) → String → ℕ
unfolding lookup
count_at m key = elim (lookup m key) [ none ↦ 0 | some n ↦ n ]

-- 30 * time.Second
abbrev pub default_ttl : ℕ
default_ttl = 30 * 10 ^ 9

unfoldable pub acquire_token :
    TokenGenerator → String → String → ℤ → ℕ → FencingToken × TokenGenerator
unfolding count_at
acquire_token g resource owner ttl now =
    let last' = insert g.last_token resource (u64 (count_at g.last_token resource + 1)) in
    let tok_num = count_at last' resource in
    let first = tok_num == 1 in
    let epoch = if first then 1 else count_at g.epochs resource in
    let token : FencingToken = record {
      resource = resource;
      token = tok_num;
      owner = owner;
      epoch = epoch;
      issued_at = now;
      expires_at = now + positive_or default_ttl ttl;
    } in
    (
      token,
      record {
        last_token = last';
        epochs = if first then insert g.epochs resource 1 else g.epochs;
        active_tokens = insert g.active_tokens resource token;
      },
    )

unfoldable pub next_epoch : TokenGenerator → String → ℕ × TokenGenerator
unfolding count_at
next_epoch g resource =
    let epochs' = insert g.epochs resource (u64 (count_at g.epochs resource + 1)) in
    (count_at epochs' resource, record g { epochs = epochs' })

unfoldable pub latest_token : TokenGenerator → String → Option FencingToken
latest_token g resource = lookup g.active_tokens resource

unfoldable pub current_token_number : TokenGenerator → String → ℕ
unfolding count_at
current_token_number g resource = count_at g.last_token resource

-- A count after a write, at any key.
pub count_at-insert :
    (m : List (String × ℕ)) (k j : String) (v : ℕ)
    → count_at (insert m k v) j ≡ (if k =? j then v else count_at m j)
unfolding count_at
count_at-insert m k j v = ground (arith, lookup-insert m k j v)
