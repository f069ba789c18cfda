-- ===== src/Fencing/Storage.antt =====
-- internal/fencing/storage_validator.go. A value is a list of bytes; the copies that `Put` and
-- `Get` make of it keep callers' slices apart from the stored one, as values do here.
pub mod Fence
use tempest.Base.{
  string_eq, ℕ, ◌+◌, String, Bool, false, Option, none, some, List, [], ltb, if◌then◌else◌, u64,
}
use tempest.Base.GoMap.{lookup, insert, erase}
use tempest.Fencing.Token.{FencingToken, is_expired, count_at}

pub data Error : Type 0 where
  token_expired stale_fencing_token : Error

pub record StorageEntry : Type 0 where
  pub value : List ℕ
  pub fencing_token : FencingToken

pub record FencedStorage : Type 0 where
  pub store : List (String × StorageEntry)
  pub highest_token : List (String × ℕ)
  pub rejected_cnt : ℕ

unfoldable pub new_fenced_storage : FencedStorage
new_fenced_storage = record { store = []; highest_token = []; rejected_cnt = 0 }

-- `exists && token.Token < highest`
unfoldable pub is_stale : FencedStorage → String → FencingToken → Bool
is_stale s key token = elim (lookup s.highest_token key) [
  | none ↦ false
  | some highest ↦ ltb token.token highest
]

unfoldable pub put :
    FencedStorage → String → List ℕ → FencingToken → ℕ → Option Error × FencedStorage
unfolding is_expired is_stale
put s key value token now =
    if is_expired token now
    then (some token_expired, s)
    else if is_stale s key token
    then (some stale_fencing_token, record s { rejected_cnt = u64 (s.rejected_cnt + 1) })
    else (
      none,
      record s {
        highest_token = insert s.highest_token key token.token;
        store = insert s.store key (record { value = value; fencing_token = token });
      },
    )

unfoldable pub get : FencedStorage → String → Option (List ℕ × FencingToken)
get s key = elim (lookup s.store key) [
  | none ↦ none
  | some entry ↦ some (entry.value, entry.fencing_token)
]

unfoldable pub delete : FencedStorage → String → FencingToken → ℕ → Option Error × FencedStorage
unfolding is_expired is_stale
delete s key token now =
    if is_expired token now
    then (some token_expired, s)
    else if is_stale s key token
    then (some stale_fencing_token, record s { rejected_cnt = u64 (s.rejected_cnt + 1) })
    else (
      none,
      record s {
        highest_token = insert s.highest_token key token.token;
        store = erase s.store key;
      },
    )

unfoldable pub highest_observed_token : FencedStorage → String → ℕ
unfolding count_at
highest_observed_token s key = count_at s.highest_token key

unfoldable pub rejected_count : FencedStorage → ℕ
rejected_count s = s.rejected_cnt
