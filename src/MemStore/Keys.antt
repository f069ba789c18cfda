-- ===== src/MemStore/Keys.antt =====
-- internal/persistence/memstore/memstore.go: the texts that key the maps, the pages of a listing,
-- and the sorting of one.
pub mod Members
pub mod Slashes
use tempest.Base.{
  ℕ, zero, suc, ◌+◌, ◌/◌, ◌%◌, String, Bool, ◌||◌, List, [], ◌∷◌, leb, ◌==◌, if◌then◌else◌, get_or,
  take, drop, ℤ, pos, negsuc, ◌=?◌, string_eq, nat_eq,
}
use Prim.Native.String.{◌++◌ as join, find, len}

-- The decimal digits of a number below 10 ^ `fuel`, before `acc`.
unfoldable pub digits : ℕ → ℕ → String → String
digits zero n acc = acc
digits (suc fuel) n acc =
    let d = get_or ("0" ∷ "1" ∷ "2" ∷ "3" ∷ "4" ∷ "5" ∷ "6" ∷ "7" ∷ "8" ∷ "9" ∷ []) (n % 10) "" in
    let rest = digits fuel (n / 10) (join d acc) in if n / 10 == 0 then join d acc else rest

-- An int has at most 19 digits.
unfoldable pub itoa : ℤ → String
unfolding digits
itoa (pos n) = digits 19 n ""
itoa (negsuc n) = join "-" (digits 19 (suc n) "")

unfoldable pub def_key : String → String → ℤ → String
unfolding itoa
def_key namespace name version = join namespace (join "/" (join name (join "@" (itoa version))))

unfoldable pub run_key : String → String → String
run_key namespace id = join namespace (join "/" id)

-- The key of `Enqueue` and of the methods on a step in the queue.
unfoldable pub queue_key : String → String → String → String
queue_key namespace run_id step_id = join namespace (join "/" (join run_id (join "/" step_id)))

-- `strings.Contains(key, "/"+id+"/")`
unfoldable pub mentions : String → String → Bool
mentions key id = let part = join "/" (join id "/") in leb (find key part + len part) (len key)

module _ {ℓ} {A : Type ℓ} where
  -- `if offset > 0 { if offset >= len(out) { return empty }; out = out[offset:] }`
  abbrev pub skip : ℤ → List A → List A
  skip (pos n) out = drop n out
  skip (negsuc n) out = out

  -- `if limit > 0 && len(out) > limit { out = out[:limit] }`
  abbrev pub cap : ℤ → List A → List A
  cap (pos zero) out = out
  cap (pos (suc n)) out = take (suc n) out
  cap (negsuc n) out = out

  abbrev pub put_in : (A → A → Bool) → A → List A → List A
  put_in less x [] = x ∷ []
  put_in less x (y ∷ ys) = if less x y then x ∷ y ∷ ys else y ∷ put_in less x ys

  -- `sort.Slice`, which leaves open how it orders entries that neither precedes.
  abbrev pub sort_slice : (A → A → Bool) → List A → List A
  sort_slice less [] = []
  sort_slice less (x ∷ xs) = put_in less x (sort_slice less xs)

  -- `for ... { if !keep(x) { continue }; out = append(out, x) }`
  abbrev pub filter : (A → Bool) → List A → List A
  filter keep [] = []
  filter keep (x ∷ xs) = let rest = filter keep xs in if keep x then x ∷ rest else rest

-- The values of a map, in one order of `range`.
abbrev pub values {ℓ} : {V : Type ℓ} → List (String × V) → List V
values [] = []
values ((k, v) ∷ m) = v ∷ values m

-- `f == "" || x == f`
abbrev pub matches : String → String → Bool
matches f x = (f =? "") || (x =? f)
