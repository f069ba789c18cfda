-- ===== src/Versioning.antt =====
-- internal/versioning/versioning.go: versions of the form 1.2.3-pre, their order, and constraints.
use tempest.Base.{
  suc, ◌-◌, ◌*◌, ◌^◌, ◌<◌, String, Bool, true, not, ◌&&◌, ◌||◌, Option, none, some, List, [], ◌∷◌,
  ◌==◌, if◌then◌else◌, ℤ, pos, negsuc, succ, exceeds, int_eq, ◌=?◌, string_eq, nat_eq,
}
use tempest.Base.Text.{split, text_less, trim_space}
use tempest.Base.Decimal.{atoi, decimal}
use Prim.Native.Char.{code}
use Prim.Native.String.{◌++◌ as join}
pub mod Signs
pub mod Order
pub mod RoundTrip
pub mod Constraints

pub record Version : Type 0 where
  pub major : ℤ
  pub minor : ℤ
  pub patch : ℤ
  pub pre : String

-- `Version{}`
abbrev pub zero_version : Version
zero_version = record { major = pos 0; minor = pos 0; patch = pos 0; pre = "" }

-- `strings.TrimPrefix(v, "v")`
abbrev pub trim_v : String → String
trim_v String.[] = ""
trim_v (String.◌∷◌ c s) = if code c == b'v' then s else String.◌∷◌ c s

-- The errors of `Atoi` are ignored.
abbrev pub from_parts : List String → String → Option Version
from_parts (a ∷ b ∷ c ∷ []) pre =
    some (record { major = atoi a; minor = atoi b; patch = atoi c; pre = pre })
from_parts _ pre = none

abbrev pub from_sections : List String → Option Version
from_sections [] = none
from_sections (first ∷ []) = from_parts (split first ".") ""
from_sections (first ∷ pre ∷ _) = from_parts (split first ".") pre

unfoldable pub parse : String → Option Version
unfolding split atoi
parse v = from_sections (split (trim_v v) "-")

-- `String`, before the pre-release is added.
abbrev pub core_text : Version → String
core_text v =
    join (decimal v.major)
      (String.◌∷◌ "." (join (decimal v.minor) (String.◌∷◌ "." (decimal v.patch))))

unfoldable pub print : Version → String
print v = if not (v.pre =? "") then join (core_text v) (String.◌∷◌ "-" v.pre) else core_text v

-- `if a != b { if a > b { return 1 }; return -1 }`, before what follows.
abbrev pub by_int : ℤ → ℤ → ℤ → ℤ
by_int a b next = if not (a =? b) then (if exceeds a b then pos 1 else negsuc 0) else next

abbrev pub by_pre : String → String → ℤ
by_pre s t =
    if (s =? "") && (t =? "")
    then pos 0
    else if s =? ""
    then pos 1
    else if t =? ""
    then negsuc 0
    else if text_less t s
    then pos 1
    else if text_less s t
    then negsuc 0
    else pos 0

unfoldable pub compare : Version → Version → ℤ
compare v other =
    by_int v.major other.major
      (by_int v.minor other.minor (by_int v.patch other.patch (by_pre v.pre other.pre)))

unfoldable pub equal : Version → Version → Bool
unfolding compare
equal v other = compare v other =? pos 0

unfoldable pub less_than : Version → Version → Bool
unfolding compare
less_than v other = exceeds (pos 0) (compare v other)

unfoldable pub greater_than : Version → Version → Bool
unfolding compare
greater_than v other = exceeds (compare v other) (pos 0)

-- `n + 1` on 64 bits.
abbrev pub next_int : ℤ → ℤ
next_int (pos n) = if n == 2 ^ 63 - 1 then negsuc (2 ^ 63 - 1) else pos (suc n)
next_int (negsuc n) = succ (negsuc n)

abbrev pub increment_major : Version → Version
increment_major v = record { major = next_int v.major; minor = pos 0; patch = pos 0; pre = "" }

abbrev pub increment_minor : Version → Version
increment_minor v = record { major = v.major; minor = next_int v.minor; patch = pos 0; pre = "" }

abbrev pub increment_patch : Version → Version
increment_patch v = record { major = v.major; minor = v.minor; patch = next_int v.patch; pre = "" }

-- `other, _ := Parse(text)`
abbrev pub parsed : String → Version
unfolding parse
parsed text = elim (parse text) [ none ↦ zero_version | some v ↦ v ]

abbrev pub at_least : ℤ → ℤ → Bool
at_least a b = not (exceeds b a)

-- What follows a `>` and a `<`.
abbrev pub satisfies_above : Version → String → Bool
unfolding greater_than equal parsed
satisfies_above v String.[] = greater_than v (parsed "")
satisfies_above v (String.◌∷◌ c text) =
    if code c == b'='
    then greater_than v (parsed text) || equal v (parsed text)
    else greater_than v (parsed (String.◌∷◌ c text))

abbrev pub satisfies_below : Version → String → Bool
unfolding less_than equal parsed
satisfies_below v String.[] = less_than v (parsed "")
satisfies_below v (String.◌∷◌ c text) =
    if code c == b'='
    then less_than v (parsed text) || equal v (parsed text)
    else less_than v (parsed (String.◌∷◌ c text))

abbrev pub in_tilde : Version → Version → Bool
in_tilde v other =
    (v.major =? other.major) && (v.minor =? other.minor) && at_least v.patch other.patch

abbrev pub in_caret : Version → Version → Bool
in_caret v other =
    if other.major =? pos 0
    then (v.major =? other.major) && at_least v.minor other.minor
    else (v.major =? other.major)
      && (exceeds v.minor other.minor || ((v.minor =? other.minor) && at_least v.patch other.patch))

-- `Satisfies`, after the spaces around the constraint are gone.
abbrev pub satisfies_trimmed : Version → String → Bool
unfolding satisfies_above satisfies_below parsed equal
satisfies_trimmed v String.[] = true
satisfies_trimmed v (String.◌∷◌ c text) =
    if (code c == b'*') && (text =? "")
    then true
    else if code c == b'>'
    then satisfies_above v text
    else if code c == b'<'
    then satisfies_below v text
    else if code c == b'~'
    then in_tilde v (parsed text)
    else if code c == b'^'
    then in_caret v (parsed text)
    else equal v (parsed (String.◌∷◌ c text))

unfoldable pub satisfies : Version → String → Bool
unfolding satisfies_trimmed
satisfies v constraint = satisfies_trimmed v (trim_space constraint)
