-- ===== src/Base/Text.antt =====
-- What the program uses of Go's package strings, where the separator is one character of one byte.
use tempest.Base.Tests.{◌==◌, ltb, leb, if◌then◌else◌}
use tempest.Base.Classes.{◌=?◌, =?_ne, string_eq}
use mathlib.Core.Bool.{true≢false}
use Prim.Native.Nat.{ℕ}
use Prim.Native.Char.{Char, code}
use Prim.Native.String.{String, ◌++◌}
use mathlib.Core.Bool.{Bool, true, false, ◌&&◌, ◌||◌, or_assoc}
use mathlib.Core.List.{List, [], ◌∷◌}
use native.Mathlib.Omega.{arith}
use mathlib.Core.Path.{◌≡◌, refl, ap, sym, ◌∙◌}
use text.Mathlib.TextEquality.{Char-path}
use text.Mathlib.TextLemmas.{nil-append, cons-append}

==_refl : (n : ℕ) → (n == n) ≡ true
==_refl n = ground arith

unfoldable pub has_char : Char → String → Bool
has_char c String.[] = false
has_char c (String.◌∷◌ d s) = (code d == code c) || has_char c s

-- The characters before the next separator, and the parts.
abbrev pub onto : Char → List String → List String
onto c [] = String.◌∷◌ c "" ∷ []
onto c (part ∷ parts) = String.◌∷◌ c part ∷ parts

-- `strings.Split(s, sep)`
unfoldable pub split : String → Char → List String
split String.[] sep = "" ∷ []
split (String.◌∷◌ c s) sep =
    let parts = split s sep in if code c == code sep then "" ∷ parts else onto c parts

-- `strings.ReplaceAll(s, old, new)`
unfoldable pub replace_char : String → Char → String → String
replace_char String.[] old new = ""
replace_char (String.◌∷◌ c s) old new =
    let rest = replace_char s old new in
    if code c == code old then new ++ rest else String.◌∷◌ c rest

-- The same, for an `old` of two characters.
unfoldable pub replace_pair : String → Char → Char → String → String
replace_pair String.[] a b new = ""
replace_pair (String.◌∷◌ c String.[]) a b new = String.◌∷◌ c ""
replace_pair (String.◌∷◌ c (String.◌∷◌ d s)) a b new =
    let after = replace_pair s a b new in
    let next = replace_pair (String.◌∷◌ d s) a b new in
    if (code c == code a) && (code d == code b) then new ++ after else String.◌∷◌ c next

pub or_split : (a b : Bool) → a || b ≡ false → (a ≡ false) × (b ≡ false)
or_split true b h = ground arith
or_split false b h = (refl, h)

-- A part without the separator is split off.
pub split-part :
    (x rest : String) (sep : Char)
    → has_char sep x ≡ false
    → split (x ++ (String.◌∷◌ sep rest)) sep ≡ x ∷ split rest sep
unfolding split has_char
split-part String.[] rest sep h =
    rw (nil-append (String.◌∷◌ sep rest), split, ==_refl (code sep)) refl
split-part (String.◌∷◌ c s) rest sep h =
    let (other, free) = or_split (code c == code sep) (has_char sep s) h in
    rw (cons-append c s (String.◌∷◌ sep rest), split, other, split-part s rest sep free) refl

pub split-last : (x : String) (sep : Char) → has_char sep x ≡ false → split x sep ≡ x ∷ []
unfolding split has_char
split-last String.[] sep h = refl
split-last (String.◌∷◌ c s) sep h =
    let (other, free) = or_split (code c == code sep) (has_char sep s) h in
    rw (other, split-last s sep free) refl

pub has_char-append :
    (c : Char) (x y : String) → has_char c (x ++ y) ≡ (has_char c x || has_char c y)
unfolding has_char
has_char-append c String.[] y = rw (nil-append y) refl
has_char-append c (String.◌∷◌ d x) y =
    rw (cons-append d x y, has_char, has_char-append c x y)
      (sym (or_assoc (code d == code c) (has_char c x) (has_char c y)))

pub replace_pair-other :
    (c : Char) (s : String) (a b : Char) (new : String)
    → (code c == code a) ≡ false
    → replace_pair (String.◌∷◌ c s) a b new ≡ String.◌∷◌ c (replace_pair s a b new)
unfolding replace_pair
replace_pair-other c String.[] a b new h = refl
replace_pair-other c (String.◌∷◌ d s) a b new h = rw h refl

-- The first character of a pair, before another second one.
pub replace_pair-near :
    (d : Char) (s : String) (a b : Char) (new : String)
    → (code d == code b) ≡ false
    → (code d == code a) ≡ false
    → replace_pair (String.◌∷◌ a (String.◌∷◌ d s)) a b new
      ≡ String.◌∷◌ a (String.◌∷◌ d (replace_pair s a b new))
unfolding replace_pair
replace_pair-near d s a b new h g = rw (==_refl (code a), h, replace_pair-other d s a b new g) refl

pub replace_pair-same :
    (a b : Char) (s new : String)
    → replace_pair (String.◌∷◌ a (String.◌∷◌ b s)) a b new ≡ new ++ replace_pair s a b new
unfolding replace_pair
replace_pair-same a b s new = rw (==_refl (code a), ==_refl (code b)) refl

-- A character that is replaced by two, and one that is not.
pub replace_char-same :
    (c : Char) (s : String) (old a b : Char)
    → (code c == code old) ≡ true
    → replace_char (String.◌∷◌ c s) old (String.◌∷◌ a (String.◌∷◌ b ""))
      ≡ String.◌∷◌ a (String.◌∷◌ b (replace_char s old (String.◌∷◌ a (String.◌∷◌ b ""))))
unfolding replace_char
replace_char-same c s old a b h =
    let rest = replace_char s old (String.◌∷◌ a (String.◌∷◌ b "")) in
    rw (h, cons-append a (String.◌∷◌ b "") rest, cons-append b "" rest, nil-append rest) refl

pub replace_char-other :
    (c : Char) (s : String) (old : Char) (new : String)
    → (code c == code old) ≡ false
    → replace_char (String.◌∷◌ c s) old new ≡ String.◌∷◌ c (replace_char s old new)
unfolding replace_char
replace_char-other c s old new h = rw h refl

pub replace_pair-nil : (a b : Char) (new : String) → replace_pair "" a b new ≡ ""
unfolding replace_pair
replace_pair-nil a b new = refl

abbrev pub is_empty : String → Bool
is_empty String.[] = true
is_empty (String.◌∷◌ c s) = false

-- `unicode.IsSpace`
abbrev pub is_space : Char → Bool
is_space c =
    (leb 9 (code c) && leb (code c) 13)
    || (code c == 32)
    || (code c == 0x85)
    || (code c == 0xA0)
    || (code c == 0x1680)
    || (leb 0x2000 (code c) && leb (code c) 0x200A)
    || (code c == 0x2028)
    || (code c == 0x2029)
    || (code c == 0x202F)
    || (code c == 0x205F)
    || (code c == 0x3000)

abbrev pub trim_left : String → String
trim_left String.[] = ""
trim_left (String.◌∷◌ c s) = let rest = trim_left s in if is_space c then rest else String.◌∷◌ c s

abbrev pub ending : Char → String → String
ending c String.[] = if is_space c then "" else String.◌∷◌ c ""
ending c (String.◌∷◌ d s) = String.◌∷◌ c (String.◌∷◌ d s)

abbrev pub trim_right : String → String
trim_right String.[] = ""
trim_right (String.◌∷◌ c s) = ending c (trim_right s)

-- `strings.TrimSpace`
unfoldable pub trim_space : String → String
trim_space s = trim_right (trim_left s)

ending-append :
    (c : Char) (x y : String) → is_empty y ≡ false → ending c (x ++ y) ≡ String.◌∷◌ c (x ++ y)
ending-append c String.[] String.[] some_char = ground arith
ending-append c String.[] (String.◌∷◌ d y) some_char = rw (nil-append (String.◌∷◌ d y)) refl
ending-append c (String.◌∷◌ d x) y some_char = rw (cons-append d x y) refl

-- What ends in a text that is not trimmed is not trimmed either.
pub trim_right-append :
    (x y : String) → is_empty y ≡ false → trim_right y ≡ y → trim_right (x ++ y) ≡ x ++ y
trim_right-append String.[] y some_char h = rw (nil-append y) h
trim_right-append (String.◌∷◌ c x) y some_char h =
    rw (cons-append c x y, trim_right-append x y some_char h) (ending-append c x y some_char)

trim_space_runs : trim_space "  >= 1.2 " ≡ ">= 1.2"
unfolding trim_space
trim_space_runs = refl

-- Characters that Go's `==` takes for the same are the same.
pub char_eq : (c d : Char) → (code c == code d) ≡ true → c ≡ d
char_eq c d h = Char-path c d (ground arith)

pub text_ne : (c : Char) (s : String) → ((String.◌∷◌ c s) =? "") ≡ false
text_ne c s = =?_ne (String.◌∷◌ c s) "" (λ p. true≢false (sym (ap is_empty p)))

pub append_ne : (x : String) (c : Char) (y : String) → ((x ++ String.◌∷◌ c y) =? "") ≡ false
append_ne String.[] c y = rw (nil-append (String.◌∷◌ c y)) (text_ne c y)
append_ne (String.◌∷◌ d x) c y =
    rw (cons-append d x (String.◌∷◌ c y)) (text_ne d (x ++ String.◌∷◌ c y))

-- `s < t`: the order of the bytes is that of the characters.
unfoldable pub text_less : String → String → Bool
text_less String.[] String.[] = false
text_less String.[] (String.◌∷◌ d t) = true
text_less (String.◌∷◌ c s) String.[] = false
text_less (String.◌∷◌ c s) (String.◌∷◌ d t) =
    let rest = text_less s t in
    if ltb (code c) (code d) then true else if ltb (code d) (code c) then false else rest

pub text_less_asym : (s t : String) → text_less s t ≡ true → text_less t s ≡ false
unfolding text_less
text_less_asym String.[] String.[] h = refl
text_less_asym String.[] (String.◌∷◌ d t) h = refl
text_less_asym (String.◌∷◌ c s) String.[] h = ground arith
text_less_asym (String.◌∷◌ c s) (String.◌∷◌ d t) h = ground (arith, text_less_asym s t)

pub text_less_total : (s t : String) → text_less s t ≡ false → text_less t s ≡ false → s ≡ t
unfolding text_less
text_less_total String.[] String.[] h g = refl
text_less_total String.[] (String.◌∷◌ d t) h g = ground arith
text_less_total (String.◌∷◌ c s) String.[] h g = ground arith
text_less_total (String.◌∷◌ c s) (String.◌∷◌ d t) h g =
    let same : code c ≡ code d = ground arith in
    let rest : s ≡ t = text_less_total s t (ground arith) (ground arith) in
    ap (λ e. String.◌∷◌ e s) (Char-path c d same) ∙ ap (String.◌∷◌ d) rest

pub text_less_trans :
    (r s t : String) → text_less r s ≡ true → text_less s t ≡ true → text_less r t ≡ true
unfolding text_less
text_less_trans String.[] String.[] t h g = ground arith
text_less_trans String.[] (String.◌∷◌ d s) String.[] h g = ground arith
text_less_trans String.[] (String.◌∷◌ d s) (String.◌∷◌ e t) h g = refl
text_less_trans (String.◌∷◌ c r) String.[] t h g = ground arith
text_less_trans (String.◌∷◌ c r) (String.◌∷◌ d s) String.[] h g = ground arith
text_less_trans (String.◌∷◌ c r) (String.◌∷◌ d s) (String.◌∷◌ e t) h g =
    ground (arith, text_less_trans r s t)
