-- ===== src/Versioning/Constraints.antt =====
-- Which versions satisfy a constraint.
use tempest.Base.{
  ℕ, ◌^◌, ◌<◌, String, ◌≡◌, refl, ap, inl, inr, false, not, ◌||◌, arith, ◌==◌, pos, int_eq,
  string_eq, nat_eq,
}
use tempest.Base.Text.{
  is_empty, trim_right, trim_right-append, trim_space, ending, has_char, or_split,
}
use tempest.Base.Decimal.{decimal, decimal-trim_right, decimal-has_char}
use tempest.Versioning.{
  Version, core_text, print, equal, less_than, greater_than, parsed, satisfies_above,
  satisfies_below, satisfies_trimmed, satisfies,
}
use tempest.Versioning.Order.{compare-IsSign}
use tempest.Versioning.RoundTrip.{version, parse-core}
use Prim.Native.Char.{Char, code}
use Prim.Native.String.{◌++◌ as join}
use text.Mathlib.TextLemmas.{nil-append, cons-append}

abbrev IsTrimmed : String → Type 0
IsTrimmed s = (trim_right s ≡ s) × (is_empty s ≡ false)

cons-IsTrimmed : (c : Char) (s : String) → IsTrimmed s → IsTrimmed (String.◌∷◌ c s)
cons-IsTrimmed c String.[] (same, some_char) = ground (arith, some_char)
cons-IsTrimmed c (String.◌∷◌ d s) (same, some_char) = (ap (ending c) same, refl)

append-IsTrimmed : (x y : String) → IsTrimmed y → IsTrimmed (join x y)
append-IsTrimmed String.[] y h = rw (nil-append y) h
append-IsTrimmed (String.◌∷◌ c x) y (same, some_char) =
    (trim_right-append (String.◌∷◌ c x) y some_char same, rw (cons-append c x y) refl)

core_text-IsTrimmed : (a b c : ℕ) → IsTrimmed (core_text (version a b c ""))
core_text-IsTrimmed a b c = append-IsTrimmed (decimal (pos a)) _ (
    cons-IsTrimmed "." _
      (append-IsTrimmed (decimal (pos b)) _ (cons-IsTrimmed "." _ (decimal-trim_right c))))

-- The comparisons, by the sign of `Compare`.
greater_or_equal : (v w : Version) → (greater_than v w || equal v w) ≡ not (less_than v w)
unfolding greater_than equal less_than
greater_or_equal v w = elim (compare-IsSign v w) [
  | inl h ↦ rw h refl
  | inr (inl h) ↦ rw h refl
  | inr (inr h) ↦ rw h refl
]

less_or_equal : (v w : Version) → (less_than v w || equal v w) ≡ not (greater_than v w)
unfolding greater_than equal less_than
less_or_equal v w = elim (compare-IsSign v w) [
  | inl h ↦ rw h refl
  | inr (inl h) ↦ rw h refl
  | inr (inr h) ↦ rw h refl
]

-- A text that starts with a number is not taken for the rest of an operator.
above-number :
    (v : Version) (x y : String)
    → is_empty x ≡ false
    → has_char "=" x ≡ false
    → satisfies_above v (join x y) ≡ greater_than v (parsed (join x y))
unfolding satisfies_above has_char
above-number v String.[] y some_char free = ground (arith, some_char)
above-number v (String.◌∷◌ c x) y some_char free =
    let other = (or_split (code c == b'=') (has_char "=" x) free).0 in
    rw (cons-append c x y, other) refl

below-number :
    (v : Version) (x y : String)
    → is_empty x ≡ false
    → has_char "=" x ≡ false
    → satisfies_below v (join x y) ≡ less_than v (parsed (join x y))
unfolding satisfies_below has_char
below-number v String.[] y some_char free = ground (arith, some_char)
below-number v (String.◌∷◌ c x) y some_char free =
    let other = (or_split (code c == b'=') (has_char "=" x) free).0 in
    rw (cons-append c x y, other) refl

-- A constraint with one of the comparing operators, of a trimmed text.
satisfies-above :
    (v : Version) (s : String) → IsTrimmed s → satisfies v (String.◌∷◌ ">" s) ≡ satisfies_above v s
unfolding satisfies satisfies_trimmed trim_space
satisfies-above v s trimmed = rw ((cons-IsTrimmed ">" s trimmed).0) refl

satisfies-below :
    (v : Version) (s : String) → IsTrimmed s → satisfies v (String.◌∷◌ "<" s) ≡ satisfies_below v s
unfolding satisfies satisfies_trimmed trim_space
satisfies-below v s trimmed = rw ((cons-IsTrimmed "<" s trimmed).0) refl

parsed-text :
    (a b c : ℕ)
    → a < 2 ^ 63
    → b < 2 ^ 63
    → c < 2 ^ 63
    → parsed (core_text (version a b c "")) ≡ version a b c ""
unfolding parsed
parsed-text a b c ha hb hc = rw (parsed, parse-core a b c ha hb hc) refl

-- For a version whose numbers are below 2 ^ 63 and that is no pre-release: an operator and the text
-- that is printed of it are satisfied, for `>=`, by what is not less than it, for `<=`, by what is
-- not greater, for `>`, by what is greater, and for `<`, by what is less.
pub satisfies-print :
    (v : Version) (a b c : ℕ)
    → a < 2 ^ 63
    → b < 2 ^ 63
    → c < 2 ^ 63
    → (satisfies v (join ">=" (print (version a b c ""))) ≡ not (less_than v (version a b c "")))
      × (satisfies v (join "<=" (print (version a b c "")))
          ≡ not (greater_than v (version a b c "")))
      × (satisfies v (join ">" (print (version a b c ""))) ≡ greater_than v (version a b c ""))
      × (satisfies v (join "<" (print (version a b c ""))) ≡ less_than v (version a b c ""))
unfolding print satisfies_above satisfies_below
satisfies-print v a b c ha hb hc =
    let text = core_text (version a b c "") in
    let solid = core_text-IsTrimmed a b c in
    let read = parsed-text a b c ha hb hc in
    let digits = decimal-trim_right a in
    let free = decimal-has_char a "=" (inr (omega arith)) in
    (
      rw
          (
            cons-append ">" "=" text,
            cons-append "=" "" text,
            nil-append text,
            satisfies-above v (String.◌∷◌ "=" text) (cons-IsTrimmed "=" text solid),
            read,
          )
          (greater_or_equal v (version a b c "")),
      rw
          (
            cons-append "<" "=" text,
            cons-append "=" "" text,
            nil-append text,
            satisfies-below v (String.◌∷◌ "=" text) (cons-IsTrimmed "=" text solid),
            read,
          )
          (less_or_equal v (version a b c "")),
      rw
          (
            cons-append ">" "" text,
            nil-append text,
            satisfies-above v text solid,
            above-number v (decimal (pos a)) _ digits.1 free,
            read,
          )
          refl,
      rw
          (
            cons-append "<" "" text,
            nil-append text,
            satisfies-below v text solid,
            below-number v (decimal (pos a)) _ digits.1 free,
            read,
          )
          refl,
    )
