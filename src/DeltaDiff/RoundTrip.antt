-- ===== src/DeltaDiff/RoundTrip.antt =====
-- A pointer that was written is read back.
use tempest.Base.{
  String, ◌≡◌, refl, ap, ◌∙◌, inl, inr, true, false, List, [], ◌∷◌, map, ◌==◌, Bool-cases,
  string_eq, nat_eq,
}
use tempest.Base.Text.{
  split, replace_char, replace_pair, has_char, split-part, split-last, replace_pair-other,
  replace_pair-near, replace_pair-same, replace_char-same, replace_char-other, char_eq,
}
use text.Mathlib.TextLemmas.{nil-append, cons-append, append-nil}
use tempest.DeltaDiff.Pointer.{unescape, parse_pointer, escape, format_pointer}
use Prim.Native.Char.{Char, code}
use Prim.Native.String.{◌++◌ as join}

-- A key as it is after `~1` was read, and before `~0` is.
abbrev half : String → String
half tok = replace_char tok "~" "~0"

-- What the two steps of `escape` make of the first character.
half-tilde :
    (c : Char) (s : String)
    → (code c == b'~') ≡ true
    → (half (String.◌∷◌ c s) ≡ String.◌∷◌ "~" (String.◌∷◌ "0" (half s)))
      × (escape (String.◌∷◌ c s) ≡ String.◌∷◌ "~" (String.◌∷◌ "0" (escape s)))
unfolding escape
half-tilde c s h =
    let first = replace_char-same c s "~" "~" "0" h in
    (
      first,
      rw (first, replace_char-other "~" (String.◌∷◌ "0" (half s)) "/" "~1" refl)
          (ap (String.◌∷◌ "~") (replace_char-other "0" (half s) "/" "~1" refl)),
    )

half-slash :
    (c : Char) (s : String)
    → (code c == b'~') ≡ false
    → (code c == b'/') ≡ true
    → (half (String.◌∷◌ c s) ≡ String.◌∷◌ c (half s))
      × (escape (String.◌∷◌ c s) ≡ String.◌∷◌ "~" (String.◌∷◌ "1" (escape s)))
unfolding escape
half-slash c s h slash =
    let first = replace_char-other c s "~" "~0" h in
    (first, rw first (replace_char-same c (half s) "/" "~" "1" slash))

half-other :
    (c : Char) (s : String)
    → (code c == b'~') ≡ false
    → (code c == b'/') ≡ false
    → (half (String.◌∷◌ c s) ≡ String.◌∷◌ c (half s))
      × (escape (String.◌∷◌ c s) ≡ String.◌∷◌ c (escape s))
unfolding escape
half-other c s h g =
    let first = replace_char-other c s "~" "~0" h in
    (first, rw first (replace_char-other c (half s) "/" "~1" g))

escape_free : (tok : String) → has_char "/" (escape tok) ≡ false
unfolding has_char escape
escape_free String.[] = refl
escape_free (String.◌∷◌ c s) = elim (Bool-cases (code c == b'~')) [
  | inl tilde ↦ rw ((half-tilde c s tilde).1) (escape_free s)
  | inr other ↦ elim (Bool-cases (code c == b'/')) [
    | inl slash ↦ rw ((half-slash c s other slash).1) (escape_free s)
    | inr plain ↦ rw ((half-other c s other plain).1, has_char, plain) (escape_free s)
  ]
]

escape_nil : replace_pair (escape "") "~" "1" "/" ≡ half ""
unfolding replace_pair replace_char escape
escape_nil = refl

unescape_slash : (tok : String) → replace_pair (escape tok) "~" "1" "/" ≡ half tok
unescape_slash String.[] = escape_nil
unescape_slash (String.◌∷◌ c s) = elim (Bool-cases (code c == b'~')) [
  | inl tilde ↦
      rw
        (
          (half-tilde c s tilde).0,
          (half-tilde c s tilde).1,
          replace_pair-near "0" (escape s) "~" "1" "/" refl refl,
          unescape_slash s,
        )
        refl
  | inr other ↦ elim (Bool-cases (code c == b'/')) [
    | inl slash ↦
        rw
          (
            (half-slash c s other slash).0,
            (half-slash c s other slash).1,
            replace_pair-same "~" "1" (escape s) "/",
            unescape_slash s,
          )
          (cons-append "/" "" (half s) ∙ rw (nil-append (half s), char_eq c "/" slash) refl)
    | inr plain ↦
        rw
          (
            (half-other c s other plain).0,
            (half-other c s other plain).1,
            replace_pair-other c (escape s) "~" "1" "/" other,
            unescape_slash s,
          )
          refl
  ]
]

unescape_tilde : (tok : String) → replace_pair (half tok) "~" "0" "~" ≡ tok
unfolding replace_pair replace_char
unescape_tilde String.[] = refl
unescape_tilde (String.◌∷◌ c s) = elim (Bool-cases (code c == b'~')) [
  | inl tilde ↦
      rw ((half-tilde c s tilde).0, replace_pair-same "~" "0" (half s) "~", unescape_tilde s)
        (cons-append "~" "" s ∙ rw (nil-append s, char_eq c "~" tilde) refl)
  | inr other ↦
      rw
        (
          replace_char-other c s "~" "~0" other,
          replace_pair-other c (half s) "~" "0" "~" other,
          unescape_tilde s,
        )
        refl
]

unescape-escape : (tok : String) → unescape (escape tok) ≡ tok
unfolding unescape escape
unescape-escape tok = ap (λ t. replace_pair t "~" "0" "~") (unescape_slash tok) ∙ unescape_tilde tok

slash_first : (s : String) → join "/" s ≡ String.◌∷◌ "/" s
slash_first s = rw (cons-append "/" "" s, nil-append s) refl

parse_parts :
    (tok : String) (rest : List String)
    → map unescape (split (join (escape tok) (format_pointer rest)) "/") ≡ tok ∷ rest
unfolding format_pointer
parse_parts tok [] =
    rw (append-nil (escape tok), split-last (escape tok) "/" (escape_free tok), unescape-escape tok)
      refl
parse_parts tok (next ∷ rest) =
    rw
      (
        slash_first (join (escape next) (format_pointer rest)),
        split-part (escape tok) (join (escape next) (format_pointer rest)) "/" (escape_free tok),
        unescape-escape tok,
        parse_parts next rest,
      )
      refl

-- Every pointer that is written from keys is read back as those keys, whatever the keys hold.
pub parse_pointer-format_pointer :
    (tokens : List String) → parse_pointer (format_pointer tokens) ≡ inr tokens
unfolding parse_pointer format_pointer
parse_pointer-format_pointer [] = refl
parse_pointer-format_pointer (tok ∷ rest) =
    rw (slash_first (join (escape tok) (format_pointer rest)), parse_parts tok rest) refl
