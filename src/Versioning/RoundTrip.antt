-- ===== src/Versioning/RoundTrip.antt =====
-- What is printed of a version is parsed to it.
use tempest.Base.{
  ℕ, ◌^◌, ◌<◌, String, ◌≡◌, refl, sym, ap, ◌∙◌, inl, inr, false, some, List, [], ◌∷◌, arith, ◌==◌,
  Bool-cases, pos, int_eq, ◌=?◌, string_eq, nat_eq, =?_eq,
}
use tempest.Base.Text.{append_ne, split, has_char, has_char-append, split-part, split-last}
use tempest.Base.Decimal.{decimal, atoi-decimal, decimal-has_char}
use tempest.Versioning.{Version, trim_v, from_parts, core_text, parse, print}
use Prim.Native.Char.{code}
use Prim.Native.String.{◌++◌ as join}
use text.Mathlib.TextLemmas.{nil-append, cons-append, append_assoc}

abbrev pub version : ℕ → ℕ → ℕ → String → Version
version a b c pre = record { major = pos a; minor = pos b; patch = pos c; pre = pre }

trim_v-digits :
    (x y : String)
    → has_char "v" x ≡ false
    → trim_v (join x (String.◌∷◌ "." y)) ≡ join x (String.◌∷◌ "." y)
unfolding has_char
trim_v-digits String.[] y h = rw (nil-append (String.◌∷◌ "." y)) refl
trim_v-digits (String.◌∷◌ c x) y h =
    let other : (code c == b'v') ≡ false = ground (arith, h) in
    rw (cons-append c x (String.◌∷◌ "." y), other) refl

free_of_dot : (n : ℕ) → has_char "." (decimal (pos n)) ≡ false
free_of_dot n = decimal-has_char n "." (inl (omega arith))

free_of_dash : (n : ℕ) → has_char "-" (decimal (pos n)) ≡ false
free_of_dash n = decimal-has_char n "-" (inl (omega arith))

free_of_v : (n : ℕ) → has_char "v" (decimal (pos n)) ≡ false
free_of_v n = decimal-has_char n "v" (inr (omega arith))

module _ (a b c : ℕ) where
  core-split :
      (pre : String)
      → a < 2 ^ 63
      → b < 2 ^ 63
      → c < 2 ^ 63
      → from_parts (split (core_text (version a b c "")) ".") pre ≡ some (version a b c pre)
  core-split pre ha hb hc =
      let tail = join (decimal (pos b)) (String.◌∷◌ "." (decimal (pos c))) in
      rw
        (
          split-part (decimal (pos a)) tail "." (free_of_dot a),
          split-part (decimal (pos b)) (decimal (pos c)) "." (free_of_dot b),
          split-last (decimal (pos c)) "." (free_of_dot c),
          atoi-decimal a ha,
          atoi-decimal b hb,
          atoi-decimal c hc,
        )
        refl

  core-has_char : has_char "-" (core_text (version a b c "")) ≡ false
  unfolding has_char
  core-has_char =
      let tail = join (decimal (pos b)) (String.◌∷◌ "." (decimal (pos c))) in
      rw
        (
          has_char-append "-" (decimal (pos a)) (String.◌∷◌ "." tail),
          has_char-append "-" (decimal (pos b)) (String.◌∷◌ "." (decimal (pos c))),
          free_of_dash a,
          free_of_dash b,
          free_of_dash c,
        )
        refl

  -- A pre-release after the core.
  parse-pre :
      (pre rest : String) (more : List String)
      → split rest "-" ≡ pre ∷ more
      → a < 2 ^ 63
      → b < 2 ^ 63
      → c < 2 ^ 63
      → parse (join (core_text (version a b c "")) (String.◌∷◌ "-" rest)) ≡ some (version a b c pre)
  unfolding parse
  parse-pre pre rest more sections ha hb hc =
      let tail = join (decimal (pos b)) (String.◌∷◌ "." (decimal (pos c))) in
      let after = String.◌∷◌ "-" rest in
      let whole = join (core_text (version a b c "")) after in
      let assoc : whole ≡ join (decimal (pos a)) (String.◌∷◌ "." (join tail after)) =
        append_assoc (decimal (pos a)) (String.◌∷◌ "." tail) after
        ∙ ap (join (decimal (pos a))) (cons-append "." tail after) in
      let untouched : trim_v whole ≡ whole =
        ap trim_v assoc
        ∙ trim_v-digits (decimal (pos a)) (join tail after) (free_of_v a)
        ∙ sym assoc in
      rw (untouched, split-part (core_text (version a b c "")) rest "-" core-has_char, sections)
        (core-split pre ha hb hc)

  pub parse-core :
      a < 2 ^ 63
      → b < 2 ^ 63
      → c < 2 ^ 63
      → parse (core_text (version a b c "")) ≡ some (version a b c "")
  unfolding parse
  parse-core ha hb hc =
      let tail = join (decimal (pos b)) (String.◌∷◌ "." (decimal (pos c))) in
      rw
        (
          trim_v-digits (decimal (pos a)) tail (free_of_v a),
          split-last (core_text (version a b c "")) "-" core-has_char,
        )
        (core-split "" ha hb hc)

-- A version whose numbers are below 2 ^ 63 and whose pre-release has no dash is printed to a text
-- that is parsed to it; with a dash and more after the pre-release, the text is parsed to the same
-- version, so that what stands behind a dash in the pre-release is lost.
pub parse-print :
    (a b c : ℕ) (pre more : String)
    → a < 2 ^ 63
    → b < 2 ^ 63
    → c < 2 ^ 63
    → has_char "-" pre ≡ false
    → (parse (print (version a b c pre)) ≡ some (version a b c pre))
      × (parse (print (version a b c (join pre (String.◌∷◌ "-" more)))) ≡ some (version a b c pre))
unfolding print
parse-print a b c pre more ha hb hc free =
    let longer = join pre (String.◌∷◌ "-" more) in
    let not_empty : (longer =? "") ≡ false = append_ne pre "-" more in
    (
      elim (Bool-cases (pre =? "")) [
        | inl none_there ↦ rw (none_there, =?_eq pre "" none_there) (parse-core a b c ha hb hc)
        | inr there ↦ rw there (parse-pre a b c pre pre [] (split-last pre "-" free) ha hb hc)
      ],
      rw not_empty
          (parse-pre a b c pre longer (split more "-") (split-part pre more "-" free) ha hb hc),
    )
