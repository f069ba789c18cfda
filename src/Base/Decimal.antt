-- ===== src/Base/Decimal.antt =====
-- Go's strconv.Atoi, and what fmt's %d writes of an int.
use tempest.Base.Tests.{ltb, leb, lt→ltb, ltb→lt, if◌then◌else◌, Bool-cases, ◌==◌}
use tempest.Base.Ints.{ℤ, pos, negsuc}
use tempest.Base.Text.{
  has_char, has_char-append, or_split, is_empty, is_space, trim_right, trim_right-append,
}
use Prim.Native.Nat.{ℕ, zero, suc, ◌+◌, ◌-◌, ◌*◌, ◌/◌, ◌%◌, ◌^◌, ◌<◌}
use Prim.Native.Char.{Char, code}
use Prim.Native.String.{String, ◌++◌}
use native.Mathlib.Omega.{arith}
use mathlib.Core.Bool.{Bool, true, false, ◌&&◌}
use text.Mathlib.TextLemmas.{nil-append, cons-append}
use mathlib.Core.Path.{◌≡◌, refl, ap}
use mathlib.Core.Logic.{inl, inr, ◌⊎◌}

unfoldable pub digit : ℕ → Char
digit zero = "0"
digit (suc zero) = "1"
digit (suc (suc zero)) = "2"
digit (suc (suc (suc zero))) = "3"
digit (suc (suc (suc (suc zero)))) = "4"
digit (suc (suc (suc (suc (suc zero))))) = "5"
digit (suc (suc (suc (suc (suc (suc zero)))))) = "6"
digit (suc (suc (suc (suc (suc (suc (suc zero))))))) = "7"
digit (suc (suc (suc (suc (suc (suc (suc (suc zero)))))))) = "8"
digit (suc (suc (suc (suc (suc (suc (suc (suc (suc n))))))))) = "9"

digit-code : (n : ℕ) → n < 10 → code (digit n) ≡ n + b'0'
unfolding digit
digit-code zero h = refl
digit-code (suc zero) h = refl
digit-code (suc (suc zero)) h = refl
digit-code (suc (suc (suc zero))) h = refl
digit-code (suc (suc (suc (suc zero)))) h = refl
digit-code (suc (suc (suc (suc (suc zero))))) h = refl
digit-code (suc (suc (suc (suc (suc (suc zero)))))) h = refl
digit-code (suc (suc (suc (suc (suc (suc (suc zero))))))) h = refl
digit-code (suc (suc (suc (suc (suc (suc (suc (suc zero)))))))) h = refl
digit-code (suc (suc (suc (suc (suc (suc (suc (suc (suc zero))))))))) h = refl
digit-code (suc (suc (suc (suc (suc (suc (suc (suc (suc (suc n)))))))))) h = omega arith

-- The digits of a number below 10 ^ `fuel`.
unfoldable pub digits_of : ℕ → ℕ → String
unfolding digit
digits_of zero n = ""
digits_of (suc fuel) n =
    let before = digits_of fuel (n / 10) in
    if ltb n 10 then String.◌∷◌ (digit n) "" else before ++ String.◌∷◌ (digit (n % 10)) ""

-- An int has at most 19 digits.
unfoldable pub decimal : ℤ → String
unfolding digits_of digit
decimal (pos n) = digits_of 19 n
decimal (negsuc n) = "-" ++ digits_of 19 (suc n)

-- What `strconv.ParseUint` finds: an error of syntax or of range, or the number.
pub data Parsed : Type 0 where
  bad_syntax out_of_range : Parsed
  number : ℕ → Parsed

-- The loop over the bytes, with the number so far.
unfoldable pub parse_digits : String → ℕ → Parsed
parse_digits String.[] n = number n
parse_digits (String.◌∷◌ c s) n =
    let next = n * 10 + (code c - b'0') in
    let rest = parse_digits s next in
    if leb b'0' (code c) && leb (code c) b'9'
    then (if ltb next (2 ^ 64) then rest else out_of_range)
    else bad_syntax

unfoldable pub parse_uint : String → Parsed
unfolding parse_digits
parse_uint String.[] = bad_syntax
parse_uint (String.◌∷◌ c s) = parse_digits (String.◌∷◌ c s) 0

-- The int that `strconv.Atoi` returns beside its error.
abbrev pub signed : Bool → Parsed → ℤ
signed minus bad_syntax = pos 0
signed true out_of_range = negsuc (2 ^ 63 - 1)
signed false out_of_range = pos (2 ^ 63 - 1)
signed true (number zero) = pos 0
signed true (number (suc n)) = if ltb n (2 ^ 63) then negsuc n else negsuc (2 ^ 63 - 1)
signed false (number n) = if ltb n (2 ^ 63) then pos n else pos (2 ^ 63 - 1)

unfoldable pub atoi : String → ℤ
unfolding parse_uint
atoi String.[] = pos 0
atoi (String.◌∷◌ c s) =
    if code c == b'-'
    then signed true (parse_uint s)
    else if code c == b'+'
    then signed false (parse_uint s)
    else signed false (parse_uint (String.◌∷◌ c s))

atoi_runs :
    (atoi "120" ≡ pos 120)
    × (atoi "-7" ≡ negsuc 6)
    × (atoi " 1" ≡ pos 0)
    × (decimal (pos 1205) ≡ "1205")
    × (decimal (negsuc 41) ≡ "-42")
unfolding atoi decimal
atoi_runs = (refl, refl, refl, refl, refl)

parse_digits-digit :
    (d a : ℕ)
    → d < 10
    → a * 10 + d < 2 ^ 64
    → parse_digits (String.◌∷◌ (digit d) "") a ≡ number (a * 10 + d)
unfolding parse_digits
parse_digits-digit d a small fits =
    let same : code (digit d) ≡ d + b'0' = digit-code d small in
    let low : leb b'0' (code (digit d)) ≡ true = ground arith in
    let high : leb (code (digit d)) b'9' ≡ true = ground arith in
    let next : a * 10 + (code (digit d) - b'0') ≡ a * 10 + d = omega arith in
    let within : ltb (a * 10 + d) (2 ^ 64) ≡ true = lt→ltb (a * 10 + d) (2 ^ 64) fits in
    rw (low, high, next, within) refl

-- The text so far, and one digit more.
parse_digits-append :
    (x : String) (a b d : ℕ)
    → d < 10
    → parse_digits x a ≡ number b
    → b * 10 + d < 2 ^ 64
    → parse_digits (x ++ String.◌∷◌ (digit d) "") a ≡ number (b * 10 + d)
unfolding parse_digits
parse_digits-append String.[] a b d small h fits =
    let same : a ≡ b = ground (arith, h) in
    rw (nil-append (String.◌∷◌ (digit d) ""), same) (parse_digits-digit d b small fits)
parse_digits-append (String.◌∷◌ c x) a b d small h fits =
    let next = a * 10 + (code c - b'0') in
    elim (Bool-cases (leb b'0' (code c) && leb (code c) b'9')) [
      | inl is_digit ↦ elim (Bool-cases (ltb next (2 ^ 64))) [
        | inl within ↦
            let rest =
              parse_digits-append x next b d small (ground (arith, is_digit, within, h)) fits in
            rw (cons-append c x (String.◌∷◌ (digit d) ""), parse_digits, is_digit, within) rest
        | inr over ↦ ground (arith, is_digit, over, h)
      ]
      | inr other ↦ ground (arith, other, h)
    ]

tenth : (fuel n : ℕ) → n < 10 ^ suc fuel → n / 10 < 10 ^ fuel
tenth fuel n h = omega arith

pub parse_digits-digits_of :
    (fuel n : ℕ) → n < 10 ^ fuel → n < 2 ^ 64 → parse_digits (digits_of fuel n) 0 ≡ number n
unfolding parse_digits digits_of
parse_digits-digits_of zero n h g = ap number (omega arith)
parse_digits-digits_of (suc fuel) n h g = elim (Bool-cases (ltb n 10)) [
  | inl small ↦
      rw (small, parse_digits-digit n 0 (ltb→lt n 10 small) (omega arith)) (ap number (omega arith))
  | inr big ↦
      let earlier = parse_digits-digits_of fuel (n / 10) (tenth fuel n h) (omega arith) in
      rw
        (
          big,
          parse_digits-append (digits_of fuel (n / 10)) 0 (n / 10) (n % 10) (omega arith) earlier
              (omega arith),
        )
        (ap number (omega arith))
]

digit-free :
    (d : ℕ) (c : Char)
    → d < 10
    → (code c < b'0') ⊎ (b'9' < code c)
    → (code (digit d) == code c) ≡ false
digit-free d c small h = let same : code (digit d) ≡ d + b'0' = digit-code d small in ground arith

-- No other character than a digit is written.
pub digits_of-has_char :
    (fuel n : ℕ) (c : Char)
    → (code c < b'0') ⊎ (b'9' < code c)
    → has_char c (digits_of fuel n) ≡ false
unfolding has_char digits_of
digits_of-has_char zero n c h = refl
digits_of-has_char (suc fuel) n c h = elim (Bool-cases (ltb n 10)) [
  | inl small ↦ rw (small, digit-free n c (ltb→lt n 10 small) h) refl
  | inr big ↦
      let last = digit-free (n % 10) c (omega arith) h in
      rw
        (
          big,
          has_char-append c (digits_of fuel (n / 10)) (String.◌∷◌ (digit (n % 10)) ""),
          digits_of-has_char fuel (n / 10) c h,
          has_char,
          last,
        )
        refl
]

-- A text that is not empty and has no sign is read digit by digit.
append-is_empty : (x : String) (c : Char) → is_empty (x ++ String.◌∷◌ c "") ≡ false
append-is_empty String.[] c = rw (nil-append (String.◌∷◌ c "")) refl
append-is_empty (String.◌∷◌ d x) c = rw (cons-append d x (String.◌∷◌ c "")) refl

digits_of-is_empty : (fuel n : ℕ) → is_empty (digits_of (suc fuel) n) ≡ false
unfolding digits_of
digits_of-is_empty fuel n = elim (Bool-cases (ltb n 10)) [
  | inl small ↦ rw small refl
  | inr big ↦ rw big (append-is_empty (digits_of fuel (n / 10)) (digit (n % 10)))
]

atoi-unsigned :
    (s : String) (n : ℕ)
    → is_empty s ≡ false
    → has_char "-" s ≡ false
    → has_char "+" s ≡ false
    → parse_digits s 0 ≡ number n
    → n < 2 ^ 63
    → atoi s ≡ pos n
unfolding atoi parse_uint has_char
atoi-unsigned String.[] n some_char no_minus no_plus read small = ground arith
atoi-unsigned (String.◌∷◌ c s) n some_char no_minus no_plus read small =
    let minus : (code c == b'-') ≡ false =
      (or_split (code c == b'-') (has_char "-" s) no_minus).0 in
    let plus : (code c == b'+') ≡ false = (or_split (code c == b'+') (has_char "+" s) no_plus).0 in
    rw (minus, plus, read, lt→ltb n (2 ^ 63) small) refl

pub atoi-decimal : (n : ℕ) → n < 2 ^ 63 → atoi (decimal (pos n)) ≡ pos n
unfolding decimal
atoi-decimal n h =
    atoi-unsigned (digits_of 19 n) n (digits_of-is_empty 18 n)
      (digits_of-has_char 19 n "-" (inl (omega arith)))
      (digits_of-has_char 19 n "+" (inl (omega arith)))
      (parse_digits-digits_of 19 n (omega arith) (omega arith)) h

-- No sign is written of a number that is not negative.
pub decimal-has_char :
    (n : ℕ) (c : Char) → (code c < b'0') ⊎ (b'9' < code c) → has_char c (decimal (pos n)) ≡ false
unfolding decimal
decimal-has_char n c h = digits_of-has_char 19 n c h

digit-trim_right : (d : ℕ) → d < 10 → trim_right (String.◌∷◌ (digit d) "") ≡ String.◌∷◌ (digit d) ""
digit-trim_right d small =
    let same : code (digit d) ≡ d + b'0' = digit-code d small in
    let solid : is_space (digit d) ≡ false = ground arith in rw solid refl

-- No space is trimmed from it, and it is not empty.
pub decimal-trim_right :
    (n : ℕ)
    → (trim_right (decimal (pos n)) ≡ decimal (pos n)) × (is_empty (decimal (pos n)) ≡ false)
unfolding decimal digits_of
decimal-trim_right n = elim (Bool-cases (ltb n 10)) [
  | inl small ↦ (rw small (digit-trim_right n (ltb→lt n 10 small)), rw small refl)
  | inr big ↦
      let last = digit-trim_right (n % 10) (omega arith) in
      let before = digits_of 18 (n / 10) in
      (
        rw big (trim_right-append before (String.◌∷◌ (digit (n % 10)) "") refl last),
        rw big (append-is_empty before (digit (n % 10))),
      )
]
