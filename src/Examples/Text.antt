-- ===== src/Examples/Text.antt =====
-- Runs of what reads and writes texts.
use tempest.Base.{
  ◌-◌, ◌/◌, ◌^◌, ◌<◌, ◌≡◌, refl, ◌↔◌, inl, inr, true, false, not, ◌&&◌, ◌||◌, none, some, [], ◌∷◌,
  ltb→lt, int_eq, string_eq, nat_eq,
}
use tempest.DeltaDiff.{invalid_pointer}
use tempest.DeltaDiff.Pointer.{parse_pointer, format_pointer}
use tempest.DeltaDiff.RoundTrip.{parse_pointer-format_pointer}
use tempest.Versioning.{parse, print, compare, equal, less_than, greater_than, satisfies}
use tempest.Versioning.Order.{compare_linear}
use tempest.Versioning.Constraints.{satisfies-print}
use Prim.Native.String.{◌++◌ as join}
use tempest.Versioning.RoundTrip.{version, parse-print}

pointer_runs :
    (format_pointer ("a/b" ∷ "m~n" ∷ "" ∷ []) ≡ "/a~1b/m~0n/")
    × (parse_pointer "/a~1b/~01" ≡ inr ("a/b" ∷ "~1" ∷ []))
    × (parse_pointer "a" ≡ inl invalid_pointer)
unfolding format_pointer parse_pointer
pointer_runs = (refl, refl, refl)

parse_pointer-format_pointer_example :
    parse_pointer (format_pointer ("a/b" ∷ "~1" ∷ "" ∷ [])) ≡ inr ("a/b" ∷ "~1" ∷ "" ∷ [])
parse_pointer-format_pointer_example = parse_pointer-format_pointer ("a/b" ∷ "~1" ∷ "" ∷ [])

parse_runs :
    (parse "v1.20.3-rc1" ≡ some (version 1 20 3 "rc1"))
    × (parse "1.2" ≡ none)
    × (print (version 1 20 3 "rc1") ≡ "1.20.3-rc1")
unfolding parse print tempest.Base.Decimal.decimal
parse_runs = (refl, refl, refl)

-- A space after the operator makes the first number zero, and a caret on 0.x leaves the patch out.
satisfies_runs :
    (satisfies (version 1 0 0 "") ">= 2.0.0" ≡ true)
    × (satisfies (version 1 0 0 "") ">=2.0.0" ≡ false)
    × (satisfies (version 0 2 1 "") "^0.2.3" ≡ true)
unfolding satisfies compare tempest.Base.Text.trim_space
satisfies_runs = (refl, refl, refl)

compare_linear_example :
    ((equal (version 1 2 3 "a") (version 1 2 3 "") ≡ true) ↔ (version 1 2 3 "a" ≡ version 1 2 3 ""))
    × (greater_than (version 1 2 3 "") (version 1 2 3 "a")
        ≡ less_than (version 1 2 3 "a") (version 1 2 3 ""))
    × ((equal (version 1 2 3 "a") (version 1 2 3 "")
          || less_than (version 1 2 3 "a") (version 1 2 3 "")
          || less_than (version 1 2 3 "") (version 1 2 3 "a"))
        ≡ true)
    × ((less_than (version 1 2 3 "a") (version 1 2 3 "")
          && less_than (version 1 2 3 "") (version 1 2 3 "a"))
        ≡ false)
    × ((less_than (version 1 2 3 "a") (version 1 2 3 "")
          && less_than (version 1 2 3 "") (version 1 3 0 "")
          && not (less_than (version 1 2 3 "a") (version 1 3 0 "")))
        ≡ false)
compare_linear_example = compare_linear (version 1 2 3 "a") (version 1 2 3 "") (version 1 3 0 "")

parse-print_example :
    (parse (print (version 1 20 3 "rc")) ≡ some (version 1 20 3 "rc"))
    × (parse (print (version 1 20 3 "rc-1")) ≡ some (version 1 20 3 "rc"))
unfolding tempest.Base.Text.has_char
parse-print_example =
    parse-print 1 20 3 "rc" "1" (ltb→lt 1 (2 ^ 63) refl) (ltb→lt 20 (2 ^ 63) refl)
      (ltb→lt 3 (2 ^ 63) refl) refl

satisfies-print_example :
    (satisfies (version 1 5 0 "") (join ">=" (print (version 1 20 3 "")))
      ≡ not (less_than (version 1 5 0 "") (version 1 20 3 "")))
    × (satisfies (version 1 5 0 "") (join "<=" (print (version 1 20 3 "")))
        ≡ not (greater_than (version 1 5 0 "") (version 1 20 3 "")))
    × (satisfies (version 1 5 0 "") (join ">" (print (version 1 20 3 "")))
        ≡ greater_than (version 1 5 0 "") (version 1 20 3 ""))
    × (satisfies (version 1 5 0 "") (join "<" (print (version 1 20 3 "")))
        ≡ less_than (version 1 5 0 "") (version 1 20 3 ""))
satisfies-print_example =
    satisfies-print (version 1 5 0 "") 1 20 3 (ltb→lt 1 (2 ^ 63) refl) (ltb→lt 20 (2 ^ 63) refl)
      (ltb→lt 3 (2 ^ 63) refl)
