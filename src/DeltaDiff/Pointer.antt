-- ===== src/DeltaDiff/Pointer.antt =====
-- internal/deltadiff/patch.go: JSON pointers, between texts and the keys they lead through.
use tempest.Base.{String, ◌⊎◌, inl, inr, not, List, [], ◌∷◌, map, if◌then◌else◌, string_eq, nat_eq}
use tempest.Base.Text.{split, replace_char, replace_pair}
use tempest.DeltaDiff.{Error, invalid_pointer, is_rooted}
use Prim.Native.String.{◌++◌ as join}

-- The body of the loop of `ParsePointer`.
unfoldable pub unescape : String → String
unfolding replace_pair
unescape tok = replace_pair (replace_pair tok "~" "1" "/") "~" "0" "~"

unfoldable pub parse_pointer : String → Error ⊎ List String
unfolding split unescape
parse_pointer String.[] = inr []
parse_pointer (String.◌∷◌ c rest) =
    if not (is_rooted (String.◌∷◌ c rest))
    then inl invalid_pointer
    else inr (map unescape (split rest "/"))

-- The body of the loop of `FormatPointer`.
unfoldable pub escape : String → String
unfolding replace_char
escape tok = replace_char (replace_char tok "~" "~0") "/" "~1"

unfoldable pub format_pointer : List String → String
unfolding escape
format_pointer [] = ""
format_pointer (tok ∷ rest) = join "/" (join (escape tok) (format_pointer rest))
