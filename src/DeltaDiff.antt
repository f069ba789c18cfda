-- ===== src/DeltaDiff.antt =====
-- internal/deltadiff/patch.go: the operations of a JSON patch and what is checked when one is read.
-- `Any` is Go's `any`; the JSON decoder is not modelled.
use Prim.Native.Char.{code}
pub mod Pointer
pub mod RoundTrip
use tempest.Base.{
  ℕ, suc, ◌/◌, String, Bool, false, not, ◌&&◌, ◌||◌, Option, none, some, List, [], ◌∷◌, ◌==◌,
  if◌then◌else◌, ◌=?◌, string_eq, nat_eq,
}

-- The kinds of the errors.
pub data Error : Type 0 where
  invalid_pointer path_not_found patch_failed test_failed : Error
  invalid_op : ℕ → Error

-- `OpType` is a string, which need not be one of the constants.
abbrev pub OpType : Type 0
OpType = String

abbrev pub op_add : OpType
op_add = "add"

abbrev pub op_remove : OpType
op_remove = "remove"

abbrev pub op_replace : OpType
op_replace = "replace"

abbrev pub op_move : OpType
op_move = "move"

abbrev pub op_copy : OpType
op_copy = "copy"

abbrev pub op_test : OpType
op_test = "test"

pub record PatchOperation (Any : Type 0) : Type 0 where
  pub op : OpType
  pub path : String
  pub from : String
  pub value : Option Any

unfoldable pub is_valid_op : OpType → Bool
is_valid_op op =
    (op =? op_add)
    || (op =? op_remove)
    || (op =? op_replace)
    || (op =? op_move)
    || (op =? op_copy)
    || (op =? op_test)

-- `strings.HasPrefix(s, "/")`
abbrev pub is_rooted : String → Bool
is_rooted String.[] = false
is_rooted (String.◌∷◌ c s) = code c == b'/'

-- The loop of `UnmarshalJSON` over the operations that were decoded.
unfoldable pub check_ops : {Any : Type 0} → ℕ → List (PatchOperation Any) → Option Error
unfolding is_valid_op
check_ops i [] = none
check_ops i (op ∷ rest) =
    let later = check_ops (suc i) rest in
    if not (is_valid_op op.op)
    then some (invalid_op i)
    else if not (is_rooted op.path) && not (op.path =? "")
    then some invalid_pointer
    else later
