-- ===== src/Plugin.antt =====
-- internal/plugin/plugin.go: the registry of step handlers. A handler acts outside; here it is known
-- by what it answers. `has_space` is `strings.ContainsAny(name, " \t\n")`.
use tempest.Base.{
  String, ◌⊎◌, inl, inr, Bool, true, false, Option, none, some, List, [], ◌∷◌, if◌then◌else◌, ℤ,
  ◌=?◌, string_eq, nat_eq,
}
use tempest.Base.GoMap.{lookup, insert, keys}
use tempest.MemStore.Keys.{sort_slice}
use Prim.Native.String.{compare}
use text.Mathlib.Text.{is_lt}

pub record Handle (Any : Type 0) : Type 0 where
  pub run_id : String
  pub step_id : String
  pub namespace : String
  pub run_input : List (String × Any)
  pub deadline : ℤ

-- The pair of a Result and an error, with the errors' texts.
pub data Answer (Any : Type 0) : Type 0 where
  done : List (String × Any) → Answer Any
  result_error execute_error : String → Answer Any

pub record Handler (Any : Type 0) : Type 0 where
  pub name : String
  pub description : String
  pub execute : Handle Any → Answer Any

pub record HandlerSpec : Type 0 where
  pub name : String
  pub description : String

pub data Error : Type 0 where
  empty_name name_with_space already_registered no_handler : Error

abbrev pub Registry : Type 0 → Type 0
Registry Any = List (String × Handler Any)

module _ {Any : Type 0} where
  unfoldable pub register :
      (String → Bool) → Registry Any → Handler Any → Option Error × Registry Any
  register has_space r h =
      if h.name =? ""
      then (some empty_name, r)
      else if has_space h.name
      then (some name_with_space, r)
      else elim (lookup r h.name) [
        | some old ↦ (some already_registered, r)
        | none ↦ (none, insert r h.name h)
      ]

  unfoldable pub resolve : Registry Any → String → Error ⊎ Handler Any
  resolve r name = elim (lookup r name) [ none ↦ inl no_handler | some h ↦ inr h ]

  unfoldable pub has : Registry Any → String → Bool
  has r name = elim (lookup r name) [ none ↦ false | some h ↦ true ]

  unfoldable pub list : Registry Any → List String
  list r = sort_slice (λ a b. is_lt (compare a b)) (keys r)

  abbrev pub describe : Handler Any → String
  describe h = if h.description =? "" then h.name else h.description

  abbrev pub specs_of : Registry Any → List HandlerSpec
  specs_of [] = []
  specs_of ((name, h) ∷ r) = record { name = name; description = describe h } ∷ specs_of r

  unfoldable pub specs : Registry Any → List HandlerSpec
  specs r = sort_slice (λ (a b : HandlerSpec). is_lt (compare a.name b.name)) (specs_of r)
