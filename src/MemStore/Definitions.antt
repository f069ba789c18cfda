-- ===== src/MemStore/Definitions.antt =====
-- internal/persistence/memstore/memstore.go: the methods on definitions.
use tempest.Base.{
  String, ◌⊎◌, inl, inr, Bool, true, ◌&&◌, Option, none, some, List, [], ◌∷◌, if◌then◌else◌, ℤ,
  exceeds, ◌=?◌, string_eq, nat_eq,
}
use tempest.Base.GoMap.{lookup, insert, erase}
use tempest.Types.Records.{WorkflowId, WorkflowDefinition}
use tempest.MemStore.{Store, Error, not_found, already_exists}
use tempest.MemStore.Keys.{def_key, skip, cap, sort_slice, filter, values, matches}
use Prim.Native.String.{compare}
use text.Mathlib.Text.{is_lt}

pub record DefinitionFilter : Type 0 where
  pub namespace : String
  pub name : String
  pub limit : ℤ
  pub offset : ℤ

abbrev pub key_of : WorkflowId → String
key_of id = def_key id.namespace id.name id.version

module _ {Float : Type 0} where
  -- The loop of `GetDefinitionByName` over the definitions that are left.
  unfoldable pub latest_of :
      String
      → String
      → List (WorkflowDefinition Float)
      → Option (WorkflowDefinition Float)
      → Option (WorkflowDefinition Float)
  latest_of namespace name [] latest = latest
  latest_of namespace name (d ∷ rest) latest =
      let newer : Bool = elim latest [ none ↦ true | some l ↦ exceeds d.id.version l.id.version ] in
      let on = latest_of namespace name rest latest in
      let take_it = latest_of namespace name rest (some d) in
      if (d.id.namespace =? namespace) && (d.id.name =? name) && newer then take_it else on

  -- By name, and the newest version first.
  abbrev pub precedes : WorkflowDefinition Float → WorkflowDefinition Float → Bool
  precedes a b =
      if a.id.name =? b.id.name
      then exceeds a.id.version b.id.version
      else is_lt (compare a.id.name b.id.name)

module _ {Any Float : Type 0} where
  unfoldable pub create_definition :
      Store Any Float → WorkflowDefinition Float → Option Error × Store Any Float
  create_definition s d = elim (lookup s.definitions (key_of d.id)) [
    | some old ↦ (some already_exists, s)
    | none ↦ (none, record s { definitions = insert s.definitions (key_of d.id) d })
  ]

  unfoldable pub get_definition : Store Any Float → WorkflowId → Error ⊎ WorkflowDefinition Float
  get_definition s id = elim (lookup s.definitions (key_of id)) [
    | none ↦ inl not_found
    | some d ↦ inr d
  ]

  unfoldable pub get_definition_by_name :
      Store Any Float → String → String → Error ⊎ WorkflowDefinition Float
  unfolding latest_of
  get_definition_by_name s namespace name =
      elim (latest_of namespace name (values s.definitions) none) [
        | none ↦ inl not_found
        | some d ↦ inr d
      ]

  unfoldable pub list_definitions :
      Store Any Float → DefinitionFilter → List (WorkflowDefinition Float)
  list_definitions s f =
      let out =
        filter (λ d. matches f.namespace d.id.namespace && matches f.name d.id.name)
          (values s.definitions) in
      cap f.limit (skip f.offset (sort_slice precedes out))

  unfoldable pub delete_definition : Store Any Float → WorkflowId → Option Error × Store Any Float
  delete_definition s id = elim (lookup s.definitions (key_of id)) [
    | none ↦ (some not_found, s)
    | some d ↦ (none, record s { definitions = erase s.definitions (key_of id) })
  ]
