-- ===== src/MemStore/Records.antt =====
-- internal/persistence/memstore/memstore.go: the methods on events, webhooks, deliveries and tokens.
use tempest.Base.{
  ℕ, String, ◌⊎◌, inl, inr, true, ◌&&◌, Option, none, some, List, [], ◌∷◌, ◌++◌, ltb, ◌==◌,
  if◌then◌else◌, ℤ, pos, ◌=?◌, string_eq, nat_eq,
}
use tempest.Base.GoMap.{lookup, insert, erase}
use tempest.Types.Events.{
  EventType, event_run_created, event_step_queued, event_step_started, event_step_done,
  event_step_failed, event_run_completed, event_run_failed, event_run_cancelled,
  event_run_timed_out, event_retry_scheduled, Event, WebhookEndpoint, DeliveryStatus,
  delivery_queued, delivery_delivered, delivery_failed, Delivery, ApiToken,
}
use Prim.Native.String.{compare}
use text.Mathlib.Text.{is_lt}
use tempest.MemStore.{Store, Error, not_found, already_exists}
use tempest.MemStore.Keys.{def_key, skip, cap, sort_slice, filter, values, matches}

pub record EventFilter : Type 0 where
  pub namespace : String
  pub run_id : String
  pub event_type : Option EventType
  pub limit : ℤ

pub record DeliveryFilter : Type 0 where
  pub namespace : String
  pub endpoint_id : String
  pub status : Option DeliveryStatus
  pub limit : ℤ
  pub offset : ℤ

pub record CredentialsFilter : Type 0 where
  pub namespace : String
  pub limit : ℤ

abbrev event_code : EventType → ℕ
event_code event_run_created = 0
event_code event_step_queued = 1
event_code event_step_started = 2
event_code event_step_done = 3
event_code event_step_failed = 4
event_code event_run_completed = 5
event_code event_run_failed = 6
event_code event_run_cancelled = 7
event_code event_run_timed_out = 8
event_code event_retry_scheduled = 9

abbrev status_code : DeliveryStatus → ℕ
status_code delivery_queued = 0
status_code delivery_delivered = 1
status_code delivery_failed = 2

-- The key of the maps whose entries have no version.
abbrev pub id_key : String → String → String
id_key namespace id = def_key namespace id (pos 0)

-- `if hash != "" { m[hash] = t }` and `if hash != "" { delete(m, hash) }`.
abbrev pub index_token : List (String × ApiToken) → ApiToken → List (String × ApiToken)
index_token m t = if t.token_hash =? "" then m else insert m t.token_hash t

abbrev pub unindex_token : List (String × ApiToken) → ApiToken → List (String × ApiToken)
unindex_token m t = if t.token_hash =? "" then m else erase m t.token_hash

-- The loop of `GetEvent`.
unfoldable pub find_event : {Any : Type 0} → List (Event Any) → String → Option (Event Any)
find_event [] id = none
find_event (e ∷ rest) id = if e.id =? id then some e else find_event rest id

module _ {Any Float : Type 0} where
  unfoldable pub append_event : Store Any Float → Event Any → Store Any Float
  append_event s e = record s { events = s.events ++ e ∷ [] }

  unfoldable pub get_event : Store Any Float → String → Error ⊎ Event Any
  unfolding find_event
  get_event s id = elim (find_event s.events id) [ none ↦ inl not_found | some e ↦ inr e ]

  -- An empty type in the filter is `none`.
  unfoldable pub list_events : Store Any Float → EventFilter → List (Event Any)
  list_events s f =
      let keep = λ (e : Event Any).
        matches f.namespace e.namespace
        && matches f.run_id e.run_id
        && (elim f.event_type [ none ↦ true | some t ↦ event_code e.event_type == event_code t ]) in
      let newest = λ (a b : Event Any). ltb b.created_at a.created_at in
      cap f.limit (sort_slice newest (filter keep s.events))

  unfoldable pub create_webhook_endpoint :
      Store Any Float → WebhookEndpoint → Option Error × Store Any Float
  create_webhook_endpoint s e = elim (lookup s.webhooks (id_key e.namespace e.id)) [
    | some old ↦ (some already_exists, s)
    | none ↦ (none, record s { webhooks = insert s.webhooks (id_key e.namespace e.id) e })
  ]

  unfoldable pub get_webhook_endpoint : Store Any Float → String → String → Error ⊎ WebhookEndpoint
  get_webhook_endpoint s namespace id = elim (lookup s.webhooks (id_key namespace id)) [
    | none ↦ inl not_found
    | some e ↦ inr e
  ]

  unfoldable pub list_webhook_endpoints : Store Any Float → String → List WebhookEndpoint
  list_webhook_endpoints s namespace =
      let by_id = λ (a b : WebhookEndpoint). is_lt (compare a.id b.id) in
      sort_slice by_id
        (filter (λ (e : WebhookEndpoint). e.namespace =? namespace) (values s.webhooks))

  unfoldable pub update_webhook_endpoint :
      Store Any Float → WebhookEndpoint → Option Error × Store Any Float
  update_webhook_endpoint s e = elim (lookup s.webhooks (id_key e.namespace e.id)) [
    | none ↦ (some not_found, s)
    | some old ↦ (none, record s { webhooks = insert s.webhooks (id_key e.namespace e.id) e })
  ]

  unfoldable pub delete_webhook_endpoint :
      Store Any Float → String → String → Option Error × Store Any Float
  delete_webhook_endpoint s namespace id = elim (lookup s.webhooks (id_key namespace id)) [
    | none ↦ (some not_found, s)
    | some old ↦ (none, record s { webhooks = erase s.webhooks (id_key namespace id) })
  ]

  unfoldable pub create_delivery : Store Any Float → Delivery → Option Error × Store Any Float
  create_delivery s d = elim (lookup s.deliveries (id_key d.namespace d.id)) [
    | some old ↦ (some already_exists, s)
    | none ↦ (none, record s { deliveries = insert s.deliveries (id_key d.namespace d.id) d })
  ]

  unfoldable pub update_delivery : Store Any Float → Delivery → Option Error × Store Any Float
  update_delivery s d = elim (lookup s.deliveries (id_key d.namespace d.id)) [
    | none ↦ (some not_found, s)
    | some old ↦ (none, record s { deliveries = insert s.deliveries (id_key d.namespace d.id) d })
  ]

  -- An empty status in the filter is `none`.
  unfoldable pub list_deliveries : Store Any Float → DeliveryFilter → List Delivery
  list_deliveries s f =
      let keep = λ (d : Delivery).
        matches f.namespace d.namespace
        && matches f.endpoint_id d.endpoint_id
        && (elim f.status [ none ↦ true | some st ↦ status_code d.status == status_code st ]) in
      let oldest = λ (a b : Delivery). ltb a.created_at b.created_at in
      cap f.limit (skip f.offset (sort_slice oldest (filter keep (values s.deliveries))))

  unfoldable pub create_token : Store Any Float → ApiToken → Option Error × Store Any Float
  create_token s t = elim (lookup s.tokens (id_key t.namespace t.id)) [
    | some old ↦ (some already_exists, s)
    | none ↦ (
      none,
      record s {
        tokens = insert s.tokens (id_key t.namespace t.id) t;
        token_hash = index_token s.token_hash t;
      },
    )
  ]

  unfoldable pub get_token : Store Any Float → String → String → Error ⊎ ApiToken
  get_token s namespace id = elim (lookup s.tokens (id_key namespace id)) [
    | none ↦ inl not_found
    | some t ↦ inr t
  ]

  unfoldable pub lookup_token_by_hash : Store Any Float → String → Error ⊎ ApiToken
  lookup_token_by_hash s hash = elim (lookup s.token_hash hash) [
    | none ↦ inl not_found
    | some t ↦ inr t
  ]

  unfoldable pub list_tokens : Store Any Float → CredentialsFilter → List ApiToken
  list_tokens s f =
      cap f.limit (filter (λ (t : ApiToken). matches f.namespace t.namespace) (values s.tokens))

  unfoldable pub delete_token : Store Any Float → String → String → Option Error × Store Any Float
  delete_token s namespace id = elim (lookup s.tokens (id_key namespace id)) [
    | none ↦ (some not_found, s)
    | some t ↦ (
      none,
      record s {
        tokens = erase s.tokens (id_key namespace id);
        token_hash = unindex_token s.token_hash t;
      },
    )
  ]
