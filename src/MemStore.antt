-- ===== src/MemStore.antt =====
-- internal/persistence/memstore: the store that keeps everything in maps. What goes in and what comes
-- out is cloned, so it is a value here; only ListRuns shares the steps of a run with its caller. The
-- mutex makes each method one step. Each child models the methods on one of the maps.
pub mod Keys
pub mod Definitions
pub mod Runs
pub mod Queue
pub mod Records
use tempest.Base.{String, List, [], string_eq, nat_eq}
use tempest.Types.Records.{WorkflowDefinition, Run}
use tempest.Types.Events.{Event, QueueItem, WebhookEndpoint, Delivery, ApiToken}

pub record Store (Any Float : Type 0) : Type 0 where
  pub definitions : List (String × WorkflowDefinition Float)
  pub runs : List (String × Run Any)
  pub queue : List (String × QueueItem)
  pub events : List (Event Any)
  pub webhooks : List (String × WebhookEndpoint)
  pub deliveries : List (String × Delivery)
  pub tokens : List (String × ApiToken)
  pub token_hash : List (String × ApiToken)

-- The kinds of the errors.
pub data Error : Type 0 where
  not_found already_exists : Error

unfoldable pub new : {Any Float : Type 0} → Store Any Float
new = record {
  definitions = [];
  runs = [];
  queue = [];
  events = [];
  webhooks = [];
  deliveries = [];
  tokens = [];
  token_hash = [];
}
