-- ===== src/Types/Events.antt =====
-- pkg/types/types.go: events, and the records of the queue, the webhooks and the credentials.
use tempest.Base.{
  ℕ, String, ◌≡◌, refl, Bool, Option, none, some, List, if◌then◌else◌, ℤ, ◌=?◌, string_eq, nat_eq,
}

pub data EventType : Type 0 where
  event_run_created event_step_queued event_step_started event_step_done event_step_failed :
      EventType
  event_run_completed event_run_failed event_run_cancelled event_run_timed_out
        event_retry_scheduled :
      EventType

-- The constants' texts.
unfoldable pub event_type_text : EventType → String
event_type_text event_run_created = "run.created"
event_type_text event_step_queued = "step.queued"
event_type_text event_step_started = "step.started"
event_type_text event_step_done = "step.completed"
event_type_text event_step_failed = "step.failed"
event_type_text event_run_completed = "run.completed"
event_type_text event_run_failed = "run.failed"
event_type_text event_run_cancelled = "run.cancelled"
event_type_text event_run_timed_out = "run.timed_out"
event_type_text event_retry_scheduled = "retry.scheduled"

unfoldable pub short : EventType → String
short event_run_created = "run-created"
short event_step_queued = "step-queued"
short event_step_started = "step-started"
short event_step_done = "step-done"
short event_step_failed = "step-failed"
short event_run_completed = "run-completed"
short event_run_failed = "run-failed"
short event_run_cancelled = "run-cancelled"
short event_run_timed_out = "run-timedout"
short event_retry_scheduled = "retry-scheduled"

-- The `switch` of `ParseEventType` on the trimmed text.
unfoldable pub event_type_of : String → Option EventType
event_type_of c =
    if c =? "run.created"
    then some event_run_created
    else if c =? "step.queued"
    then some event_step_queued
    else if c =? "step.started"
    then some event_step_started
    else if c =? "step.completed"
    then some event_step_done
    else if c =? "step.failed"
    then some event_step_failed
    else if c =? "run.completed"
    then some event_run_completed
    else if c =? "run.failed"
    then some event_run_failed
    else if c =? "run.cancelled"
    then some event_run_cancelled
    else if c =? "run.timed_out"
    then some event_run_timed_out
    else if c =? "retry.scheduled"
    then some event_retry_scheduled
    else none

-- `trim` is `strings.TrimSpace`.
unfoldable pub parse_event_type : (String → String) → String → Option EventType
unfolding event_type_of
parse_event_type trim s = event_type_of (trim s)

pub record Event (Any : Type 0) : Type 0 where
  pub id : String
  pub event_type : EventType
  pub version : ℤ
  pub namespace : String
  pub run_id : String
  pub step_id : String
  pub created_at : ℕ
  pub payload : List (String × Any)
  pub attempt : ℤ

pub record QueueItem : Type 0 where
  pub run_id : String
  pub namespace : String
  pub step_id : String
  pub enqueued_at : ℕ
  pub visible_at : ℕ
  pub attempt : ℤ

pub record WebhookEndpoint : Type 0 where
  pub id : String
  pub namespace : String
  pub url : String
  pub secret : String
  pub types : List EventType
  pub active : Bool
  pub timeout : ℤ
  pub created_at : ℕ

pub data DeliveryStatus : Type 0 where
  delivery_queued delivery_delivered delivery_failed : DeliveryStatus

pub record Delivery : Type 0 where
  pub id : String
  pub event_id : String
  pub endpoint_id : String
  pub namespace : String
  pub status : DeliveryStatus
  pub attempts : ℤ
  pub last_status : ℤ
  pub last_error : String
  pub created_at : ℕ
  pub attempted_at : Option ℕ
  pub finished_at : Option ℕ

pub record ApiToken : Type 0 where
  pub id : String
  pub namespace : String
  pub role : String
  pub label : String
  pub created_at : ℕ
  pub expires_at : Option ℕ
  pub token_hash : String

pub event_type_of-text : (t : EventType) → event_type_of (event_type_text t) ≡ some t
unfolding event_type_of event_type_text
event_type_of-text event_run_created = refl
event_type_of-text _ = refl
