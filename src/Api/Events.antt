-- ===== src/Api/Events.antt =====
-- api/events.go: the events of a workflow's history. A `[]any` field whose nil is told from the empty
-- slice somewhere is an `Option (List Any)`; the input fields, which are only ranged over, are lists.
use durablefuture.Prelude.{String, List, Option}
use durablefuture.Prelude.Int.{ℤ}
use durablefuture.Api.Values.{Any}
use durablefuture.Api.Tasks.{RetryPolicy}

pub record WorkflowStarted : Type 0 where
  pub id : String
  pub workflow_fn_name : String
  pub input : List Any

pub record ActivityScheduled : Type 0 where
  pub id : String
  pub workflow_fn_name : String
  pub activity_fn_name : String
  pub input : List Any
  pub schedule_to_close_timeout_unix : ℤ
  pub start_to_close_timeout_unix : ℤ
  pub retry_policy : Option RetryPolicy

pub record ActivityStarted : Type 0 where
  pub id : String
  pub workflow_fn_name : String
  pub activity_fn_name : String

pub record ActivityCompleted : Type 0 where
  pub id : String
  pub workflow_fn_name : String
  pub activity_fn_name : String
  pub result : Option (List Any)

pub record ActivityFailed : Type 0 where
  pub id : String
  pub workflow_fn_name : String
  pub activity_fn_name : String
  pub error : String

pub record ActivityRetried : Type 0 where
  pub id : String
  pub workflow_fn_name : String
  pub activity_fn_name : String
  pub attempt : ℤ
  pub error : String
  pub next_retry_delay : ℤ

pub record WorkflowFailed : Type 0 where
  pub id : String
  pub workflow_fn_name : String
  pub error : String

pub record WorkflowCompleted : Type 0 where
  pub id : String
  pub workflow_fn_name : String
  pub result : Option (List Any)

-- The `WorkflowEvent` interface is closed: these types alone implement `isWorkflowEvent`.
pub data WorkflowEvent : Type 0 where
  workflow_started : WorkflowStarted → WorkflowEvent
  activity_scheduled : ActivityScheduled → WorkflowEvent
  activity_started : ActivityStarted → WorkflowEvent
  activity_completed : ActivityCompleted → WorkflowEvent
  activity_failed : ActivityFailed → WorkflowEvent
  activity_retried : ActivityRetried → WorkflowEvent
  workflow_failed : WorkflowFailed → WorkflowEvent
  workflow_completed : WorkflowCompleted → WorkflowEvent

-- The types behind the interface, for the factories that choose one by its name.
pub data EventKind : Type 0 where
  started scheduled begun completed failed retried wf_failed wf_completed : EventKind

unfoldable pub kind : WorkflowEvent → EventKind
kind (workflow_started e) = started
kind (activity_scheduled e) = scheduled
kind (activity_started e) = begun
kind (activity_completed e) = completed
kind (activity_failed e) = failed
kind (activity_retried e) = retried
kind (workflow_failed e) = wf_failed
kind (workflow_completed e) = wf_completed

-- The `EventName` methods, of a type's value: the name depends on the type alone.
unfoldable pub event_name : EventKind → String
event_name started = "workflow/started"
event_name scheduled = "activity/scheduled"
event_name begun = "activity/started"
event_name completed = "activity/completed"
event_name failed = "activity/failed"
event_name retried = "activity/retried"
event_name wf_failed = "workflow/failed"
event_name wf_completed = "workflow/completed"

-- The two fields that every event has.
abbrev pub event_id : WorkflowEvent → String
event_id (workflow_started e) = e.id
event_id (activity_scheduled e) = e.id
event_id (activity_started e) = e.id
event_id (activity_completed e) = e.id
event_id (activity_failed e) = e.id
event_id (activity_retried e) = e.id
event_id (workflow_failed e) = e.id
event_id (workflow_completed e) = e.id

abbrev pub event_workflow : WorkflowEvent → String
event_workflow (workflow_started e) = e.workflow_fn_name
event_workflow (activity_scheduled e) = e.workflow_fn_name
event_workflow (activity_started e) = e.workflow_fn_name
event_workflow (activity_completed e) = e.workflow_fn_name
event_workflow (activity_failed e) = e.workflow_fn_name
event_workflow (activity_retried e) = e.workflow_fn_name
event_workflow (workflow_failed e) = e.workflow_fn_name
event_workflow (workflow_completed e) = e.workflow_fn_name
