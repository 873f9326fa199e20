-- ===== src/Api/Tasks.antt =====
-- api/types.go: commands, tasks and the retry policy.
use durablefuture.Prelude.{ℕ, String, List, Option}
use durablefuture.Prelude.Int.{ℤ}
use durablefuture.Api.Values.{Any, Float64}

-- `WorkflowCommandType` is a string, of which the code knows one value.
abbrev pub start_workflow_command : String
start_workflow_command = "StartWorkflow"

-- `[]byte`: the bytes of a message.
abbrev pub Bytes : Type 0
Bytes = List ℕ

pub record Command : Type 0 where
  pub command_type : String
  pub attributes : Bytes

pub record StartWorkflowAttributes : Type 0 where
  pub workflow_fn_name : String
  pub input : List Any

pub record StartWorkflowReply : Type 0 where
  pub error : String
  pub workflow_id : String

pub record RetryPolicy : Type 0 where
  pub initial_interval_ms : ℤ
  pub backoff_coefficient : Float64
  pub maximum_interval_ms : ℤ
  pub maximum_attempts : ℤ
  pub non_retryable_error_types : List String

pub record WorkflowTask : Type 0 where
  pub workflow_id : String
  pub workflow_fn : String
  pub input : List Any

pub record ActivityTask : Type 0 where
  pub workflow_fn : String
  pub workflow_id : String
  pub activity_fn : String
  pub input : List Any
  pub last_seq : ℤ
  pub attempt : ℤ
  pub schedule_to_close_timeout_unix : ℤ
  pub start_to_close_timeout_unix : ℤ
  pub retry_policy : Option RetryPolicy
  pub scheduled_at_ms : ℤ

-- The `Task` interface: the two types that implement `isTask`.
pub data Task : Type 0 where
  workflow_task : WorkflowTask → Task
  activity_task : ActivityTask → Task
