-- ===== src/Server/Examples.antt =====
-- The theorems on the manager, at concrete messages and a concrete broker.
mod Attempts
mod Commands
mod Pages
mod Setups
mod Startups
use mathlib.Core.List.{Memᴰ}
use durablefuture.Prelude.{
  ℕ, zero, suc, leb, inl, ◌≤◌, ◌≡◌, refl, String, List, [], ◌∷◌, ◌++◌, Option, none, some, Result,
  ok, err, arith, length, concat,
}
use durablefuture.Prelude.Dict.{Dict, lookup, insert}
use durablefuture.Prelude.Int.{ℤ, pos, wrap32}
use durablefuture.Api.Values.{Any, nil, string, Float64, FloatOps}
use durablefuture.Api.Keys.{workflow_input_key}
use durablefuture.Api.Keys.Separate.{workflow_input_key-injective}
use durablefuture.Api.Tasks.{
  Bytes, Command, StartWorkflowAttributes, RetryPolicy, WorkflowTask, ActivityTask,
}
use durablefuture.Api.Events.{
  WorkflowEvent, ActivityScheduled, ActivityCompleted, ActivityFailed, workflow_started,
  activity_scheduled, activity_started, activity_completed, activity_failed, workflow_completed,
  EventKind, started, scheduled, kind, event_name, event_id, event_workflow,
}
use durablefuture.Server.Decode.{Msg, EventSerde, infer_from_keys, decode_workflow_event}
use durablefuture.Server.Decode.RoundTrip.{
  Carries, Headerless, field_names, decode_workflow_event-Headerless, json_keys,
  infer_from_keys-json_keys, decode_workflow_event-Carries,
}
use durablefuture.Server.Broker.{
  JetStream, Serde, Bucket, Action, ack, publish, workflow_input_bucket,
}
use durablefuture.Server.Command.{
  History, HistoryMsg, CommandSerde, started_event, started_msg, handle_request,
}
use durablefuture.Server.Command.Starts.{Outcome, handle_request-Outcome}
use durablefuture.Server.Manager.{Durable, perform, Reachable, initial, command, stored_bucket}
use durablefuture.Server.Manager.Inputs.{Held, Reachable-Holds}
use durablefuture.Server.Manager.Resumes.{continues_as_started}
use durablefuture.Server.WorkflowTasks.{project_workflow_task, handle_workflow_tasks}
use durablefuture.Server.ActivityTasks.{first_attempt, handle_activity_tasks}
use durablefuture.Server.WorkflowResults.{handle_workflow_results}
use durablefuture.Server.Answers.{Answered, projections-Answered}
use durablefuture.Server.ActivityRetries.{find_scheduled}
use durablefuture.Server.ActivityRetries.Histories.{Searched, find_scheduled-Searched}

abbrev float : ℕ → Float64
float n = record { bits = n }

abbrev pub floats : FloatOps
floats = record {
  of_int64 = λ n. float 1;
  to_int64 = λ x. pos x.bits;
  mul = λ x y. float 1;
  sub = λ x y. float 1;
  pow = λ x y. float 1;
  is_nonpositive = λ x. leb x.bits 0;
  one = float 1;
  two = float 2;
}

abbrev pub policy : RetryPolicy
policy = record {
  initial_interval_ms = pos 100;
  backoff_coefficient = float 2;
  maximum_interval_ms = pos 1000;
  maximum_attempts = pos 3;
  non_retryable_error_types = [];
}

abbrev pub payment : ActivityScheduled
payment = record {
  id = "1";
  workflow_fn_name = "order";
  activity_fn_name = "pay";
  input = [];
  schedule_to_close_timeout_unix = pos 0;
  start_to_close_timeout_unix = pos 0;
  retry_policy = some policy;
}

abbrev fn : String
fn = "main.Order"

abbrev joined : String
joined = concat ("main" ∷ ".Order" ∷ [])

abbrev one : String
one = "0001"

workflow_input_key-injective_example : (fn ≡ joined) × (one ≡ one)
workflow_input_key-injective_example = workflow_input_key-injective fn joined one one refl refl

infer_from_keys-json_keys_example :
    infer_from_keys (json_keys (activity_scheduled payment))
    ≡ ok (event_name (kind (activity_scheduled payment)))
infer_from_keys-json_keys_example = infer_from_keys-json_keys (activity_scheduled payment)

-- A serializer whose events are numbered.
abbrev pub finished : ActivityCompleted
finished = record { id = "1"; workflow_fn_name = "order"; activity_fn_name = "pay"; result = none }

abbrev decoded : EventKind → Bytes → Result WorkflowEvent
decoded scheduled b = ok (activity_scheduled payment)
decoded started b =
    ok (workflow_started (record { id = "1"; workflow_fn_name = "order"; input = [] }))
decoded k b = ok (activity_completed finished)

abbrev pub events : EventSerde
events = record { decode_event = decoded; decode_keys = λ b. ok ("id" ∷ "wf_name" ∷ "input" ∷ []) }

abbrev pub serde : Serde
serde = record {
  events = events;
  serialize_workflow_task = λ t. ok (7 ∷ []);
  serialize_activity_task = λ t. ok (8 ∷ []);
  serialize_values = λ vs. ok (9 ∷ []);
  deserialize_values = λ b. ok [];
}

abbrev pub scheduling : Msg
scheduling = record {
  subject = "history.1";
  payload = 1 ∷ [];
  event_header = "activity/scheduled";
  metadata = ok (record { consumer_sequence = 4; timestamp_ms = pos 1000 });
}

abbrev pub starting : Msg
starting = record scheduling { event_header = "workflow/started" }

decode_workflow_event-Carries_example :
    decode_workflow_event events scheduling ≡ ok (activity_scheduled payment)
unfolding kind event_name
decode_workflow_event-Carries_example =
    decode_workflow_event-Carries (record { full = refl; named = refl; encoded = refl })

-- A serializer that writes the names of the fields.
abbrev by_fields : EventSerde
by_fields = record events { decode_keys = λ b. ok (field_names (activity_scheduled payment)) }

decode_workflow_event-Headerless_example :
    (m : String) × (decode_workflow_event by_fields (record scheduling { event_header = "" })
      ≡ err m)
decode_workflow_event-Headerless_example =
    decode_workflow_event-Headerless {e = activity_scheduled payment}
      (record { unnamed = refl; keyed = refl })

-- A broker that has no bucket and accepts every publication.
abbrev pub broker : JetStream
broker = record {
  key_value = λ b. err "no bucket";
  publish_msg = λ s b i. none;
  fetch_history = λ s n. ok [];
}

projections-Answered_example :
    Answered broker "history.1" (handle_workflow_tasks broker serde scheduling)
    × Answered broker "history.1" (handle_activity_tasks broker serde (pos 1000) scheduling)
    × Answered broker "history.1" (handle_workflow_results broker serde scheduling)
projections-Answered_example = projections-Answered broker serde scheduling (pos 1000)

find_scheduled-Searched_example :
    Searched serde "pay"
      (starting ∷ scheduling ∷ [])
      (find_scheduled broker serde "pay" (starting ∷ scheduling ∷ []))
find_scheduled-Searched_example =
    find_scheduled-Searched serde "pay" broker (starting ∷ scheduling ∷ [])
