-- ===== src/Server/Examples/Commands.antt =====
-- The theorems on commands, the manager's state and workflow tasks, at a concrete command.
use mathlib.Core.List.{Memᴰ}
use durablefuture.Prelude.{
  Each, ◌≡◌, refl, String, List, [], ◌∷◌, none, Result, ok, err, arith, decimal, concat,
}
use durablefuture.Prelude.Dict.{lookup}
use durablefuture.Prelude.Int.{pos}
use durablefuture.Api.Values.{Any}
use durablefuture.Api.Tasks.{Bytes, StartWorkflowAttributes}
use durablefuture.Api.Events.{
  WorkflowEvent, ActivityFailed, workflow_started, activity_completed, activity_failed, event_id,
  event_workflow, event_name,
}
use durablefuture.Server.Decode.{Metadata, decode_workflow_event, event_type, decode_as}
use durablefuture.Server.Broker.{JetStream, publish, publish_and_answer}
use durablefuture.Server.Command.{
  History, CommandSerde, started_event, started_msg, publish_started, store_input, with_bucket,
  with_reply, start_workflow, handle_request,
}
use durablefuture.Server.Command.Starts.{Outcome, handle_request-Outcome}
use durablefuture.Server.Manager.{Durable, perform, Reachable, initial, command, stored_bucket}
use durablefuture.Server.Manager.Inputs.{Held, Reachable-Holds}
use durablefuture.Server.Manager.Resumes.{ReadsBack, continues_as_started}
use durablefuture.Server.WorkflowTasks.{create_task, project_workflow_task, handle_workflow_tasks}
use durablefuture.Server.Answers.Tasks.{Continues, Carries, handle_workflow_tasks-Carries}
use durablefuture.Server.Examples.{serde, starting, broker, finished}

abbrev input_of : List Any → Result Bytes
input_of [] = ok (2 ∷ [])
input_of (v ∷ vs) = err "unsupported"

abbrev conv : CommandSerde
conv = record {
  deserialize_command = λ b. ok (record { command_type = "StartWorkflow"; attributes = b });
  deserialize_attributes = λ b. ok (record { workflow_fn_name = "order"; input = [] });
  serialize_reply = λ r. ok (1 ∷ []);
  serialize_input = input_of;
  serialize_started = λ e. ok (3 ∷ []);
}

-- A broker that accepts everything.
abbrev history : History
history = record { key_value = λ b. ok (stored_bucket []); publish_msg = λ msg. none }

abbrev uuid : String
uuid = "01932f7e-7c30-7000-8000-000000000001"

abbrev first : Durable
first =
    perform history (handle_request conv (ok history) uuid (5 ∷ []))
      (record { inputs = []; history = [] })

handle_request-Outcome_example :
    Outcome conv (ok history) uuid (5 ∷ []) (handle_request conv (ok history) uuid (5 ∷ []))
handle_request-Outcome_example = handle_request-Outcome conv uuid (5 ∷ []) (ok history)

reachable : Reachable conv first (uuid ∷ [])
reachable = command history uuid (5 ∷ []) (λ m. elim m [ ]) refl initial

Reachable-Holds_example : Each (Held conv (uuid ∷ []) first.inputs) first.history
Reachable-Holds_example = Reachable-Holds conv reachable

abbrev attributes : StartWorkflowAttributes
attributes = record { workflow_fn_name = "order"; input = [] }

in_history : Memᴰ (started_msg conv uuid attributes) first.history
unfolding perform handle_request start_workflow with_reply with_bucket store_input publish_started
in_history = Memᴰ.head refl

reads : ReadsBack conv serde
reads [] b h = refl
reads (v ∷ vs) b h = ground arith

abbrev reader : JetStream
reader = record {
  key_value = λ b. ok (stored_bucket first.inputs);
  publish_msg = λ s b i. none;
  fetch_history = λ s n. ok [];
}

abbrev meta : Metadata
meta = record { consumer_sequence = 9; timestamp_ms = pos 1000 }

abbrev gone : ActivityFailed
gone = record { id = "1"; workflow_fn_name = "order"; activity_fn_name = "pay"; error = "denied" }

continues_as_started_example :
    (id : String) × (attributes : StartWorkflowAttributes) × (started_msg conv uuid attributes
      ≡ started_msg conv id attributes)
    × (project_workflow_task reader serde meta (
          activity_completed
            (record finished { id = id; workflow_fn_name = attributes.workflow_fn_name }))
        ≡ project_workflow_task reader serde meta
            (workflow_started (started_event conv id attributes)))
    × (project_workflow_task reader serde meta (
          activity_failed (record gone { id = id; workflow_fn_name = attributes.workflow_fn_name }))
        ≡ project_workflow_task reader serde meta
            (workflow_started (started_event conv id attributes)))
continues_as_started_example =
    continues_as_started conv serde reads reader meta finished gone reachable in_history refl

abbrev task_msg_id : String
task_msg_id = concat ("wftask-" ∷ "1" ∷ "-" ∷ decimal 4 ∷ [])

published :
    Memᴰ
      (publish "workflow.1.tasks" (7 ∷ []) task_msg_id)
      (handle_workflow_tasks broker serde starting)
unfolding handle_workflow_tasks project_workflow_task create_task publish_and_answer
    decode_workflow_event event_type decode_as event_name lookup
published = Memᴰ.head refl

handle_workflow_tasks-Carries_example :
    (event : WorkflowEvent) × (decode_workflow_event serde.events starting ≡ ok event)
    × Continues event
    × Carries "workflow.1.tasks" (7 ∷ []) task_msg_id serde (event_id event) (event_workflow event)
handle_workflow_tasks-Carries_example =
    handle_workflow_tasks-Carries "workflow.1.tasks" (7 ∷ []) task_msg_id broker serde starting
      published
