-- ===== src/Server/WorkflowTasks.antt =====
-- internal/server/projection/workflow_tasks.go: the workflow tasks that follow from a history.
use durablefuture.Prelude.{
  with_prefix, String, List, [], ◌∷◌, Result, ok, err, ◌>>=◌, concat, decimal,
}
use durablefuture.Api.Values.{Any}
use durablefuture.Api.Keys.{workflow_input_key}
use durablefuture.Api.Tasks.{WorkflowTask}
use durablefuture.Api.Events.{
  WorkflowEvent, workflow_started, activity_scheduled, activity_completed, activity_failed,
}
use durablefuture.Server.Decode.{Msg, Metadata, decode_workflow_event}
use durablefuture.Server.Broker.{
  JetStream, Bucket, Serde, Action, ack, nak, term, workflow_input_bucket, publish_and_answer,
}

module _ (js : JetStream) (conv : Serde) where
  unfoldable pub read_input : String → Bucket → Result (List Any)
  read_input key kv =
      with_prefix (concat ("failed to get input args from KV for " ∷ key ∷ ": " ∷ [])) (kv.get key)
      >>= λ v. with_prefix "failed to deserialize input args from KV: " (conv.deserialize_values v)

  unfoldable pub load_workflow_input_args : String → String → Result (List Any)
  unfolding read_input
  load_workflow_input_args workflow_fn_name workflow_id =
      with_prefix "failed to get KV store: " (js.key_value workflow_input_bucket)
      >>= read_input (workflow_input_key workflow_fn_name workflow_id)

  -- The block under `shouldCreateTask`, and the answer behind it.
  unfoldable pub create_task : Metadata → WorkflowTask → List Action
  create_task meta task = elim (conv.serialize_workflow_task task) [
    | err m ↦ nak ∷ []
    | ok bytes ↦
        publish_and_answer js (concat ("workflow." ∷ task.workflow_id ∷ ".tasks" ∷ [])) bytes
          (concat ("wftask-" ∷ task.workflow_id ∷ "-" ∷ decimal meta.consumer_sequence ∷ []))
  ]

  -- A task with the inputs that were stored when the workflow started.
  unfoldable pub continue_workflow : Metadata → String → String → List Action
  continue_workflow meta workflow_fn_name workflow_id =
      elim (load_workflow_input_args workflow_fn_name workflow_id) [
        | err m ↦ term ∷ []
        | ok input ↦
            create_task meta
              (record { workflow_id = workflow_id; workflow_fn = workflow_fn_name; input = input })
      ]

  -- The `switch` on the event's type.
  unfoldable pub project_workflow_task : Metadata → WorkflowEvent → List Action
  project_workflow_task meta (workflow_started e) =
      create_task meta
        (record { workflow_id = e.id; workflow_fn = e.workflow_fn_name; input = e.input })
  project_workflow_task meta (activity_completed e) = continue_workflow meta e.workflow_fn_name e.id
  project_workflow_task meta (activity_failed e) = continue_workflow meta e.workflow_fn_name e.id
  project_workflow_task meta (activity_scheduled e) = ack ∷ []
  project_workflow_task meta _ = ack ∷ []

  -- The consumer's handler.
  unfoldable pub handle_workflow_tasks : Msg → List Action
  handle_workflow_tasks msg = elim (decode_workflow_event conv.events msg) [
    | err m ↦ term ∷ []
    | ok event ↦ elim msg.metadata [
      | err m ↦ term ∷ []
      | ok meta ↦ project_workflow_task meta event
    ]
  ]
