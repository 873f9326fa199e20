-- ===== src/Server/Manager/Resumes.antt =====
-- The tasks that continue a workflow: internal/server/projection/workflow_tasks.go reads the inputs
-- that internal/server/handler/command/handler.go stored.
use mathlib.Core.List.{Memᴰ}
use durablefuture.Prelude.{Each, ◌≡◌, refl, sym, subst, String, List, [], ◌∷◌, ok}
use durablefuture.Api.Values.{Any}
use durablefuture.Api.Tasks.{Bytes, StartWorkflowAttributes}
use durablefuture.Api.Events.{
  ActivityCompleted, ActivityFailed, workflow_started, activity_completed, activity_failed,
}
use durablefuture.Server.Decode.{Metadata}
use durablefuture.Server.Broker.{JetStream, Serde, workflow_input_bucket}
use durablefuture.Server.Command.{CommandSerde, HistoryMsg, started_event, started_msg}
use durablefuture.Server.WorkflowTasks.{
  read_input, load_workflow_input_args, continue_workflow, project_workflow_task,
}
use durablefuture.Server.Manager.{Durable, Reachable, stored_bucket}
use durablefuture.Server.Manager.Inputs.{Held, Reachable-Holds}

-- What the handler serializes, the projections read back.
abbrev pub ReadsBack : CommandSerde → Serde → Type 0
ReadsBack conv serde =
    (vs : List Any) (bytes : Bytes)
    → conv.serialize_input vs ≡ ok bytes
    → serde.deserialize_values bytes ≡ ok vs

Each-Mem {ℓ κ} : {A : Type ℓ} (P : A → Type κ) (xs : List A) (x : A) → Each P xs → Memᴰ x xs → P x
Each-Mem P [] x h m = elim m [ ]
Each-Mem P (y ∷ ys) x h (Memᴰ.head e) = subst P (sym e) h.0
Each-Mem P (y ∷ ys) x h (Memᴰ.tail m) = Each-Mem P ys x h.1 m

module _ (conv : CommandSerde) (serde : Serde) (reads : ReadsBack conv serde) where
  module _ (d : Durable) (ids : List String) (msg : HistoryMsg) (js : JetStream)
      (h : Held conv ids d.inputs msg)
      (e : js.key_value workflow_input_bucket ≡ ok (stored_bucket d.inputs)) where
    load-Held :
        load_workflow_input_args js serde h.attributes.workflow_fn_name h.workflow_id
        ≡ ok h.attributes.input
    unfolding load_workflow_input_args read_input
    load-Held =
        rw (e, load_workflow_input_args, h.kept, reads h.attributes.input h.input h.serialized_as)
          refl

    continue_workflow-Held :
        (meta : Metadata)
        → continue_workflow js serde meta h.attributes.workflow_fn_name h.workflow_id
          ≡ project_workflow_task js serde meta
              (workflow_started (started_event conv h.workflow_id h.attributes))
    unfolding continue_workflow project_workflow_task
    continue_workflow-Held meta = rw (load-Held, continue_workflow) refl

  -- A workflow is continued with the inputs that it was started with: for each history that commands
  -- begin, if the serializer reads back what it writes, the messages that announce a completed or a
  -- failed activity of that workflow are handled as the message that started it is, so that the task
  -- they publish has the same function, id and inputs.
  pub continues_as_started :
      {d : Durable} {ids : List String} {msg : HistoryMsg} (js : JetStream) (meta : Metadata)
      (done : ActivityCompleted) (gone : ActivityFailed)
      → Reachable conv d ids
      → Memᴰ msg d.history
      → js.key_value workflow_input_bucket ≡ ok (stored_bucket d.inputs)
      → (id : String) × (attributes : StartWorkflowAttributes) × (msg
          ≡ started_msg conv id attributes)
        × (project_workflow_task js serde meta (
              activity_completed
                (record done { id = id; workflow_fn_name = attributes.workflow_fn_name }))
            ≡ project_workflow_task js serde meta
                (workflow_started (started_event conv id attributes)))
        × (project_workflow_task js serde meta (
              activity_failed
                (record gone { id = id; workflow_fn_name = attributes.workflow_fn_name }))
            ≡ project_workflow_task js serde meta
                (workflow_started (started_event conv id attributes)))
  unfolding project_workflow_task
  continues_as_started {d} {ids} {msg} js meta done gone r m e =
      let h = Each-Mem (Held conv ids d.inputs) d.history msg (Reachable-Holds conv r) m in
      let same = continue_workflow-Held d ids msg js h e meta in
      (h.workflow_id, h.attributes, h.starts, same, same)
