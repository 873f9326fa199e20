-- ===== src/Server/Answers/Tasks.antt =====
-- The workflow tasks that internal/server/projection/workflow_tasks.go publishes.
use mathlib.Core.List.{Memᴰ}
use durablefuture.Prelude.{
  ◌≡◌, refl, ap, sym, ◌∙◌, subst, String, [], ◌∷◌, Option, none, some, inl, inr, Result-cases, ok,
  concat,
}
use durablefuture.Api.Tasks.{Bytes, WorkflowTask}
use durablefuture.Api.Events.{
  WorkflowEvent, workflow_started, activity_scheduled, activity_started, activity_completed,
  activity_failed, activity_retried, workflow_failed, workflow_completed, event_id, event_workflow,
}
use durablefuture.Server.Decode.{Msg, Metadata, decode_workflow_event}
use durablefuture.Server.Broker.{
  JetStream, Serde, Action, publish, publish_and_answer, answer_publish,
}
use durablefuture.Server.WorkflowTasks.{
  load_workflow_input_args, create_task, continue_workflow, project_workflow_task,
  handle_workflow_tasks,
}

-- The events after which the workflow function runs.
abbrev pub Continues : WorkflowEvent → Type 0
Continues (workflow_started e) = Unit
Continues (activity_completed e) = Unit
Continues (activity_failed e) = Unit
Continues _ = ⊥

abbrev subject_of : Action → String
subject_of (publish s b i) = s
subject_of _ = ""

abbrev bytes_of : Action → Bytes
bytes_of (publish s b i) = b
bytes_of _ = []

module _ (subject : String) (bytes : Bytes) (id : String) where
  abbrev IsPublish : Action → Type 0
  IsPublish (publish s b i) = Unit
  IsPublish _ = ⊥

  not_answer : {a : Action} → publish subject bytes id ≡ a → IsPublish a
  not_answer e = subst IsPublish e tt

  not_answers : (o : Option String) → Memᴰ (publish subject bytes id) (answer_publish o) → ⊥
  not_answers none (Memᴰ.head e) = not_answer e
  not_answers none (Memᴰ.tail m) = elim m [ ]
  not_answers (some why) (Memᴰ.head e) = not_answer e
  not_answers (some why) (Memᴰ.tail m) = elim m [ ]

  only : {a : Action} → Memᴰ (publish subject bytes id) (a ∷ []) → publish subject bytes id ≡ a
  only (Memᴰ.head e) = e
  only (Memᴰ.tail m) = elim m [ ]

  -- The publication carries a task of the workflow.
  abbrev pub Carries : Serde → String → String → Type 0
  Carries conv workflow_id fn =
      (task : WorkflowTask) × (task.workflow_id ≡ workflow_id)
      × (task.workflow_fn ≡ fn)
      × (subject ≡ concat ("workflow." ∷ workflow_id ∷ ".tasks" ∷ []))
      × (conv.serialize_workflow_task task ≡ ok bytes)

  module _ (js : JetStream) (conv : Serde) (meta : Metadata) where
    publish-same :
        (s : String) (b : Bytes) (i : String)
        → Memᴰ (publish subject bytes id) (publish_and_answer js s b i)
        → (subject ≡ s) × (bytes ≡ b)
    unfolding publish_and_answer
    publish-same s b i (Memᴰ.head e) = (ap subject_of e, ap bytes_of e)
    publish-same s b i (Memᴰ.tail m) = absurd (not_answers (js.publish_msg s b i) m)

    create_task-Carries :
        (task : WorkflowTask)
        → Memᴰ (publish subject bytes id) (create_task js conv meta task)
        → Carries conv task.workflow_id task.workflow_fn
    unfolding create_task
    create_task-Carries task m = elim (Result-cases (conv.serialize_workflow_task task)) [
      | inl (b, e) ↦
          let (s_same, b_same) = publish-same _ b _ (rw (e, create_task) at m) in
          (task, refl, refl, s_same, e ∙ ap ok (sym b_same))
      | inr (why, e) ↦ absurd (not_answer (only (rw (e, create_task) at m)))
    ]

    continue_workflow-Carries :
        (fn i : String)
        → Memᴰ (publish subject bytes id) (continue_workflow js conv meta fn i)
        → Carries conv i fn
    unfolding continue_workflow
    continue_workflow-Carries fn i m = elim (Result-cases (load_workflow_input_args js conv fn i)) [
      | inl (input, e) ↦ create_task-Carries _ (rw (e, continue_workflow) at m)
      | inr (why, e) ↦ absurd (not_answer (only (rw (e, continue_workflow) at m)))
    ]

    project_workflow_task-Carries :
        (event : WorkflowEvent)
        → Memᴰ (publish subject bytes id) (project_workflow_task js conv meta event)
        → Continues event × Carries conv (event_id event) (event_workflow event)
    unfolding project_workflow_task
    project_workflow_task-Carries (workflow_started e) m = (tt, create_task-Carries _ m)
    project_workflow_task-Carries (activity_completed e) m = (tt, continue_workflow-Carries _ _ m)
    project_workflow_task-Carries (activity_failed e) m = (tt, continue_workflow-Carries _ _ m)
    project_workflow_task-Carries (activity_scheduled e) m = absurd (not_answer (only m))
    project_workflow_task-Carries (activity_started e) m = absurd (not_answer (only m))
    project_workflow_task-Carries (activity_retried e) m = absurd (not_answer (only m))
    project_workflow_task-Carries (workflow_failed e) m = absurd (not_answer (only m))
    project_workflow_task-Carries (workflow_completed e) m = absurd (not_answer (only m))

  -- A workflow task is published only for a message that carries a start, or a completed or failed
  -- activity; it goes to the task subject of that event's workflow, and its payload is a serialized
  -- task with the event's workflow id and function.
  pub handle_workflow_tasks-Carries :
      (js : JetStream) (conv : Serde) (msg : Msg)
      → Memᴰ (publish subject bytes id) (handle_workflow_tasks js conv msg)
      → (event : WorkflowEvent) × (decode_workflow_event conv.events msg ≡ ok event)
        × Continues event
        × Carries conv (event_id event) (event_workflow event)
  unfolding handle_workflow_tasks
  handle_workflow_tasks-Carries js conv msg m =
      elim (Result-cases (decode_workflow_event conv.events msg)) [
        | inr (why, e) ↦ absurd (not_answer (only (rw (e, handle_workflow_tasks) at m)))
        | inl (event, e) ↦ elim (Result-cases msg.metadata) [
          | inr (why, h) ↦ absurd (not_answer (only (rw (e, handle_workflow_tasks, h) at m)))
          | inl (meta, h) ↦
              let (continues, carries) =
                project_workflow_task-Carries js conv meta event
                  (rw (e, handle_workflow_tasks, h) at m) in
              (event, e, continues, carries)
        ]
      ]
