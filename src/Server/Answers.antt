-- ===== src/Server/Answers.antt =====
-- How the handlers of internal/server/projection answer a message of the history stream.
pub mod Tasks
use durablefuture.Prelude.{
  ◌≡◌, refl, String, List, [], ◌∷◌, Option, none, some, Option-cases, inl, inr, Result,
  Result-cases, ok, err, get_elem?,
}
use durablefuture.Prelude.Int.{ℤ}
use durablefuture.Api.Tasks.{Bytes, WorkflowTask}
use durablefuture.Api.Events.{
  WorkflowEvent, WorkflowCompleted, workflow_started, activity_scheduled, activity_started,
  activity_completed, activity_failed, activity_retried, workflow_failed, workflow_completed,
}
use durablefuture.Server.Decode.{Msg, Metadata, decode_workflow_event}
use durablefuture.Server.Broker.{
  JetStream, Serde, Action, ack, nak, term, crash, publish, put, publish_and_answer, answer_publish,
  workflow_result_bucket,
}
use durablefuture.Server.WorkflowTasks.{
  load_workflow_input_args, create_task, continue_workflow, project_workflow_task,
  handle_workflow_tasks,
}
use durablefuture.Server.ActivityTasks.{
  split_dots, first_attempt, publish_activity_task, project_activity_task, handle_activity_tasks,
}
use durablefuture.Server.WorkflowResults.{
  ok_bytes, connection_set, answer_set, store_result, project_result, handle_workflow_results,
}

abbrev pub IsAnswer : Action → Type 0
IsAnswer ack = Unit
IsAnswer nak = Unit
IsAnswer term = Unit
IsAnswer _ = ⊥

-- A message answered once: at once, or after one publication or write, by its outcome.
pub data Answered (js : JetStream) (topic : String) : List Action → Type 0 where
  at_once : (a : Action) → IsAnswer a → Answered js topic (a ∷ [])
  delivered :
      (subject : String) (bytes : Bytes) (id : String)
      → js.publish_msg subject bytes id ≡ none
      → Answered js topic (publish subject bytes id ∷ ack ∷ [])
  undelivered :
      (subject : String) (bytes : Bytes) (id m : String)
      → js.publish_msg subject bytes id ≡ some m
      → Answered js topic (publish subject bytes id ∷ nak ∷ [])
  stored :
      (bucket key : String) (value : Bytes)
      → connection_set js bucket key value ≡ none
      → Answered js topic (put bucket key value ∷ ack ∷ [])
  unstored :
      (bucket key : String) (value : Bytes) (m : String)
      → connection_set js bucket key value ≡ some m
      → Answered js topic (put bucket key value ∷ nak ∷ [])
  -- An index out of range: the subject has no dot.
  crashed : get_elem? (split_dots topic) 1 ≡ none → Answered js topic (crash ∷ [])

module _ (js : JetStream) (conv : Serde) (msg : Msg) where
  publish_and_answer-Answered :
      (subject : String) (bytes : Bytes) (id : String)
      → Answered js msg.subject (publish_and_answer js subject bytes id)
  unfolding publish_and_answer
  publish_and_answer-Answered subject bytes id =
      elim (Option-cases (js.publish_msg subject bytes id)) [
        | inl e ↦ rw e (delivered subject bytes id e)
        | inr (m, e) ↦ rw e (undelivered subject bytes id m e)
      ]

  create_task-Answered :
      (meta : Metadata) (task : WorkflowTask)
      → Answered js msg.subject (create_task js conv meta task)
  unfolding create_task
  create_task-Answered meta task = elim (Result-cases (conv.serialize_workflow_task task)) [
    | inl (bytes, e) ↦ rw (e, create_task) (publish_and_answer-Answered _ bytes _)
    | inr (m, e) ↦ rw (e, create_task) (at_once nak tt)
  ]

  continue_workflow-Answered :
      (meta : Metadata) (fn id : String)
      → Answered js msg.subject (continue_workflow js conv meta fn id)
  unfolding continue_workflow
  continue_workflow-Answered meta fn id =
      elim (Result-cases (load_workflow_input_args js conv fn id)) [
        | inl (input, e) ↦ rw (e, continue_workflow) (create_task-Answered meta _)
        | inr (m, e) ↦ rw (e, continue_workflow) (at_once term tt)
      ]

  project_workflow_task-Answered :
      (meta : Metadata) (event : WorkflowEvent)
      → Answered js msg.subject (project_workflow_task js conv meta event)
  unfolding project_workflow_task
  project_workflow_task-Answered meta (workflow_started e) = create_task-Answered meta _
  project_workflow_task-Answered meta (activity_completed e) = continue_workflow-Answered meta _ _
  project_workflow_task-Answered meta (activity_failed e) = continue_workflow-Answered meta _ _
  project_workflow_task-Answered meta (activity_scheduled e) = at_once ack tt
  project_workflow_task-Answered meta (activity_started e) = at_once ack tt
  project_workflow_task-Answered meta (activity_retried e) = at_once ack tt
  project_workflow_task-Answered meta (workflow_failed e) = at_once ack tt
  project_workflow_task-Answered meta (workflow_completed e) = at_once ack tt

  handle_workflow_tasks-Answered : Answered js msg.subject (handle_workflow_tasks js conv msg)
  unfolding handle_workflow_tasks
  handle_workflow_tasks-Answered = elim (Result-cases (decode_workflow_event conv.events msg)) [
    | inr (m, e) ↦ rw (e, handle_workflow_tasks) (at_once term tt)
    | inl (event, e) ↦ elim (Result-cases msg.metadata) [
      | inr (m, h) ↦ rw (e, handle_workflow_tasks, h) (at_once term tt)
      | inl (meta, h) ↦ rw (e, handle_workflow_tasks, h) (project_workflow_task-Answered meta event)
    ]
  ]

  module _ (now_ms : ℤ) where
    publish_activity_task-Answered :
        (meta : Metadata) (id : String) (bytes : Bytes)
        → Answered js msg.subject (publish_activity_task js conv now_ms msg meta id bytes)
    unfolding publish_activity_task
    publish_activity_task-Answered meta id bytes =
        elim (Option-cases (get_elem? (split_dots msg.subject) 1)) [
          | inl e ↦ rw (e, publish_activity_task) (crashed e)
          | inr (part, e) ↦ rw (e, publish_activity_task) (publish_and_answer-Answered _ bytes _)
        ]

    project_activity_task-Answered :
        (meta : Metadata) (event : WorkflowEvent)
        → Answered js msg.subject (project_activity_task js conv now_ms msg meta event)
    unfolding project_activity_task
    project_activity_task-Answered meta (activity_scheduled e) =
        elim (Result-cases (conv.serialize_activity_task (first_attempt now_ms e))) [
          | inl (bytes, h) ↦
              rw (h, project_activity_task) (publish_activity_task-Answered meta e.id bytes)
          | inr (m, h) ↦ rw (h, project_activity_task) (at_once term tt)
        ]
    project_activity_task-Answered meta (workflow_started e) = at_once ack tt
    project_activity_task-Answered meta (activity_completed e) = at_once ack tt
    project_activity_task-Answered meta (activity_failed e) = at_once ack tt
    project_activity_task-Answered meta (activity_started e) = at_once ack tt
    project_activity_task-Answered meta (activity_retried e) = at_once ack tt
    project_activity_task-Answered meta (workflow_failed e) = at_once ack tt
    project_activity_task-Answered meta (workflow_completed e) = at_once ack tt

    handle_activity_tasks-Answered :
        Answered js msg.subject (handle_activity_tasks js conv now_ms msg)
    unfolding handle_activity_tasks
    handle_activity_tasks-Answered = elim (Result-cases (decode_workflow_event conv.events msg)) [
      | inr (m, e) ↦ rw (e, handle_activity_tasks) (at_once term tt)
      | inl (event, e) ↦ elim (Result-cases msg.metadata) [
        | inr (m, h) ↦ rw (e, handle_activity_tasks, h) (at_once term tt)
        | inl (meta, h) ↦
            rw (e, handle_activity_tasks, h) (project_activity_task-Answered meta event)
      ]
    ]

  store_result-Answered : (e : WorkflowCompleted) → Answered js msg.subject (store_result js conv e)
  unfolding store_result
  store_result-Answered e =
      let value = ok_bytes (conv.serialize_values e.result) in
      elim (Option-cases (connection_set js workflow_result_bucket e.id value)) [
        | inl h ↦ rw h (stored workflow_result_bucket e.id value h)
        | inr (m, h) ↦ rw h (unstored workflow_result_bucket e.id value m h)
      ]

  project_result-Answered :
      (event : WorkflowEvent) → Answered js msg.subject (project_result js conv event)
  unfolding project_result
  project_result-Answered (workflow_completed e) = store_result-Answered e
  project_result-Answered (activity_scheduled e) = at_once ack tt
  project_result-Answered (workflow_started e) = at_once ack tt
  project_result-Answered (activity_completed e) = at_once ack tt
  project_result-Answered (activity_failed e) = at_once ack tt
  project_result-Answered (activity_started e) = at_once ack tt
  project_result-Answered (activity_retried e) = at_once ack tt
  project_result-Answered (workflow_failed e) = at_once ack tt

  handle_workflow_results-Answered : Answered js msg.subject (handle_workflow_results js conv msg)
  unfolding handle_workflow_results
  handle_workflow_results-Answered = elim (Result-cases (decode_workflow_event conv.events msg)) [
    | inr (m, e) ↦ rw (e, handle_workflow_results) (at_once term tt)
    | inl (event, e) ↦ rw (e, handle_workflow_results) (project_result-Answered event)
  ]

  -- The three projections that publish or store something for a message do at most one such thing,
  -- and answer the message exactly once, last: Ack only if the publication or the write succeeded or
  -- none was asked for, and Nak if it failed. The one exception is a subject without a dot in the
  -- projection of activity tasks, where it crashes unanswered.
  pub projections-Answered :
      (now_ms : ℤ)
      → Answered js msg.subject (handle_workflow_tasks js conv msg)
        × Answered js msg.subject (handle_activity_tasks js conv now_ms msg)
        × Answered js msg.subject (handle_workflow_results js conv msg)
  projections-Answered now_ms = (
    handle_workflow_tasks-Answered,
    handle_activity_tasks-Answered now_ms,
    handle_workflow_results-Answered,
  )
