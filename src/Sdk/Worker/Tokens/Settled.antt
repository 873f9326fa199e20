-- ===== src/Sdk/Worker/Tokens/Settled.antt =====
-- How a task token is settled, and what is saved then.
use durablefuture.Prelude.{
  Each, ◌⊎◌, ◌≡◌, String, List, [], ◌∷◌, ◌++◌, Option, some, inl, inr, Result-cases, ok, err,
}
use durablefuture.Api.Values.{Any}
use durablefuture.Api.Tasks.{WorkflowTask}
use durablefuture.Api.Events.{WorkflowEvent}
use durablefuture.Sdk.State.{WorkflowState}
use durablefuture.Sdk.Activity.{RecordsEvents}
use durablefuture.Sdk.Worker.{
  Executed, suspended, finished, failing, crashed, failed_event, completed_event,
  process_workflow_task,
}
use durablefuture.Sdk.Worker.Events.{
  IsScheduling, Runs, Ends, waits, completes, fails, process_workflow_task-Ends,
}
use durablefuture.Sdk.Worker.Tokens.{Worker, Step, ack, nak, term, save, settle, run_workflow_task}

-- How the run of a task on a worker ends.
abbrev pub RunsOn : Worker → WorkflowTask → WorkflowState → Executed → Type 0
RunsOn w task c x = Runs w.convert_to_type w.rt w.workflows task c x

-- How a workflow task is settled: `es` are the activities that the run schedules.
pub data SettledWorkflow (w : Worker) (task : WorkflowTask)
    : List Step × Option String → Type 0 where
  unloaded :
      (m : String)
      → w.repo.get task.workflow_id ≡ err m
      → SettledWorkflow w task (term ∷ [], some m)
  waiting :
      (c c' : WorkflowState) (es : List WorkflowEvent)
      → w.repo.get task.workflow_id ≡ ok c
      → RunsOn w task c suspended
      → Each IsScheduling es
      → c'.uncommitted ≡ c.uncommitted ++ es
      → SettledWorkflow w task (ack ∷ save c' ∷ [], w.repo.save c')
  completed :
      (c c' : WorkflowState) (es : List WorkflowEvent) (vs : List Any)
      → w.repo.get task.workflow_id ≡ ok c
      → RunsOn w task c (finished vs)
      → Each IsScheduling es
      → c'.uncommitted ≡ (c.uncommitted ++ es) ++ completed_event task vs ∷ []
      → SettledWorkflow w task (ack ∷ save c' ∷ [], w.repo.save c')
  failed :
      (c c' : WorkflowState) (es : List WorkflowEvent) (m : String)
      → w.repo.get task.workflow_id ≡ ok c
      → RunsOn w task c (failing m) ⊎ RunsOn w task c (crashed m)
      → Each IsScheduling es
      → c'.uncommitted ≡ (c.uncommitted ++ es) ++ failed_event task m ∷ []
      → SettledWorkflow w task (nak ∷ save c' ∷ [], w.repo.save c')

module _ (w : Worker) (law : RecordsEvents w.rt) (task : WorkflowTask) where
  settle-Ends :
      (c : WorkflowState) (es : List WorkflowEvent) (out : Option String × WorkflowState)
      → w.repo.get task.workflow_id ≡ ok c
      → Each IsScheduling es
      → Ends (RunsOn w task c) task (c.uncommitted ++ es) out
      → SettledWorkflow w task (settle w out)
  unfolding settle
  settle-Ends c es (error, c') h only (waits ran e u) = rw e (waiting c c' es h ran only u)
  settle-Ends c es (error, c') h only (completes vs ran e u) =
      rw e (completed c c' es vs h ran only u)
  settle-Ends c es (error, c') h only (fails m ran e u) = rw e (failed c c' es m h ran only u)

  -- A workflow task is settled once, before anything is saved: terminated if its history does not
  -- load; acknowledged if the run waits, in which case it ends with no other event than the activities
  -- that it scheduled, or returns, which is recorded as `WorkflowCompleted` with its values; and
  -- negatively acknowledged, which asks for another delivery, if the run fails or panics, which is
  -- recorded as `WorkflowFailed` with its text. Then all recorded events are saved,
  -- and an error of that save is returned though the task is settled.
  pub run_workflow_task-SettledWorkflow : SettledWorkflow w task (run_workflow_task w task)
  unfolding run_workflow_task
  run_workflow_task-SettledWorkflow = elim (Result-cases (w.repo.get task.workflow_id)) [
    | inr (m, e) ↦ rw (e, run_workflow_task) (unloaded m e)
    | inl (c, e) ↦
        let (es, only, ends) =
          process_workflow_task-Ends law task w.convert_to_type w.workflows c in
        rw (e, run_workflow_task)
          (settle-Ends c es (process_workflow_task w.convert_to_type w.rt w.workflows task c) e only
            ends)
  ]
