-- ===== src/Sdk/Worker/Tokens.antt =====
-- The goroutine that `runProcessingLoop` of sdk/internal/worker_runtime.go starts for a task token.
pub mod Settled
use durablefuture.Prelude.{String, List, [], ◌∷◌, Option, none, some, Result, ok, err}
use durablefuture.Prelude.Dict.{Dict}
use durablefuture.Prelude.Int.{ℤ}
use durablefuture.Api.Values.{Any, FloatOps}
use durablefuture.Api.Tasks.{Task, workflow_task, activity_task, WorkflowTask, ActivityTask}
use durablefuture.Sdk.State.{WorkflowState}
use durablefuture.Sdk.Activity.{Runtime}
use durablefuture.Sdk.Worker.{WorkflowFn, ActivityFn, process_workflow_task, process_activity_task}

-- chronicle's repository: `Get` of a workflow's id, and `Save`, of which the error is `some`.
pub record Repository : Type 0 where
  pub get : String → Result WorkflowState
  pub save : WorkflowState → Option String

-- What the goroutine asks of the broker and of the repository, in order.
pub data Step : Type 0 where
  ack nak term : Step
  save : WorkflowState → Step

abbrev pub answer : Option String → Step
answer none = ack
answer (some m) = nak

-- What the worker has: the conversion of inputs, the runtime of its runs, floats, the time, its
-- registries and its repository.
pub record Worker : Type 0 where
  pub convert_to_type : Any → String → Result Any
  pub rt : Runtime
  pub fl : FloatOps
  pub now_ms : ℤ
  pub workflows : Dict WorkflowFn
  pub activities : Dict ActivityFn
  pub repo : Repository

module _ (w : Worker) where
  -- The answer by the outcome of the processing, and the save behind it.
  unfoldable pub settle : Option String × WorkflowState → List Step × Option String
  settle (error, c) = (answer error ∷ save c ∷ [], w.repo.save c)

  unfoldable pub run_workflow_task : WorkflowTask → List Step × Option String
  run_workflow_task task = elim (w.repo.get task.workflow_id) [
    | err m ↦ (term ∷ [], some m)
    | ok c ↦ settle (process_workflow_task w.convert_to_type w.rt w.workflows task c)
  ]

  unfoldable pub run_activity_task : ActivityTask → List Step × Option String
  run_activity_task task = elim (w.repo.get task.workflow_id) [
    | err m ↦ (term ∷ [], some m)
    | ok c ↦ settle (process_activity_task w.convert_to_type w.rt w.fl w.now_ms w.activities task c)
  ]

  -- The `switch` on the token's task, of which `none` is a nil; the second part is the returned error,
  -- which ends the worker's group.
  unfoldable pub handle_token : Option Task → List Step × Option String
  handle_token (some (workflow_task task)) = run_workflow_task task
  handle_token (some (activity_task task)) = run_activity_task task
  handle_token none = (term ∷ [], none)
