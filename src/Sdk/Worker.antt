-- ===== src/Sdk/Worker.antt =====
-- sdk/internal/worker_runtime.go: how a worker processes a workflow task and an activity task.
pub mod Events
pub mod Activities
pub mod Tokens
pub mod Build
use durablefuture.Prelude.{
  ℕ, suc, ◌≡◌, String, List, [], ◌∷◌, ◌++◌, Option, none, some, Bool, true, false, not, Result, ok,
  err, concat, decimal, length, nat_beq, ltb, if◌then◌else◌,
}
use durablefuture.Prelude.Dict.{Dict}
use durablefuture.Prelude.Int.{ℤ}
use durablefuture.Api.Values.{Any, FloatOps}
use durablefuture.Api.Tasks.{WorkflowTask, ActivityTask}
use durablefuture.Api.Events.{
  WorkflowEvent, ActivityRetried, activity_completed, activity_failed, activity_retried,
  workflow_failed, workflow_completed,
}
use durablefuture.Sdk.State.{WorkflowState, apply}
use durablefuture.Sdk.Activity.{Runtime, milliseconds}
use durablefuture.Sdk.Program.{Program, Ran, returned, blocked, panicked, run}
use durablefuture.Sdk.Registry.{registry_get}
use durablefuture.Sdk.Retry.{evaluate_retry_decision, calculate_retry_delay}

-- A registered workflow function: the types of its parameters behind the context, and its code.
pub record WorkflowFn : Type 0 where
  pub params : List String
  pub body : List Any → Program

-- What calling an activity gives: its return values, and the text of the last one if that is an
-- error and not nil.
pub record Returned : Type 0 where
  pub values : List Any
  pub error : Option String

-- A registered activity function with a parameter (one without is refused at every call, as no number
-- of inputs fits): whether its first parameter is a context, the types of those
-- behind it, and what it returns.
pub record ActivityFn : Type 0 where
  pub takes_context : Bool
  pub params : List String
  pub call : List Any → Returned

-- The arguments of a call, an error of a conversion, or a panic of package reflect.
pub data Converted : Type 0 where
  arguments : List Any → Converted
  failed : String → Converted
  panicking : String → Converted

abbrev pub prepend : Any → Converted → Converted
prepend v (arguments vs) = arguments (v ∷ vs)
prepend v (failed m) = failed m
prepend v (panicking m) = panicking m

-- How the closure of `processWorkflowTask` ends: the results, the error that it returns, or the panic
-- that `recover` finds, with its text.
pub data Executed : Type 0 where
  finished : List Any → Executed
  failing : String → Executed
  suspended : Executed
  crashed : String → Executed

-- `fnv.Call`, and the test of its last result.
unfoldable pub call_activity : ActivityFn → List Any → Result (List Any)
call_activity fn args = let r = fn.call args in elim r.error [ some m ↦ err m | none ↦ ok r.values ]

module _ (convert_to_type : Any → String → Result Any) where
  -- The loop over `task.Input`, and the check of the number of arguments in `Call`.
  unfoldable pub convert_inputs : List Any → List String → Converted
  convert_inputs [] [] = arguments []
  convert_inputs [] (p ∷ ps) = panicking "reflect: Call with too few input arguments"
  convert_inputs (a ∷ rest) [] = panicking "reflect: Func index out of bounds"
  convert_inputs (a ∷ rest) (p ∷ ps) =
      let others = convert_inputs rest ps in
      elim (convert_to_type a p) [ err m ↦ failed m | ok v ↦ prepend v others ]

  -- The same loop in `executeActivityFunc`, which numbers the parameter in the error. There are as
  -- many inputs as parameters there.
  unfoldable pub convert_params : ℕ → List Any → List String → Result (List Any)
  convert_params idx (a ∷ rest) (p ∷ ps) =
      let others = convert_params (suc idx) rest ps in
      elim (convert_to_type a p) [
        | err m ↦ err (concat ("failed to convert parameter " ∷ decimal idx ∷ ": " ∷ m ∷ []))
        | ok v ↦ elim others [ err m ↦ err m | ok vs ↦ ok (v ∷ vs) ]
      ]
  convert_params idx _ _ = ok []

  -- `executeActivityFunc`, of which the caller uses the values only where there is no error.
  unfoldable pub execute_activity_func : ActivityFn → List Any → Result (List Any)
  execute_activity_func fn inputs =
      let num_params = length fn.params in
      if not (nat_beq num_params (length inputs))
      then err (
          concat (
            "argument count mismatch: activity expects "
            ∷ decimal num_params
            ∷ ", got "
            ∷ decimal (length inputs)
            ∷ []))
      else if not fn.takes_context
      then err "activity function must accept context.Context as its first argument"
      else elim (convert_params 0 inputs fn.params) [
        | err m ↦ err m
        | ok args ↦ call_activity fn args
      ]

abbrev pub workflow_panic : String → String
workflow_panic m = concat ("workflow panic: " ∷ m ∷ [])

abbrev pub executed_of : Ran × WorkflowState → Executed × WorkflowState
executed_of (returned vs, c) = (finished vs, c)
executed_of (blocked, c) = (suspended, c)
executed_of (panicked m, c) = (crashed (workflow_panic m), c)

abbrev pub failed_event : WorkflowTask → String → WorkflowEvent
failed_event task m =
    workflow_failed
      (record { id = task.workflow_id; workflow_fn_name = task.workflow_fn; error = m })

abbrev pub completed_event : WorkflowTask → List Any → WorkflowEvent
completed_event task vs =
    workflow_completed
      (record { id = task.workflow_id; workflow_fn_name = task.workflow_fn; result = some vs })

module _ (rt : Runtime) where
  -- `wfctx.recordThat(e)`, whose error is dropped.
  unfoldable pub record_that : WorkflowEvent → WorkflowState → WorkflowState
  record_that e c = elim (rt.record_event apply c e) [ ok c' ↦ c' | err m ↦ c ]

  -- The `switch` behind the closure. The first part of the result is the returned error.
  unfoldable pub conclude : WorkflowTask → Executed × WorkflowState → Option String × WorkflowState
  conclude task (suspended, c) = (none, c)
  conclude task (crashed m, c) = (some m, record_that (failed_event task m) c)
  conclude task (failing m, c) = (some m, record_that (failed_event task m) c)
  conclude task (finished vs, c) = (none, record_that (completed_event task vs) c)

module _ (convert_to_type : Any → String → Result Any) (rt : Runtime) where
  unfoldable pub call_workflow : WorkflowFn → Converted → WorkflowState → Executed × WorkflowState
  call_workflow fn (arguments vs) c = executed_of (run rt [] (fn.body vs) c)
  call_workflow fn (failed m) c = (failing m, c)
  call_workflow fn (panicking m) c = (crashed (workflow_panic m), c)

  -- The closure: look the function up, convert the inputs, and call it.
  unfoldable pub execute_workflow :
      Dict WorkflowFn → WorkflowTask → WorkflowState → Executed × WorkflowState
  execute_workflow registry task c = elim (registry_get registry task.workflow_fn) [
    | err m ↦ (failing m, c)
    | ok fn ↦ call_workflow fn (convert_inputs convert_to_type task.input fn.params) c
  ]

  unfoldable pub process_workflow_task :
      Dict WorkflowFn → WorkflowTask → WorkflowState → Option String × WorkflowState
  process_workflow_task registry task c = conclude rt task (execute_workflow registry task c)

abbrev pub retried_event : FloatOps → ActivityTask → String → ActivityRetried
retried_event fl task m = record {
  id = task.workflow_id;
  workflow_fn_name = task.workflow_fn;
  activity_fn_name = task.activity_fn;
  attempt = task.attempt;
  error = m;
  next_retry_delay = milliseconds (calculate_retry_delay fl task);
}

abbrev pub activity_failed_event : ActivityTask → String → WorkflowEvent
activity_failed_event task m = activity_failed (record {
  id = task.workflow_id;
  workflow_fn_name = task.workflow_fn;
  activity_fn_name = task.activity_fn;
  error = m;
})

module _ (fl : FloatOps) (now_ms : ℤ) where
  -- The event of an activity's end, by the error of its execution.
  unfoldable pub activity_event : ActivityTask → Result (List Any) → WorkflowEvent
  activity_event task (err m) =
      if evaluate_retry_decision fl now_ms task m
      then activity_retried (retried_event fl task m)
      else activity_failed_event task m
  activity_event task (ok vs) = activity_completed (record {
    id = task.workflow_id;
    workflow_fn_name = task.workflow_fn;
    activity_fn_name = task.activity_fn;
    result = some vs;
  })

module _ (convert_to_type : Any → String → Result Any) (rt : Runtime) (fl : FloatOps)
    (now_ms : ℤ) where
  unfoldable pub process_activity_task :
      Dict ActivityFn → ActivityTask → WorkflowState → Option String × WorkflowState
  process_activity_task registry task c = elim (registry_get registry task.activity_fn) [
    | err m ↦ (some m, c)
    | ok fn ↦ (
      none,
      record_that rt
          (activity_event fl now_ms task (execute_activity_func convert_to_type fn task.input)) c,
    )
  ]
