-- ===== src/Sdk/Worker/Build.antt =====
-- How a worker is made: `NewWorker`, `RegisterWorkflow` and `RegisterActivity` of
-- sdk/internal/worker_runtime.go, with `ExtractFullFunctionName` of sdk/internal/common/utils.go.
use durablefuture.Prelude.{
  String, [], Option, none, some, Bool, true, false, Result, ok, err, ◌==◌, ◌>>=◌, if◌then◌else◌,
}
use durablefuture.Prelude.Dict.{Dict}
use durablefuture.Api.Keys.{history_subject_prefix}
use durablefuture.Sdk.Names.{build_history_stream_name}
use durablefuture.Sdk.Registry.{registry_set}
use durablefuture.Sdk.Worker.{WorkflowFn, ActivityFn}

-- `WorkerOptions` but for its logger.
pub record WorkerOptions : Type 0 where
  pub tenant_id : String
  pub namespace : String

-- What `NewWorker` sets of a worker: the names that its event log is opened with, and its registries.
-- The serializer and the connection are the client's.
pub record Built : Type 0 where
  pub history_stream : String
  pub subject_prefix : String
  pub workflows : Dict WorkflowFn
  pub activities : Dict ActivityFn

-- A nil pointer stands for options without values.
abbrev pub options_or : Option WorkerOptions → WorkerOptions
options_or none = record { tenant_id = ""; namespace = "" }
options_or (some o) = o

abbrev pub subject_prefix_of : WorkerOptions → String
subject_prefix_of o = if o.namespace == "" then history_subject_prefix else o.namespace

-- `event_log` is the error of chronicle's `NewNATSJetStream` for a stream and a prefix, if there is one;
-- `is_internal` tells whether the client is the SDK's own.
module _ (event_log : String → String → Option String) where
  unfoldable pub new_worker : Bool → Option WorkerOptions → Result Built
  new_worker false options = err "client does not implement required internal interface"
  new_worker true options =
      let o = options_or options in
      let stream = build_history_stream_name o.tenant_id o.namespace in
      elim (event_log stream (subject_prefix_of o)) [
        | some m ↦ err m
        | none ↦ ok (record {
          history_stream = stream;
          subject_prefix = subject_prefix_of o;
          workflows = [];
          activities = [];
        })
      ]

-- `is_func` is reflection's test, and `metadata` the name that package runtime has for the function.
unfoldable pub extract_full_function_name : Bool → Option String → Result String
extract_full_function_name is_func metadata =
    if is_func
    then elim metadata [ none ↦ err "could not retrieve function metadata" | some name ↦ ok name ]
    else err "fn is not of function type"

-- A registration: the worker behind it, or its error. The values of the registries are functions by
-- their types, so package reflect's test in the registry holds; `show` prints a value.
module _ (metadata : Option String) where
  unfoldable pub register_workflow : (WorkflowFn → String) → WorkflowFn → Built → Result Built
  register_workflow show fn b = extract_full_function_name true metadata >>= λ name.
      registry_set (λ f. true) show name fn b.workflows >>= λ workflows.
      ok (record b { workflows = workflows })

  unfoldable pub register_activity : (ActivityFn → String) → ActivityFn → Built → Result Built
  register_activity show fn b = extract_full_function_name true metadata >>= λ name.
      registry_set (λ f. true) show name fn b.activities >>= λ activities.
      ok (record b { activities = activities })
