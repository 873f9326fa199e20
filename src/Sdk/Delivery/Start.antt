-- ===== src/Sdk/Delivery/Start.antt =====
-- How a worker starts to receive: the part of `runProcessingLoop` of sdk/internal/worker_runtime.go in
-- front of its loop.
use durablefuture.Prelude.{
  ◌≡◌, ◌≢◌, String, List, [], ◌∷◌, ◌++◌, Option, none, some, Bool, true, false, not, ◌&&◌, Result,
  ok, err, ltb, Each, if◌then◌else◌,
}
use durablefuture.Prelude.Dict.{Dict}
use durablefuture.Sdk.Registry.{registry_size}
use durablefuture.Sdk.Worker.{WorkflowFn, ActivityFn}
use durablefuture.Sdk.Names.{
  workflow_task_stream_name, activity_task_stream_name, workflow_task_filter_subject,
  activity_task_filter_subject,
}
use durablefuture.Sdk.Delivery.{TaskKind, workflow, activity, ConsumerConfig, receive_task}

-- The stream and the subjects of a kind of tasks in a namespace.
abbrev pub stream_of : String → TaskKind → String
stream_of ns workflow = workflow_task_stream_name ns
stream_of ns activity = activity_task_stream_name ns

abbrev pub subjects_of : String → TaskKind → String
subjects_of ns workflow = workflow_task_filter_subject ns
subjects_of ns activity = activity_task_filter_subject ns

-- `repo` is the error of chronicle's `NewEventSourcedRepository`, if there is one.
module _ (ensure : ConsumerConfig → Option String) (ns : String) where
  unfoldable pub start_processing :
      Option String → Dict WorkflowFn → Dict ActivityFn → Result (List TaskKind)
  start_processing (some m) workflows activities = err m
  start_processing none workflows activities =
      let workflows_enabled = ltb 0 (registry_size workflows) in
      let activities_enabled = ltb 0 (registry_size activities) in
      if not workflows_enabled && not activities_enabled
      then err "worker has no registered workflows or activities"
      else receive_task ensure ns workflows_enabled activities_enabled

  abbrev pub kind_if : Bool → TaskKind → List TaskKind
  kind_if true kind = kind ∷ []
  kind_if false kind = []

  -- The consumer reads the tasks of a kind: its stream and its subjects are those of the namespace.
  pub record Reads (kind : TaskKind) (cfg : ConsumerConfig) : Type 0 where
    pub stream : cfg.stream ≡ stream_of ns kind
    pub subjects : cfg.filter_subject ≡ subjects_of ns kind
    pub named : cfg.name ≡ cfg.durable

  abbrev pub IsEnsured : TaskKind → Type 0
  IsEnsured kind = (cfg : ConsumerConfig) × Reads kind cfg × (ensure cfg ≡ none)

  -- What a start comes to: the kinds that have a registered function, workflows first, and at least
  -- one; or an error, which is of the repository, of a consumer, or that nothing is registered.
  pub data Started (repo : Option String) (workflows : Dict WorkflowFn)
      (activities : Dict ActivityFn) : Result (List TaskKind) → Type 0 where
    receives :
        (kinds : List TaskKind)
        → repo ≡ none
        → kinds ≢ []
        → kinds
          ≡ kind_if (ltb 0 (registry_size workflows)) workflow
            ++ kind_if (ltb 0 (registry_size activities)) activity
        → Each IsEnsured kinds
        → Started repo workflows activities (ok kinds)
    no_repository : (m : String) → repo ≡ some m → Started repo workflows activities (err m)
    no_consumer :
        (kind : TaskKind) (cfg : ConsumerConfig) (m : String)
        → Reads kind cfg
        → ensure cfg ≡ some m
        → Started repo workflows activities (err m)
    nothing_registered :
        registry_size workflows ≡ 0
        → registry_size activities ≡ 0
        → Started repo workflows activities (err "worker has no registered workflows or activities")
