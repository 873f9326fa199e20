-- ===== src/Sdk/Names.antt =====
-- `idManager` of sdk/internal/protocol/nats/nats.go and `buildHistoryStreamName` of
-- sdk/internal/worker_runtime.go: the names of streams and subjects in a namespace.
pub mod Separate
use durablefuture.Prelude.{String, List, [], ◌∷◌, ◌++◌, concat, ◌==◌, if◌then◌else◌}

abbrev pub workflow_history_stream : String
workflow_history_stream = "WORKFLOW_HISTORY"

abbrev pub workflow_tasks_stream : String
workflow_tasks_stream = "WORKFLOW_TASKS"

abbrev pub activity_tasks_stream : String
activity_tasks_stream = "ACTIVITY_TASKS"

unfoldable pub workflow_task_stream_name : String → String
workflow_task_stream_name ns =
    if ns == "" then workflow_tasks_stream else concat (ns ∷ "_" ∷ workflow_tasks_stream ∷ [])

unfoldable pub activity_task_stream_name : String → String
activity_task_stream_name ns =
    if ns == "" then activity_tasks_stream else concat (ns ∷ "_" ∷ activity_tasks_stream ∷ [])

unfoldable pub workflow_task_filter_subject : String → String
workflow_task_filter_subject ns =
    if ns == "" then "workflow.*.tasks" else concat (ns ∷ "." ∷ "tasks.workflow" ∷ [])

unfoldable pub activity_task_filter_subject : String → String
activity_task_filter_subject ns =
    if ns == "" then "activity.*.tasks" else concat (ns ∷ "." ∷ "tasks" ∷ ".*." ∷ "activity" ∷ [])

-- `strings.Join(parts, "_")`.
abbrev join_parts : List String → String
join_parts [] = ""
join_parts (part ∷ []) = part
join_parts (part ∷ parts) = concat (part ∷ "_" ∷ join_parts parts ∷ [])

abbrev given : String → List String
given s = if s == "" then [] else s ∷ []

-- Of the options the tenant and the namespace; the worker passes options that are not nil.
unfoldable pub build_history_stream_name : String → String → String
build_history_stream_name tenant_id namespace =
    join_parts (given tenant_id ++ (given namespace ++ workflow_history_stream ∷ []))
