-- ===== src/Lib.antt =====
-- durablefuture: a durable workflow engine on NATS JetStream.
--
-- The program has two halves. The manager (internal/server) takes a client's command, stores the
-- workflow's inputs in a bucket and publishes `WorkflowStarted` on the history stream; its
-- projections read that stream and publish a workflow task after each event on which a workflow can
-- go on, an activity task for each scheduled activity, another one for each retry, and write a
-- completed workflow's result to a bucket. The SDK (sdk) runs workers: a workflow task replays the
-- workflow's history, runs the workflow function until it returns or waits for an activity that
-- has no result yet, and records what it scheduled; an activity task runs the activity function and
-- records its end.
--
-- Files, and the code that they model:
-- - Prelude: text, list and map helpers; ℤ with the two's complement of int32 and int64.
-- - Api/Tasks, Api/Events, Api/Keys: api/types.go, api/events.go, api/constant.go,
--   api/workflow_input.go. Records and data types have the fields and variants of the Go types.
-- - Api/Values: Go's `any`, and floats as bit patterns with the operations as a parameter.
-- - Api/Converter: `TypeConverter` of api/serde/type_converter.go.
-- - Sdk/State: the replay state of sdk/internal/context.go, activity_replay.go and events.go:
--   `ensure_activity_replay`, `push_record`, `applied` for `Apply`, `load` for a replayed history.
-- - Sdk/Activity, Sdk/Future: `ExecuteActivity` (context.go), activity_options.go, `Get`
--   (future_blocking.go).
-- - Sdk/Program: workflow code as a tree of the SDK calls that it makes, and its run up to its
--   return, suspension or panic. Sdk/Program/Direct is what the code means without a log: each call
--   has its outcome at once. Sdk/Program/Liveness runs a workflow with a history that grows.
-- - Sdk/Registry, Sdk/Retry, Sdk/Worker: registry.go and worker_runtime.go: the retry decision and
--   its delay, `processWorkflowTask`, `processActivityTask`; Sdk/Worker/Tokens is the goroutine of a
--   task token, with its answer and its save. Sdk/Worker/Build: `NewWorker` and the
--   registrations. Sdk/Retry/Decisions has the retry decision and delay in plain numbers.
-- - Sdk/Histories: the stored history of one workflow as any workers make it, whose tasks come in any
--   order and more than once: read through the repository's event serializer, `processWorkflowTask` or
--   `processActivityTask`, and save through that serializer.
-- - Sdk/Delivery: `ReceiveTask` and `enqueueTask` (sdk/internal/protocol/nats/task_processor.go):
--   `Receiver` is what the goroutines share, `Step` one step of one of them. Sdk/Delivery/Start is the
--   part of `runProcessingLoop` in front of its loop.
-- - Sdk/Names: the names of streams and subjects in a namespace (sdk/internal/protocol/nats/nats.go).
-- - Sdk/Connection: `Connect`, `WrapExisting` and `EnsureConsumer` (sdk/internal/protocol/nats/nats.go)
--   and `NewClient` (client.go).
-- - Sdk/Config: `Load` of sdk/config/config.go.
-- - Sdk/Client: `ExecuteWorkflow` (client.go), `StartWorkflow` (protocol/commands/start_workflow.go),
--   `Watch` (protocol/nats/result_watcher.go) and `Get` of a workflow's future (future_executing.go).
-- - Server/Decode, Server/WorkflowTasks, Server/ActivityTasks, Server/ActivityRetries,
--   Server/WorkflowResults: the handlers of internal/server/projection. A handler is a function from
--   a message and the broker's answers to the list of its actions, in order; Server/Broker has these
--   actions and the interface of the broker.
-- - Server/Command: `HandleRequest` of internal/server/handler/command/handler.go. Server/Manager:
--   the bucket and the history that a sequence of commands leaves, as a step relation.
-- - Server/Demo: `handleEvent` of internal/server/handler/http/demo_watcher.go, with demo_state.go and
--   demo_types.go: the state that the demo page shows of each workflow. Server/Demo/Watch: the
--   watcher's retries for its consumer.
-- - Server/Demo/Page: `StartWorkflow`, `GetStatus` and `Crash` of
--   internal/server/handler/http/demo_handler.go.
-- - Server/Config: `LoadConfig` and `Validate` of internal/server/config/config.go with nats.go, and
--   the flags in `Run` of internal/server/app/run.go.
-- - Server/Logging: `Writers`, `ParseExtraFields` and `LogLevel` of internal/server/config/logging.go.
--   Server/Logger: `NewLogger` of internal/server/logger/logger.go, with the handlers' levels.
-- - Server/Setup: `EnsureStream` and `EnsureKV` (Server/Setup/Buckets) of
--   internal/server/infra/jetstream/nats_conn.go, `ensureStreams` and `ensureKV` of
--   internal/server/app/bootstrap.go. Server/Startup: `Connect` (nats_conn.go) and `NewManager`
--   (internal/server/app/manager.go), with the connection that a failed start leaves.
-- - Api/Examples, Server/Examples, Sdk/Examples: tests, and the theorems at concrete inputs.
--
-- Parameters: the broker, chronicle's `RecordEvent`, `Get` and `Save` with what chronicle documents
-- of them, the serializers, reflection's conversion of inputs, the clock, floats, and the users'
-- functions. Workflow code is deterministic, as the engine demands.
--
-- Bounds: `attempts` in Server/ActivityRetries/Episodes follows an activity through the worker and the
-- projection of retries and takes the number of attempts as fuel, which is enough where the policies
-- that its retries find have a positive maximum of at most that number. `decimal` takes the number itself,
-- which has no more digits than its value. `retry_from` in Server/Demo/Watch takes the attempts that
-- are left, ten as in the code. All other recursion is on lists and on workflow code.
--
-- Not modelled: `EnsureKV` and `EnsureStream` of the SDK, which are copies of the server's that nothing
-- calls, `Run` of the manager, the HTTP server, the text that the log handlers write, and the vendored
-- internal/third_party/chronicle. Logging calls are left out of the handlers. Locks are left out: each
-- handler and each token is one sequence of steps.
mod Prelude
pub mod Api
pub mod Sdk
pub mod Server
