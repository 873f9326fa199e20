-- ===== src/Sdk/Client.antt =====
-- sdk/internal/client.go, sdk/internal/protocol/commands/start_workflow.go, future_executing.go and
-- sdk/internal/protocol/nats/result_watcher.go: a client starts a workflow and gets its result.
pub mod Results
pub mod Starts
use durablefuture.Prelude.{
  with_prefix, String, List, [], ◌∷◌, Option, none, some, Result, ok, err, ◌>>=◌, concat, decimal,
  length, ◌==◌, if◌then◌else◌,
}
use durablefuture.Api.Values.{Any, nil, string, other}
use durablefuture.Api.Tasks.{
  Bytes, Command, StartWorkflowAttributes, StartWorkflowReply, start_workflow_command,
}
use durablefuture.Server.Broker.{workflow_result_bucket}
use durablefuture.Sdk.Future.{BinarySerde}

-- What a request over NATS comes to: an answer, the error `ErrNoResponders`, or another error.
pub data Requested : Type 0 where
  answered : Bytes → Requested
  no_responders : String → Requested
  unanswered : String → Requested

-- The serializer at the types of the start command, and the request on `command.request.start`.
pub record StartConn : Type 0 where
  pub serialize_attributes : StartWorkflowAttributes → Result Bytes
  pub serialize_command : Command → Result Bytes
  pub deserialize_reply : Bytes → Result StartWorkflowReply
  pub request : String → Bytes → Requested

abbrev pub command_request_start : String
command_request_start = "command.request.start"

-- `ExecuteWorkflow`: a future of a workflow's id, an error, or the nil dereference of `reply.Error`
-- where `startWorkflow` returns an error.
pub data Execution : Type 0 where
  future : String → Execution
  refused : String → Execution
  nil_dereference : Execution

module _ (conn : StartConn) where
  abbrev pub reply_of : Requested → Result StartWorkflowReply
  reply_of (answered bytes) =
      with_prefix "failed to parse reply of start workflow request: " (conn.deserialize_reply bytes)
  reply_of (no_responders m) = err (concat ("no managers available to start workflow: " ∷ m ∷ []))
  reply_of (unanswered m) = err (concat ("failed to send start workflow request: " ∷ m ∷ []))

  unfoldable pub start_workflow : StartWorkflowAttributes → Result StartWorkflowReply
  start_workflow attributes =
      with_prefix "failed to serialize start workflow attributes: "
        (conn.serialize_attributes attributes)
      >>= λ bytes.
          with_prefix "failed to serialize start workflow command: " (
            conn.serialize_command
              (record { command_type = start_workflow_command; attributes = bytes }))
          >>= λ command. reply_of (conn.request command_request_start command)

  -- `uuid.FromString`, whose error is dropped, and `String`: the canonical text of the id, or that of
  -- the zero UUID.
  module _ (canonical : String → String) where
    unfoldable pub execution_of : StartWorkflowReply → Execution
    execution_of reply =
        if reply.error == ""
        then (if reply.workflow_id == ""
            then refused "empty workflowID: %!w(<nil>)"
            else future (canonical reply.workflow_id))
        else refused (concat ("starting workflow failed on server: " ∷ reply.error ∷ []))

    -- The name comes from reflection, and may be an error.
    unfoldable pub execute_workflow : Result String → List Any → Execution
    execute_workflow (err m) input =
        refused (concat ("failed to extract workflow function name: " ∷ m ∷ []))
    execute_workflow (ok name) input =
        elim (start_workflow (record { workflow_fn_name = name; input = input })) [
          | err m ↦ nil_dereference
          | ok reply ↦ execution_of reply
        ]

-- What a watcher of a key sends: the nil that ends its initial values, a value, or a deletion. A
-- value is `none` for a nil slice.
pub data Update : Type 0 where
  initial_done : Update
  put : Option Bytes → Update
  deleted : Update

-- The loop over the updates until the channel is closed; the context's error is behind it.
unfoldable pub first_put : String → List Update → Result (Option Bytes)
first_put context_error [] =
    err (concat ("watcher stopped without receiving a result: " ∷ context_error ∷ []))
first_put context_error (put value ∷ updates) = ok value
first_put context_error (initial_done ∷ updates) = first_put context_error updates
first_put context_error (deleted ∷ updates) = first_put context_error updates

-- The broker's buckets, and the watchers of a key in one.
abbrev pub Watchers : Type 0
Watchers = String → Result (String → Result (List Update))

-- `WatchKV` of sdk/internal/protocol/nats/nats.go.
unfoldable pub watch_kv : Watchers → String → String → Result (List Update)
watch_kv key_value bucket key =
    with_prefix (concat ("failed to get KV bucket '" ∷ bucket ∷ "': " ∷ [])) (key_value bucket)
    >>= λ kv.
        with_prefix
          (concat
            ("failed to create watcher for key '" ∷ key ∷ "' in bucket '" ∷ bucket ∷ "': " ∷ []))
          (kv key)

unfoldable pub watch : String → String → Watchers → Result (Option Bytes)
watch workflow_id context_error key_value =
    with_prefix (concat ("could not start KV watcher for key '" ∷ workflow_id ∷ "': " ∷ []))
      (watch_kv key_value workflow_result_bucket workflow_id)
    >>= first_put context_error

-- The converter, which also reads the container of a result, and `fmt`'s `%v`.
module _ (format : Any → String) (converter : BinarySerde)
    (deserialize_values : Bytes → Result (List Any)) where
  -- The pointer's new value is `some`; `ok none` leaves it alone.
  read_value : Any → Option String → Result (Option Any)
  read_value nil target = ok none
  read_value v none = ok none
  read_value v (some type) =
      with_prefix "failed to re-serialize workflow result value: " (converter.serialize v)
      >>= λ bytes.
          with_prefix "failed to deserialize result value into provided type: "
            (converter.deserialize bytes type)
          >>= λ a. ok (some a)

  read_execution : Any → Any → Option String → Result (Option Any)
  unfolding read_value
  read_execution v nil target = read_value v target
  read_execution v (string s) target =
      if s == ""
      then err (concat ("sdk received an unknown error from workflow: " ∷ format (string s) ∷ []))
      else err (concat ("workflow execution failed: " ∷ s ∷ []))
  read_execution v (other n) target =
      err (concat ("sdk received an unknown error from workflow: " ∷ format (other n) ∷ []))

  read_container : List Any → Option String → Result (Option Any)
  unfolding read_execution
  read_container (v ∷ e ∷ []) target = read_execution v e target
  read_container vs target = err (
      concat (
        "invalid workflow result format: expected [result, error], got "
        ∷ decimal (length vs)
        ∷ " elements"
        ∷ []))

  read_data : String → Option String → Option Bytes → Result (Option Any)
  unfolding read_container
  read_data workflow_id target none =
      err (concat ("watcher returned no data for workflow " ∷ workflow_id ∷ []))
  read_data workflow_id target (some bytes) =
      with_prefix "failed to deserialize workflow result container: " (deserialize_values bytes)
      >>= λ vs. read_container vs target

  -- `Get` of the future of a workflow, with a pointer to the type `target` or with nil.
  unfoldable pub get_result : String → String → Watchers → Option String → Result (Option Any)
  unfolding read_data
  get_result workflow_id context_error key_value target =
      with_prefix "error waiting for workflow result: " (watch workflow_id context_error key_value)
      >>= read_data workflow_id target
