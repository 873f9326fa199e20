-- ===== src/Server/Command.antt =====
-- internal/server/handler/command/handler.go: a client's command starts a workflow.
pub mod Starts
use durablefuture.Prelude.{
  ℕ, String, List, [], ◌∷◌, Option, none, some, Result, ok, err, concat, ◌==◌, if◌then◌else◌,
}
use durablefuture.Prelude.Dict.{Dict}
use durablefuture.Api.Values.{Any}
use durablefuture.Api.Keys.{workflow_input_key, history_publish_subject}
use durablefuture.Api.Tasks.{
  Bytes, Command, StartWorkflowAttributes, StartWorkflowReply, start_workflow_command,
}
use durablefuture.Api.Events.{WorkflowStarted, started, event_name}
use durablefuture.Server.Broker.{Bucket, workflow_input_bucket}

-- A message to publish, with its headers.
pub record HistoryMsg : Type 0 where
  pub subject : String
  pub payload : Bytes
  pub header : Dict String

-- What the handler uses of JetStream: a bucket by its name, and a publication, of which the error is
-- `some`.
pub record History : Type 0 where
  pub key_value : String → Result Bucket
  pub publish_msg : HistoryMsg → Option String

-- The serializer, at the types of the handler.
pub record CommandSerde : Type 0 where
  pub deserialize_command : Bytes → Result Command
  pub deserialize_attributes : Bytes → Result StartWorkflowAttributes
  pub serialize_reply : StartWorkflowReply → Result Bytes
  pub serialize_input : List Any → Result Bytes
  pub serialize_started : WorkflowStarted → Result Bytes

-- The payload of a response: serialized bytes, or `[]byte` of a text.
pub data Payload : Type 0 where
  serialized : Bytes → Payload
  text : String → Payload

-- What the handler asks of the broker, in order.
pub data Request : Type 0 where
  terminate : Request
  respond : Payload → Request
  put : String → String → Bytes → Request
  publish : HistoryMsg → Request

-- The two responses that are written without the serializer.
abbrev pub serialization_failed : String → String
serialization_failed m =
    concat ("{\"error\":\"serialization failed: " ∷ m ∷ "\",\"workflow_id\":\"\"}" ∷ [])

abbrev pub reply_failed : String → String
reply_failed m =
    concat ("{\"error\":\"failed to serialize reply: " ∷ m ∷ "\",\"workflow_id\":\"\"}" ∷ [])

module _ (conv : CommandSerde) where
  -- `sendErrorReply`.
  unfoldable pub send_error_reply : String → String → List Request
  send_error_reply workflow_id error_msg =
      elim (conv.serialize_reply (record { error = error_msg; workflow_id = workflow_id })) [
        | err m ↦ respond (text (serialization_failed m)) ∷ []
        | ok reply ↦ respond (serialized reply) ∷ []
      ]

  abbrev pub internal_error : String → String → List Request
  internal_error what m = send_error_reply "" (concat ("internal server error: " ∷ what ∷ m ∷ []))

  abbrev pub started_event : String → StartWorkflowAttributes → WorkflowStarted
  started_event workflow_id attributes = record {
    id = workflow_id;
    workflow_fn_name = attributes.workflow_fn_name;
    input = attributes.input;
  }

  abbrev bytes_or_empty : Result Bytes → Bytes
  bytes_or_empty (ok bytes) = bytes
  bytes_or_empty (err m) = []

  -- An error of the serializer is dropped.
  abbrev pub started_msg : String → StartWorkflowAttributes → HistoryMsg
  started_msg workflow_id attributes = record {
    subject = history_publish_subject workflow_id;
    payload = bytes_or_empty (conv.serialize_started (started_event workflow_id attributes));
    header =
        ("Chronicle-Event-Name", event_name started) ∷ ("Chronicle-Aggregate-Version", "1") ∷ [];
  }

  module _ (js : History) (workflow_id : String) where
    unfoldable pub publish_started : StartWorkflowAttributes → Bytes → List Request
    publish_started attributes reply =
        let msg = started_msg workflow_id attributes in
        publish msg ∷ elim (js.publish_msg msg) [
          | some m ↦ internal_error "" m
          | none ↦ respond (serialized reply) ∷ []
        ]

    unfoldable pub store_input : StartWorkflowAttributes → Bytes → Bucket → Bytes → List Request
    store_input attributes reply kv input =
        let key = workflow_input_key attributes.workflow_fn_name workflow_id in
        put workflow_input_bucket key input ∷ elim (kv.put key input) [
          | some m ↦ internal_error "failed to store input args: " m
          | none ↦ publish_started attributes reply
        ]

    unfoldable pub with_bucket : StartWorkflowAttributes → Bytes → List Request
    with_bucket attributes reply = elim (js.key_value workflow_input_bucket) [
      | err m ↦ internal_error "failed to get KV store: " m
      | ok kv ↦ elim (conv.serialize_input attributes.input) [
        | err m ↦ internal_error "failed to serialize input args: " m
        | ok input ↦ store_input attributes reply kv input
      ]
    ]

    -- The part behind `h.conn.JS()`: the reply is serialized before anything is stored.
    unfoldable pub with_reply : StartWorkflowAttributes → List Request
    with_reply attributes =
        elim (conv.serialize_reply (record { error = ""; workflow_id = workflow_id })) [
          | err m ↦ respond (text (reply_failed m)) ∷ []
          | ok reply ↦ with_bucket attributes reply
        ]

  module _ (conn : Result History) (workflow_id : String) where
    -- The case of `StartWorkflowCommand`, with the new workflow's id.
    unfoldable pub start_workflow : Bytes → List Request
    start_workflow attributes_bytes = elim (conv.deserialize_attributes attributes_bytes) [
      | err m ↦ send_error_reply "" (concat ("failed to parse request attributes: " ∷ m ∷ []))
      | ok attributes ↦ elim conn [
        | err m ↦ internal_error "failed to get JetStream context: " m
        | ok js ↦ with_reply js workflow_id attributes
      ]
    ]

    -- `HandleRequest`, of a message's payload.
    unfoldable pub handle_request : Bytes → List Request
    handle_request payload = elim (conv.deserialize_command payload) [
      | err m ↦ terminate ∷ []
      | ok cmd ↦
          if cmd.command_type == start_workflow_command
          then start_workflow cmd.attributes
          else terminate ∷ []
    ]
