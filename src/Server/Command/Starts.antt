-- ===== src/Server/Command/Starts.antt =====
-- What a command leaves in the broker, on every branch of `HandleRequest`.
use durablefuture.Prelude.{
  ◌≡◌, refl, String, List, [], ◌∷◌, none, some, Option-cases, Bool-cases, inl, inr, Result, true,
  false, Result-cases, ok, err, concat, ◌==◌,
}
use durablefuture.Api.Keys.{workflow_input_key}
use durablefuture.Api.Tasks.{Bytes, Command, StartWorkflowAttributes, start_workflow_command}
use durablefuture.Server.Broker.{Bucket, workflow_input_bucket}
use durablefuture.Server.Command.{
  reply_failed, History, CommandSerde, serialized, text, Request, terminate, respond, put, publish,
  send_error_reply, started_msg, publish_started, store_input, with_bucket, with_reply,
  start_workflow, handle_request,
}

-- The payload is a command to start a workflow with these attributes.
pub record Asks (conv : CommandSerde) (payload : Bytes) (attributes : StartWorkflowAttributes)
    : Type 0 where
  pub cmd : Command
  pub decoded : conv.deserialize_command payload ≡ ok cmd
  pub starts : (cmd.command_type == start_workflow_command) ≡ true
  pub given : conv.deserialize_attributes cmd.attributes ≡ ok attributes

-- Why a message is terminated: it is no command, or a command of another type.
pub data Ignores (conv : CommandSerde) (payload : Bytes) : Type 0 where
  undecodable : (m : String) → conv.deserialize_command payload ≡ err m → Ignores conv payload
  foreign :
      (cmd : Command)
      → conv.deserialize_command payload ≡ ok cmd
      → (cmd.command_type == start_workflow_command) ≡ false
      → Ignores conv payload

abbrev pub internal_message : String → String → String
internal_message what m = concat ("internal server error: " ∷ what ∷ m ∷ [])

-- Why a start is refused before anything is stored, with the error that the client gets.
pub data Refuses (conv : CommandSerde) (conn : Result History) (payload : Bytes)
    : String → Type 0 where
  no_attributes :
      (cmd : Command) (m : String)
      → conv.deserialize_command payload ≡ ok cmd
      → (cmd.command_type == start_workflow_command) ≡ true
      → conv.deserialize_attributes cmd.attributes ≡ err m
      → Refuses conv conn payload (concat ("failed to parse request attributes: " ∷ m ∷ []))
  no_broker :
      (attributes : StartWorkflowAttributes) (m : String)
      → Asks conv payload attributes
      → conn ≡ err m
      → Refuses conv conn payload (internal_message "failed to get JetStream context: " m)
  no_bucket :
      (attributes : StartWorkflowAttributes) (js : History) (m : String)
      → Asks conv payload attributes
      → conn ≡ ok js
      → js.key_value workflow_input_bucket ≡ err m
      → Refuses conv conn payload (internal_message "failed to get KV store: " m)
  no_input :
      (attributes : StartWorkflowAttributes) (m : String)
      → Asks conv payload attributes
      → conv.serialize_input attributes.input ≡ err m
      → Refuses conv conn payload (internal_message "failed to serialize input args: " m)

-- How a command ends, by its payload and for the workflow id that it is given.
pub data Outcome (conv : CommandSerde) (conn : Result History) (workflow_id : String)
    (payload : Bytes) : List Request → Type 0 where
  -- Nothing but the message is touched.
  ignored : Ignores conv payload → Outcome conv conn workflow_id payload (terminate ∷ [])
  -- The client gets the error, and nothing else is touched.
  refused :
      (m : String)
      → Refuses conv conn payload m
      → Outcome conv conn workflow_id payload (send_error_reply conv "" m)
  -- The reply does not serialize: the client gets a text, and nothing else is touched.
  garbled :
      (attributes : StartWorkflowAttributes) (why : String)
      → Asks conv payload attributes
      → conv.serialize_reply (record { error = ""; workflow_id = workflow_id }) ≡ err why
      → Outcome conv conn workflow_id payload (respond (text (reply_failed why)) ∷ [])
  -- The bucket refuses the input: the workflow has no history, and the client gets an error.
  unstored :
      (attributes : StartWorkflowAttributes) (js : History) (kv : Bucket) (input : Bytes)
      (why : String)
      → Asks conv payload attributes
      → conn ≡ ok js
      → js.key_value workflow_input_bucket ≡ ok kv
      → conv.serialize_input attributes.input ≡ ok input
      → kv.put (workflow_input_key attributes.workflow_fn_name workflow_id) input ≡ some why
      → Outcome conv conn workflow_id payload (
          put workflow_input_bucket
            (workflow_input_key attributes.workflow_fn_name workflow_id)
            input
          ∷ send_error_reply conv "" (internal_message "failed to store input args: " why))
  -- The input is stored and the publication fails: the client gets an error.
  unpublished :
      (attributes : StartWorkflowAttributes) (js : History) (kv : Bucket) (input : Bytes)
      (why : String)
      → Asks conv payload attributes
      → conn ≡ ok js
      → js.key_value workflow_input_bucket ≡ ok kv
      → conv.serialize_input attributes.input ≡ ok input
      → kv.put (workflow_input_key attributes.workflow_fn_name workflow_id) input ≡ none
      → js.publish_msg (started_msg conv workflow_id attributes) ≡ some why
      → Outcome conv conn workflow_id payload (
          put workflow_input_bucket
            (workflow_input_key attributes.workflow_fn_name workflow_id)
            input
          ∷ publish (started_msg conv workflow_id attributes)
          ∷ send_error_reply conv "" (internal_message "" why))
  -- The input is stored, then the first event is published, then the client gets the id.
  launched :
      (attributes : StartWorkflowAttributes) (js : History) (kv : Bucket) (input reply : Bytes)
      → Asks conv payload attributes
      → conn ≡ ok js
      → js.key_value workflow_input_bucket ≡ ok kv
      → conv.serialize_input attributes.input ≡ ok input
      → conv.serialize_reply (record { error = ""; workflow_id = workflow_id }) ≡ ok reply
      → kv.put (workflow_input_key attributes.workflow_fn_name workflow_id) input ≡ none
      → js.publish_msg (started_msg conv workflow_id attributes) ≡ none
      → Outcome conv conn workflow_id payload (
          put workflow_input_bucket
            (workflow_input_key attributes.workflow_fn_name workflow_id)
            input
          ∷ publish (started_msg conv workflow_id attributes)
          ∷ respond (serialized reply)
          ∷ [])

module _ (conv : CommandSerde) (conn : Result History) (workflow_id : String)
    (payload : Bytes) where
  abbrev Ends : List Request → Type 0
  Ends = Outcome conv conn workflow_id payload

  module _ (js : History) (hc : conn ≡ ok js) (attributes : StartWorkflowAttributes)
      (asks : Asks conv payload attributes) where
    store_input-Ends :
        (reply : Bytes) (kv : Bucket) (input : Bytes)
        → conv.serialize_reply (record { error = ""; workflow_id = workflow_id }) ≡ ok reply
        → js.key_value workflow_input_bucket ≡ ok kv
        → conv.serialize_input attributes.input ≡ ok input
        → Ends (store_input conv js workflow_id attributes reply kv input)
    unfolding store_input publish_started
    store_input-Ends reply kv input hr hk hi =
        let key = workflow_input_key attributes.workflow_fn_name workflow_id in
        elim (Option-cases (kv.put key input)) [
          | inr (why, e) ↦ rw (e, store_input) (unstored attributes js kv input why asks hc hk hi e)
          | inl e ↦ elim (Option-cases (js.publish_msg (started_msg conv workflow_id attributes))) [
            | inr (why, p) ↦
                rw (e, store_input, p, publish_started)
                  (unpublished attributes js kv input why asks hc hk hi e p)
            | inl p ↦
                rw (e, store_input, p, publish_started)
                  (launched attributes js kv input reply asks hc hk hi hr e p)
          ]
        ]

    with_bucket-Ends :
        (reply : Bytes)
        → conv.serialize_reply (record { error = ""; workflow_id = workflow_id }) ≡ ok reply
        → Ends (with_bucket conv js workflow_id attributes reply)
    unfolding with_bucket
    with_bucket-Ends reply hr = elim (Result-cases (js.key_value workflow_input_bucket)) [
      | inr (m, e) ↦ rw (e, with_bucket) (refused _ (no_bucket attributes js m asks hc e))
      | inl (kv, e) ↦ elim (Result-cases (conv.serialize_input attributes.input)) [
        | inr (m, i) ↦ rw (e, with_bucket, i) (refused _ (no_input attributes m asks i))
        | inl (input, i) ↦ rw (e, with_bucket, i) (store_input-Ends reply kv input hr e i)
      ]
    ]

    with_reply-Ends : Ends (with_reply conv js workflow_id attributes)
    unfolding with_reply
    with_reply-Ends =
        elim (Result-cases
          (conv.serialize_reply (record { error = ""; workflow_id = workflow_id }))) [
            | inr (m, e) ↦ rw (e, with_reply) (garbled attributes m asks e)
            | inl (reply, e) ↦ rw (e, with_reply) (with_bucket-Ends reply e)
          ]

module _ (conv : CommandSerde) (workflow_id : String) (payload : Bytes) where
  start_workflow-Ends :
      (conn : Result History) (cmd : Command)
      → conv.deserialize_command payload ≡ ok cmd
      → (cmd.command_type == start_workflow_command) ≡ true
      → Outcome conv conn workflow_id payload (start_workflow conv conn workflow_id cmd.attributes)
  unfolding start_workflow
  start_workflow-Ends (err h) cmd hd ht =
      elim (Result-cases (conv.deserialize_attributes cmd.attributes)) [
        | inr (m, e) ↦ rw (e, start_workflow) (refused _ (no_attributes cmd m hd ht e))
        | inl (attributes, e) ↦
            let asks : Asks conv payload attributes = record {
              cmd = cmd;
              decoded = hd;
              starts = ht;
              given = e;
            } in
            rw (e, start_workflow) (refused _ (no_broker attributes h asks refl))
      ]
  start_workflow-Ends (ok js) cmd hd ht =
      elim (Result-cases (conv.deserialize_attributes cmd.attributes)) [
        | inr (m, e) ↦ rw (e, start_workflow) (refused _ (no_attributes cmd m hd ht e))
        | inl (attributes, e) ↦
            let asks : Asks conv payload attributes = record {
              cmd = cmd;
              decoded = hd;
              starts = ht;
              given = e;
            } in
            rw (e, start_workflow)
              (with_reply-Ends conv (ok js) workflow_id payload js refl attributes asks)
      ]

  -- What a command leads to is fixed by its payload. A payload that is a command to start a workflow
  -- with some attributes stores the input of those attributes under their function's name and the new
  -- id, then publishes `WorkflowStarted` with them, and then the client gets the id. Each step is only
  -- taken if the ones before succeeded, and where one fails the client gets that step's error, or the
  -- fallback text where the reply does not serialize. A start is refused only for attributes that do
  -- not decode, for no connection, for no bucket, or for an input that does not serialize, and only a
  -- payload that is no command, or a command of another type, is terminated.
  pub handle_request-Outcome :
      (conn : Result History)
      → Outcome conv conn workflow_id payload (handle_request conv conn workflow_id payload)
  unfolding handle_request
  handle_request-Outcome conn = elim (Result-cases (conv.deserialize_command payload)) [
    | inr (m, e) ↦ rw (e, handle_request) (ignored (undecodable m e))
    | inl (cmd, e) ↦ elim (Bool-cases (cmd.command_type == start_workflow_command)) [
      | inl t ↦ rw (e, handle_request, t) (start_workflow-Ends conn cmd e t)
      | inr f ↦ rw (e, handle_request, f) (ignored (foreign cmd e f))
    ]
  ]
