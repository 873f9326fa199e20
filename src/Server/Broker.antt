-- ===== src/Server/Broker.antt =====
-- What the projections use of the broker and the serializer, and the actions that a handler takes.
use durablefuture.Prelude.{ℕ, String, List, [], ◌∷◌, Option, none, some, Result}
use durablefuture.Api.Values.{Any}
use durablefuture.Api.Tasks.{Bytes, WorkflowTask, ActivityTask}
use durablefuture.Server.Decode.{Msg, EventSerde}

-- A key-value bucket of JetStream: `Get` and `Put`, of which the error is `some`.
pub record Bucket : Type 0 where
  pub get : String → Result Bytes
  pub put : String → Bytes → Option String

-- JetStream, as it answers while a handler runs: a bucket by its name, the publication of a payload
-- on a subject under a message id, and up to so many messages of the history stream on a subject.
pub record JetStream : Type 0 where
  pub key_value : String → Result Bucket
  pub publish_msg : String → Bytes → String → Option String
  pub fetch_history : String → ℕ → Result (List Msg)

-- The serializer, at the types of the projections.
pub record Serde : Type 0 where
  pub events : EventSerde
  pub serialize_workflow_task : WorkflowTask → Result Bytes
  pub serialize_activity_task : ActivityTask → Result Bytes
  pub serialize_values : Option (List Any) → Result Bytes
  pub deserialize_values : Bytes → Result (List Any)

-- What a handler asks of the broker, in order: an answer to the message, a publication, a write, or
-- the crash of an index out of range.
pub data Action : Type 0 where
  ack nak term crash : Action
  publish : String → Bytes → String → Action
  put : String → String → Bytes → Action

abbrev pub workflow_input_bucket : String
workflow_input_bucket = "workflow-input"

abbrev pub workflow_result_bucket : String
workflow_result_bucket = "workflow-result"

-- A publication, and the answer to the message by its outcome.
abbrev pub answer_publish : Option String → List Action
answer_publish none = ack ∷ []
answer_publish (some m) = nak ∷ []

unfoldable pub publish_and_answer : JetStream → String → Bytes → String → List Action
publish_and_answer js subject bytes msg_id =
    publish subject bytes msg_id ∷ answer_publish (js.publish_msg subject bytes msg_id)
