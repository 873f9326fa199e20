-- ===== src/Server/WorkflowResults.antt =====
-- internal/server/projection/workflow_results.go, with `Set` of
-- internal/server/infra/jetstream/nats_conn.go: the results that clients wait for.
use durablefuture.Prelude.{String, List, [], ◌∷◌, Option, none, some, Result, ok, err, concat}
use durablefuture.Api.Tasks.{Bytes}
use durablefuture.Api.Events.{WorkflowEvent, WorkflowCompleted, workflow_completed}
use durablefuture.Server.Decode.{Msg, decode_workflow_event}
use durablefuture.Server.Broker.{
  JetStream, Bucket, Serde, Action, ack, nak, term, put, workflow_result_bucket,
}

abbrev pub ok_bytes : Result Bytes → Bytes
ok_bytes (ok bytes) = bytes
ok_bytes (err m) = []

module _ (js : JetStream) where
  put_in : String → String → Bytes → Bucket → Option String
  put_in bucket key value kv = elim (kv.put key value) [
    | none ↦ none
    | some m ↦
        some (concat ("failed to put key '" ∷ key ∷ "' in bucket '" ∷ bucket ∷ "': " ∷ m ∷ []))
  ]

  -- `Connection.Set`, without the revision; an error is `some`.
  unfoldable pub connection_set : String → String → Bytes → Option String
  unfolding put_in
  connection_set bucket key value = elim (js.key_value bucket) [
    | err m ↦ some (concat ("failed to get KV bucket '" ∷ bucket ∷ "': " ∷ m ∷ []))
    | ok kv ↦ put_in bucket key value kv
  ]

  abbrev pub answer_set : Option String → List Action
  answer_set none = ack ∷ []
  answer_set (some m) = nak ∷ []

  module _ (conv : Serde) where
    -- An error of the serializer is dropped, and no bytes are stored then.
    unfoldable pub store_result : WorkflowCompleted → List Action
    store_result e =
        let result = ok_bytes (conv.serialize_values e.result) in
        put workflow_result_bucket e.id result
        ∷ answer_set (connection_set workflow_result_bucket e.id result)

    unfoldable pub project_result : WorkflowEvent → List Action
    unfolding store_result
    project_result (workflow_completed e) = store_result e
    project_result _ = ack ∷ []

    -- The consumer's handler.
    unfoldable pub handle_workflow_results : Msg → List Action
    unfolding project_result
    handle_workflow_results msg = elim (decode_workflow_event conv.events msg) [
      | err m ↦ term ∷ []
      | ok event ↦ project_result event
    ]
