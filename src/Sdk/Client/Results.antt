-- ===== src/Sdk/Client/Results.antt =====
-- The result of a workflow on its way to the client: the worker's `WorkflowCompleted`, the bucket
-- that the projection writes, the watcher, and `Get`.
use durablefuture.Prelude.{
  ◌≡◌, ◌≢◌, refl, ◌∙◌, String, List, [], ◌∷◌, ◌++◌, Option, some, Result, ok,
}
use durablefuture.Api.Values.{Any, nil, string, other}
use durablefuture.Api.Tasks.{Bytes}
use durablefuture.Api.Events.{WorkflowCompleted, workflow_completed}
use durablefuture.Server.Decode.{Msg, decode_workflow_event}
use durablefuture.Server.Broker.{JetStream, Serde, Action, workflow_result_bucket}
use durablefuture.Server.WorkflowResults.{
  connection_set, answer_set, store_result, project_result, handle_workflow_results,
}
use durablefuture.Sdk.Future.{BinarySerde}
use durablefuture.Sdk.Client.{
  Update, initial_done, put, deleted, first_put, Watchers, watch_kv, watch, read_value,
  read_execution, read_container, read_data, get_result,
}

-- No value is among the updates.
abbrev pub NoPut : List Update → Type 0
NoPut [] = Unit
NoPut (put value ∷ updates) = ⊥
NoPut (initial_done ∷ updates) = NoPut updates
NoPut (deleted ∷ updates) = NoPut updates

-- A watcher of the workflow's key in the result bucket sends these updates.
abbrev pub Watched : Watchers → String → List Update → Type 0
Watched key_value id updates =
    (kv : String → Result (List Update)) × (key_value workflow_result_bucket ≡ ok kv)
    × (kv id ≡ ok updates)

first_put-skips :
    (context_error : String) (before after : List Update) (value : Option Bytes)
    → NoPut before
    → first_put context_error (before ++ put value ∷ after) ≡ ok value
unfolding first_put
first_put-skips context_error [] after value h = refl
first_put-skips context_error (put v ∷ before) after value h = elim h [ ]
first_put-skips context_error (initial_done ∷ before) after value h =
    first_put-skips context_error before after value h
first_put-skips context_error (deleted ∷ before) after value h =
    first_put-skips context_error before after value h

module _ (format : Any → String) (converter : BinarySerde)
    (deserialize_values : Bytes → Result (List Any)) (key_value : Watchers) where
  get_result-read_container :
      (id context_error : String) (before after : List Update) (bytes : Bytes) (vs : List Any)
      (target : Option String)
      → Watched key_value id (before ++ put (some bytes) ∷ after)
      → NoPut before
      → deserialize_values bytes ≡ ok vs
      → get_result format converter deserialize_values id context_error key_value target
        ≡ read_container format converter deserialize_values vs target
  unfolding get_result watch watch_kv read_data
  get_result-read_container id context_error before after bytes vs target (kv, bucket, watcher) h
        e =
      rw (bucket, watcher, first_put-skips context_error before after (some bytes) h, e) refl

  read_value-round_trip :
      (v a : Any) (b : Bytes) (type : String)
      → v ≢ nil
      → converter.serialize v ≡ ok b
      → converter.deserialize b type ≡ ok a
      → read_value format converter deserialize_values v (some type) ≡ ok (some a)
  unfolding read_value
  read_value-round_trip nil a b type some_v hs hd = absurd (some_v refl)
  read_value-round_trip (string s) a b type some_v hs hd = rw (hs, hd) refl
  read_value-round_trip (other n) a b type some_v hs hd = rw (hs, hd) refl

  module _ (js : JetStream) (conv : Serde) (msg : Msg) (e : WorkflowCompleted) (bytes : Bytes)
      (context_error : String) (before after : List Update)
      (decoded : decode_workflow_event conv.events msg ≡ ok (workflow_completed e))
      (stored : conv.serialize_values e.result ≡ ok bytes)
      (watched : Watched key_value e.id (before ++ put (some bytes) ∷ after))
      (waiting : NoPut before) where
    -- The projection asks for this write first.
    abbrev pub Stores : Type 0
    Stores =
        (rest : List Action) × (handle_workflow_results js conv msg
          ≡ Action.put workflow_result_bucket e.id bytes ∷ rest)

    handle_workflow_results-Stores : Stores
    unfolding handle_workflow_results project_result store_result
    handle_workflow_results-Stores = (
      answer_set js (connection_set js workflow_result_bucket e.id bytes),
      rw (decoded, handle_workflow_results, stored, store_result) refl,
    )

    -- A returned value reaches the client: for the event of a workflow that returned a value and no
    -- error, the projection stores bytes under the workflow's id such that a `Get` whose watcher sends
    -- them, after any updates without a value, writes the value at the type of its pointer; provided
    -- that both serializers read back what they wrote.
    pub get_result-value :
        (v a : Any) (b : Bytes) (type : String)
        → v ≢ nil
        → deserialize_values bytes ≡ ok (v ∷ nil ∷ [])
        → converter.serialize v ≡ ok b
        → converter.deserialize b type ≡ ok a
        → Stores
          × (get_result format converter deserialize_values e.id context_error key_value (some type)
              ≡ ok (some a))
    unfolding read_container read_execution
    get_result-value v a b type some_v hv hs hd = (
      handle_workflow_results-Stores,
      get_result-read_container e.id context_error before after bytes (v ∷ nil ∷ []) (some type)
            watched waiting hv
          ∙ read_value-round_trip v a b type some_v hs hd,
    )
