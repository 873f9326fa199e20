-- ===== src/Server/Decode.antt =====
-- internal/server/projection/events.go: the event that a message of the history stream carries.
pub mod RoundTrip
use durablefuture.Prelude.{
  with_prefix, ℕ, ◌≡◌, refl, ap, String, List, [], ◌∷◌, ◌++◌, map, Option, none, some, Option-cases,
  inl, inr, Bool, true, false, ◌&&◌, Result, ok, err, ◌>>=◌, arith, concat, contains, ◌==◌,
  if◌then◌else◌,
}
use durablefuture.Prelude.Int.{ℤ, pos, beq_ℤ}
use durablefuture.Prelude.Dict.{Dict, lookup}
use durablefuture.Api.Tasks.{Bytes, RetryPolicy}
use durablefuture.Api.Events.{
  WorkflowEvent, workflow_started, activity_scheduled, activity_started, activity_completed,
  activity_failed, activity_retried, workflow_failed, workflow_completed, ActivityScheduled,
  EventKind, started, scheduled, begun, completed, failed, retried, wf_failed, wf_completed, kind,
  event_name,
}

-- `jetstream.Msg`: its subject, payload and event-name header ("" where it has none), and what
-- `Metadata()` returns: the consumer sequence, and the stream's timestamp in milliseconds.
pub record Metadata : Type 0 where
  pub consumer_sequence : ℕ
  pub timestamp_ms : ℤ

pub record Msg : Type 0 where
  pub subject : String
  pub payload : Bytes
  pub event_header : String
  pub metadata : Result Metadata

-- The serializer, at the types of the projections: an event of a given type, and the keys of a
-- generic map.
pub record EventSerde : Type 0 where
  pub decode_event : EventKind → Bytes → Result WorkflowEvent
  pub decode_keys : Bytes → Result (List String)

-- `workflowEventFactories`, with the type that each factory makes.
abbrev pub workflow_event_factories : Dict EventKind
workflow_event_factories =
    (event_name started, started)
    ∷ (event_name scheduled, scheduled)
    ∷ (event_name begun, begun)
    ∷ (event_name completed, completed)
    ∷ (event_name failed, failed)
    ∷ (event_name retried, retried)
    ∷ (event_name wf_failed, wf_failed)
    ∷ (event_name wf_completed, wf_completed)
    ∷ []

-- The `switch` under the test of `wf_name`, and the other one. A map is used through its keys.
activity_event_type : List String → String
activity_event_type raw =
    if contains raw "result"
    then event_name completed
    else if contains raw "error" && contains raw "attempt"
    then event_name retried
    else if contains raw "error"
    then event_name failed
    else if contains raw "input"
    then event_name scheduled
    else event_name begun

workflow_event_type : List String → Result String
workflow_event_type raw =
    if contains raw "result"
    then ok (event_name wf_completed)
    else if contains raw "error"
    then ok (event_name wf_failed)
    else if contains raw "input"
    then ok (event_name started)
    else err "could not infer workflow event type from payload"

unfoldable pub infer_from_keys : List String → Result String
unfolding activity_event_type workflow_event_type
infer_from_keys raw =
    if contains raw "wf_name" then ok (activity_event_type raw) else workflow_event_type raw

abbrev pub is_empty : Bytes → Bool
is_empty [] = true
is_empty (b ∷ bs) = false

module _ (conv : EventSerde) where
  unfoldable pub infer_workflow_event_type : Bytes → Result String
  infer_workflow_event_type payload =
      with_prefix "infer workflow event type: " (conv.decode_keys payload) >>= infer_from_keys

  unfoldable pub event_type : Msg → Result String
  event_type msg =
      if msg.event_header == "" then infer_workflow_event_type msg.payload else ok msg.event_header

  unfoldable pub decode_as : Bytes → String → Result WorkflowEvent
  decode_as payload name = elim (lookup name workflow_event_factories) [
    | none ↦ err (concat ("unsupported workflow event type \"" ∷ name ∷ "\"" ∷ []))
    | some k ↦
        with_prefix (concat ("decode workflow event (" ∷ name ∷ "): " ∷ []))
          (conv.decode_event k payload)
  ]

  unfoldable pub decode_workflow_event : Msg → Result WorkflowEvent
  decode_workflow_event msg =
      if is_empty msg.payload
      then err "empty workflow event payload"
      else event_type msg >>= decode_as msg.payload
