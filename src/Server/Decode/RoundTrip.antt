-- ===== src/Server/Decode/RoundTrip.antt =====
-- The type of an event is found again: from its name, and from the keys of its JSON form.
use durablefuture.Prelude.{
  inl, inr, Bool-cases, ◌≡◌, refl, String, List, [], ◌∷◌, ◌++◌, Option, none, some, ok, err, arith,
  Bool, true, false, ◌==◌, if◌then◌else◌,
}
use durablefuture.Prelude.Int.{pos, beq_ℤ}
use durablefuture.Prelude.Dict.{lookup}
use durablefuture.Api.Tasks.{RetryPolicy}
use durablefuture.Api.Events.{
  WorkflowEvent, workflow_started, activity_scheduled, activity_started, activity_completed,
  activity_failed, activity_retried, workflow_failed, workflow_completed, EventKind, started, kind,
  event_name, ActivityScheduled,
}
use durablefuture.Server.Decode.{
  Msg, EventSerde, workflow_event_factories, infer_from_keys, decode_workflow_event, event_type,
  decode_as, infer_workflow_event_type, is_empty,
}

-- The `json` tags of api/events.go. A field with `omitempty` is left out at its zero value.
optional : Bool → String → List String
optional is_zero key = if is_zero then [] else key ∷ []

is_nil : Option RetryPolicy → Bool
is_nil none = true
is_nil (some p) = false

scheduled_keys : ActivityScheduled → List String
unfolding optional is_nil
scheduled_keys e =
    "id"
    ∷ "wf_name"
    ∷ "name"
    ∷ "input"
    ∷ (optional (beq_ℤ e.schedule_to_close_timeout_unix (pos 0)) "schedule_to_close_timeout_unix"
        ++ (optional (beq_ℤ e.start_to_close_timeout_unix (pos 0)) "start_to_close_timeout_ms"
            ++ optional (is_nil e.retry_policy) "retry_policy"))

unfoldable pub json_keys : WorkflowEvent → List String
unfolding scheduled_keys
json_keys (workflow_started e) = "id" ∷ "name" ∷ "input" ∷ []
json_keys (activity_scheduled e) = scheduled_keys e
json_keys (activity_started e) = "id" ∷ "wf_name" ∷ "name" ∷ []
json_keys (activity_completed e) = "id" ∷ "wf_name" ∷ "name" ∷ "result" ∷ []
json_keys (activity_failed e) = "id" ∷ "wf_name" ∷ "name" ∷ "error" ∷ []
json_keys (activity_retried e) =
    "id" ∷ "wf_name" ∷ "name" ∷ "attempt" ∷ "error" ∷ "next_retry_delay_ms" ∷ []
json_keys (workflow_failed e) = "id" ∷ "name" ∷ "error" ∷ []
json_keys (workflow_completed e) = "id" ∷ "name" ∷ "result" ∷ []

-- Inference from the JSON keys of an event gives the name of the event's own type.
pub infer_from_keys-json_keys :
    (e : WorkflowEvent) → infer_from_keys (json_keys e) ≡ ok (event_name (kind e))
unfolding infer_from_keys json_keys kind
infer_from_keys-json_keys (activity_scheduled e) = ground arith
infer_from_keys-json_keys (workflow_started e) = refl
infer_from_keys-json_keys _ = refl

-- The factory under the name of a type makes that type.
lookup-event_name : (k : EventKind) → lookup (event_name k) workflow_event_factories ≡ some k
unfolding lookup event_name
lookup-event_name started = refl
lookup-event_name _ = refl

event_name-ne-empty : (k : EventKind) → (event_name k == "") ≡ false
unfolding event_name
event_name-ne-empty started = refl
event_name-ne-empty _ = refl

-- The field names of the structs, which are the keys where a serializer does not read `json` tags.
unfoldable pub field_names : WorkflowEvent → List String
field_names (workflow_started e) = "ID" ∷ "WorkflowFnName" ∷ "Input" ∷ []
field_names (activity_scheduled e) =
    "ID" ∷ "WorkflowFnName" ∷ "ActivityFnName" ∷ "Input" ∷ "ScheduleToCloseTimeoutUnix"
    ∷ "StartToCloseTimeoutUnix" ∷ "RetryPolicy" ∷ []
field_names (activity_started e) = "ID" ∷ "WorkflowFnName" ∷ "ActivityFnName" ∷ []
field_names (activity_completed e) = "ID" ∷ "WorkflowFnName" ∷ "ActivityFnName" ∷ "Result" ∷ []
field_names (activity_failed e) = "ID" ∷ "WorkflowFnName" ∷ "ActivityFnName" ∷ "Error" ∷ []
field_names (activity_retried e) =
    "ID" ∷ "WorkflowFnName" ∷ "ActivityFnName" ∷ "Attempt" ∷ "Error" ∷ "NextRetryDelay" ∷ []
field_names (workflow_failed e) = "ID" ∷ "WorkflowFnName" ∷ "Error" ∷ []
field_names (workflow_completed e) = "ID" ∷ "WorkflowFnName" ∷ "Result" ∷ []

infer_from_keys-field_names :
    (e : WorkflowEvent)
    → infer_from_keys (field_names e) ≡ err "could not infer workflow event type from payload"
unfolding infer_from_keys field_names
infer_from_keys-field_names (workflow_started e) = refl
infer_from_keys-field_names _ = refl

-- A message with the header that the manager and the event log write: the name of the event's type.
-- Its payload decodes, at that type, to the event.
pub record Carries (conv : EventSerde) (msg : Msg) (e : WorkflowEvent) : Type 0 where
  pub full : is_empty msg.payload ≡ false
  pub named : msg.event_header ≡ event_name (kind e)
  pub encoded : conv.decode_event (kind e) msg.payload ≡ ok e

-- A message without that header, whose payload is a map with the keys of the event's fields.
pub record Headerless (conv : EventSerde) (msg : Msg) (e : WorkflowEvent) : Type 0 where
  pub unnamed : msg.event_header ≡ ""
  pub keyed : conv.decode_keys msg.payload ≡ ok (field_names e)

module _ {conv : EventSerde} {msg : Msg} {e : WorkflowEvent} where
  event_type-Carries : Carries conv msg e → event_type conv msg ≡ ok (event_name (kind e))
  unfolding event_type
  event_type-Carries h = rw h.named (ground (arith, event_name-ne-empty (kind e)))

  -- The projections read an event from a message whose header names the event's type and whose
  -- payload decodes at that type to the event.
  pub decode_workflow_event-Carries : Carries conv msg e → decode_workflow_event conv msg ≡ ok e
  unfolding decode_workflow_event
  decode_workflow_event-Carries h =
      rw (h.full, event_type-Carries h)
        (unfold decode_as in rw (lookup-event_name (kind e), decode_as) (rw h.encoded))

  event_type-Headerless :
      Headerless conv msg e
      → event_type conv msg ≡ err "could not infer workflow event type from payload"
  unfolding event_type infer_workflow_event_type
  event_type-Headerless h = rw (h.unnamed, h.keyed) (infer_from_keys-field_names e)

  -- An event of any type is not read from a message without the header whose payload has the names of
  -- the struct's fields as keys: decoding fails, and does not make an event of another type.
  pub decode_workflow_event-Headerless :
      Headerless conv msg e → (m : String) × (decode_workflow_event conv msg ≡ err m)
  unfolding decode_workflow_event
  decode_workflow_event-Headerless h = elim (Bool-cases (is_empty msg.payload)) [
    | inl empty ↦ ("empty workflow event payload", rw empty refl)
    | inr full ↦ (
      "could not infer workflow event type from payload",
      rw (full, event_type-Headerless h) refl,
    )
  ]
