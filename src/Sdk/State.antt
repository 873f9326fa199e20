-- ===== src/Sdk/State.antt =====
-- sdk/internal/context.go, activity_replay.go and events.go: the replay state of one workflow, and
-- how an event of its history changes it.
pub mod Replays
pub mod Same
use durablefuture.Prelude.{ℕ, String, List, [], ◌∷◌, ◌++◌, Option, none, some, Result, ok}
use durablefuture.Prelude.Dict.{Dict, lookup, insert}
use durablefuture.Api.Values.{Any}
use durablefuture.Api.Events.{
  WorkflowEvent, workflow_started, activity_scheduled, activity_started, activity_completed,
  activity_failed, activity_retried, workflow_failed, workflow_completed,
}

-- `err` is `none` for a nil error.
pub record ActivityReplayRecord : Type 0 where
  pub result : Option (List Any)
  pub err : Option String

-- `consumed` only counts up from 0, so the source's int is a number.
pub record ActivityReplay : Type 0 where
  pub history : List ActivityReplayRecord
  pub consumed : ℕ

-- `uncommitted` is what the embedded `aggregate.Base` keeps: the recorded events that are not saved
-- yet. A nil map of activities reads as an empty one, and `ensureActivityReplay` makes it one.
pub record WorkflowState : Type 0 where
  pub uncommitted : List WorkflowEvent
  pub id : String
  pub workflow_function_name : String
  pub activities : Dict ActivityReplay

abbrev pub empty_replay : ActivityReplay
empty_replay = record { history = []; consumed = 0 }

abbrev pub new_empty_workflow_context : WorkflowState
new_empty_workflow_context = record {
  uncommitted = [];
  id = "";
  workflow_function_name = "";
  activities = [];
}

-- The entry of a function, and the state with that entry in the map.
abbrev ensured : String → Option ActivityReplay → WorkflowState → ActivityReplay × WorkflowState
ensured fn_name (some entry) c = (entry, c)
ensured fn_name none c =
    (empty_replay, record c { activities = insert fn_name empty_replay c.activities })

unfoldable pub ensure_activity_replay : String → WorkflowState → ActivityReplay × WorkflowState
ensure_activity_replay fn_name c = ensured fn_name (lookup fn_name c.activities) c

-- A write through the pointer that `ensureActivityReplay` returns.
abbrev pub put_replay : String → ActivityReplay → WorkflowState → WorkflowState
put_replay fn_name entry c = record c { activities = insert fn_name entry c.activities }

-- `entry := c.ensureActivityReplay(name); entry.history = append(entry.history, r)`
unfoldable pub push_record : String → ActivityReplayRecord → WorkflowState → WorkflowState
push_record fn_name r c =
    let (entry, c') = ensure_activity_replay fn_name c in
    put_replay fn_name (record entry { history = entry.history ++ r ∷ [] }) c'

abbrev pub identify : String → String → WorkflowState → WorkflowState
identify id name c = record c { id = id; workflow_function_name = name }

-- The effect of `Apply` on each type of event.
unfoldable pub applied : WorkflowState → WorkflowEvent → WorkflowState
applied c (workflow_started e) = identify e.id e.workflow_fn_name c
applied c (activity_scheduled e) = identify e.id e.workflow_fn_name c
applied c (activity_started e) = identify e.id e.workflow_fn_name c
applied c (activity_completed e) =
    push_record e.activity_fn_name (record { result = e.result; err = none })
      (identify e.id e.workflow_fn_name c)
applied c (activity_failed e) =
    push_record e.activity_fn_name (record { result = none; err = some e.error })
      (identify e.id e.workflow_fn_name c)
applied c (activity_retried e) = identify e.id e.workflow_fn_name c
applied c (workflow_failed e) = identify e.id e.workflow_fn_name c
applied c (workflow_completed e) = identify e.id e.workflow_fn_name c

-- `Apply` fails on a type outside the closed interface only, so never.
unfoldable pub apply : WorkflowState → WorkflowEvent → Result WorkflowState
apply c e = ok (applied c e)

-- What chronicle documents for loading an aggregate: its recorded events, applied in order.
unfoldable pub load_from : WorkflowState → List WorkflowEvent → WorkflowState
load_from c [] = c
load_from c (e ∷ es) = load_from (applied c e) es

abbrev pub load : List WorkflowEvent → WorkflowState
load es = load_from new_empty_workflow_context es
