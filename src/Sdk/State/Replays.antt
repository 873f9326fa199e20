-- ===== src/Sdk/State/Replays.antt =====
-- What the replay state holds for each activity function: the completions of the history, in order.
use durablefuture.Prelude.{
  String, ◌≡◌, refl, ◌∙◌, List, [], ◌∷◌, ◌++◌, append-nil, append_assoc, Option, none, some, arith,
  ◌==◌, eq_iff, if◌then◌else◌,
}
use durablefuture.Prelude.Dict.{lookup, lookup-insert}
use durablefuture.Api.Events.{WorkflowEvent, activity_completed, activity_failed}
use durablefuture.Sdk.State.{
  ActivityReplay, ActivityReplayRecord, WorkflowState, empty_replay, ensure_activity_replay,
  identify, put_replay, push_record, applied, load_from, load, new_empty_workflow_context,
}

-- The entry of a function, empty where the map has none.
abbrev entry_or : Option ActivityReplay → ActivityReplay
entry_or none = empty_replay
entry_or (some r) = r

unfoldable pub replay_of : String → WorkflowState → ActivityReplay
replay_of fn_name c = entry_or (lookup fn_name c.activities)

-- The records that an event adds to the history of a function.
unfoldable pub completion : String → WorkflowEvent → List ActivityReplayRecord
completion fn_name (activity_completed e) =
    if e.activity_fn_name == fn_name then record { result = e.result; err = none } ∷ [] else []
completion fn_name (activity_failed e) =
    if e.activity_fn_name == fn_name then record { result = none; err = some e.error } ∷ [] else []
completion fn_name _ = []

unfoldable pub completions : String → List WorkflowEvent → List ActivityReplayRecord
completions fn_name [] = []
completions fn_name (e ∷ es) = completion fn_name e ++ completions fn_name es

pub replay_of-put_replay :
    (j k : String) (entry : ActivityReplay) (c : WorkflowState)
    → replay_of j (put_replay k entry c) ≡ (if k == j then entry else replay_of j c)
unfolding replay_of
replay_of-put_replay j k entry c = ground (arith, lookup-insert k j entry c.activities)

pub ensure_activity_replay-entry :
    (k : String) (c : WorkflowState) → (ensure_activity_replay k c).0 ≡ replay_of k c
unfolding ensure_activity_replay replay_of
ensure_activity_replay-entry k c = ground arith

pub replay_of-ensure_activity_replay :
    (j k : String) (c : WorkflowState) → replay_of j (ensure_activity_replay k c).1 ≡ replay_of j c
unfolding ensure_activity_replay replay_of
replay_of-ensure_activity_replay j k c =
    ground (arith, lookup-insert k j empty_replay c.activities, eq_iff k j)

abbrev extended : ActivityReplay → List ActivityReplayRecord → ActivityReplay
extended entry rs = record entry { history = entry.history ++ rs }

replay_of-push_record :
    (j k : String) (r : ActivityReplayRecord) (c : WorkflowState)
    → replay_of j (push_record k r c)
      ≡ (if k == j then extended (replay_of j c) (r ∷ []) else replay_of j c)
unfolding push_record
replay_of-push_record j k r c = ground (
  arith,
  eq_iff k j,
  ensure_activity_replay-entry k c,
  replay_of-ensure_activity_replay j k c,
  replay_of-put_replay j k (extended (ensure_activity_replay k c).0 (r ∷ []))
      (ensure_activity_replay k c).1,
)

replay_of-identify :
    (j id name : String) (c : WorkflowState) → replay_of j (identify id name c) ≡ replay_of j c
unfolding replay_of
replay_of-identify j id name c = refl

pub replay_of-applied :
    (j : String) (c : WorkflowState) (e : WorkflowEvent)
    → replay_of j (applied c e) ≡ extended (replay_of j c) (completion j e)
unfolding applied completion
replay_of-applied j c (activity_completed e) = ground (
  arith,
  append-nil (replay_of j c).history,
  replay_of-push_record j e.activity_fn_name (record { result = e.result; err = none })
      (identify e.id e.workflow_fn_name c),
  replay_of-identify j e.id e.workflow_fn_name c,
)
replay_of-applied j c (activity_failed e) = ground (
  arith,
  append-nil (replay_of j c).history,
  replay_of-push_record j e.activity_fn_name (record { result = none; err = some e.error })
      (identify e.id e.workflow_fn_name c),
  replay_of-identify j e.id e.workflow_fn_name c,
)
replay_of-applied j c _ = unfold replay_of in rw append-nil

pub replay_of-load_from :
    (j : String) (c : WorkflowState) (es : List WorkflowEvent)
    → replay_of j (load_from c es) ≡ extended (replay_of j c) (completions j es)
unfolding load_from completions
replay_of-load_from j c [] = rw append-nil
replay_of-load_from j c (e ∷ es) =
    rw (replay_of-load_from j (applied c e) es, replay_of-applied j c e, append_assoc)

-- Two states that agree on everything but the map of activities.
pub record SameBase (c d : WorkflowState) : Type 0 where
  pub id : d.id ≡ c.id
  pub name : d.workflow_function_name ≡ c.workflow_function_name
  pub uncommitted : d.uncommitted ≡ c.uncommitted

pub ensure_activity_replay-SameBase :
    (k : String) (c : WorkflowState) → SameBase c (ensure_activity_replay k c).1
unfolding ensure_activity_replay
ensure_activity_replay-SameBase k c = ground arith

pub replay_of-uncommitted :
    (j : String) (c : WorkflowState) (u : List WorkflowEvent)
    → replay_of j (record c { uncommitted = u }) ≡ replay_of j c
unfolding replay_of
replay_of-uncommitted j c u = refl

-- Loading a history gives each function its completions in order, none of them consumed.
pub replay_of-load :
    (j : String) (es : List WorkflowEvent)
    → replay_of j (load es) ≡ record { history = completions j es; consumed = 0 }
unfolding replay_of completions lookup
replay_of-load j es = replay_of-load_from j new_empty_workflow_context es

uncommitted-push_record :
    (k : String) (r : ActivityReplayRecord) (c : WorkflowState)
    → (push_record k r c).uncommitted ≡ c.uncommitted
unfolding push_record
uncommitted-push_record k r c = (ensure_activity_replay-SameBase k c).uncommitted

pub uncommitted-applied :
    (c : WorkflowState) (e : WorkflowEvent) → (applied c e).uncommitted ≡ c.uncommitted
unfolding applied
uncommitted-applied c (activity_completed e) = uncommitted-push_record e.activity_fn_name _ _
uncommitted-applied c (activity_failed e) = uncommitted-push_record e.activity_fn_name _ _
uncommitted-applied c _ = refl

-- Applying events of the history records nothing.
pub uncommitted-load_from :
    (c : WorkflowState) (es : List WorkflowEvent) → (load_from c es).uncommitted ≡ c.uncommitted
unfolding load_from
uncommitted-load_from c [] = refl
uncommitted-load_from c (e ∷ es) = uncommitted-load_from (applied c e) es ∙ uncommitted-applied c e

pub completions-append :
    (j : String) (xs ys : List WorkflowEvent)
    → completions j (xs ++ ys) ≡ completions j xs ++ completions j ys
unfolding completions
completions-append j [] ys = refl
completions-append j (x ∷ xs) ys = simp (completions-append j xs ys, append_assoc)
