-- ===== src/Sdk/Activity/Effects.antt =====
-- What a call of `ExecuteActivity` returns and changes, in terms of the entry of its function.
use durablefuture.Prelude.{
  suc, ◌≡◌, refl, String, List, [], ◌∷◌, ◌++◌, append-nil, Option, none, some, Option-cases, inl,
  inr, ok, err, arith, get_elem?, ◌==◌, if◌then◌else◌,
}
use durablefuture.Api.Values.{Any}
use durablefuture.Api.Events.{WorkflowEvent, activity_scheduled}
use durablefuture.Sdk.State.{
  ActivityReplay, ActivityReplayRecord, WorkflowState, ensure_activity_replay, put_replay, apply,
  applied,
}
use durablefuture.Sdk.State.Replays.{
  replay_of, SameBase, ensure_activity_replay-SameBase, replay_of-put_replay, replay_of-uncommitted,
  ensure_activity_replay-entry, replay_of-ensure_activity_replay,
}
use durablefuture.Sdk.Future.{Blocking, Signal, value, panic}
use durablefuture.Sdk.Activity.{
  ActivityOptions, Runtime, RecordsEvents, OptionsValue, unset, options, mistyped,
  get_activity_options, resolved, pending, scheduled_event, record_or_panic, execute_fresh,
  execute_entry, execute_activity,
}

abbrev pub consumed_one : ActivityReplay → ActivityReplay
consumed_one entry = record entry { consumed = suc entry.consumed }

-- What the call returns: the next result of the history, or else a pending future.
abbrev pub answer : OptionsValue → Option ActivityReplayRecord → Signal Blocking
answer o (some r) = value (resolved r)
answer mistyped none = panic "ActivityOptions has wrong type in context."
answer _ none = value pending

-- The events that the call records, at the state `c`.
unfoldable pub fresh :
    Runtime
    → OptionsValue
    → String
    → List Any
    → WorkflowState
    → Option ActivityReplayRecord
    → List WorkflowEvent
fresh rt o fn_name args c (some r) = []
fresh rt unset fn_name args c none =
    activity_scheduled (scheduled_event rt c none fn_name args) ∷ []
fresh rt (options p) fn_name args c none =
    activity_scheduled (scheduled_event rt c (some p) fn_name args) ∷ []
fresh rt mistyped fn_name args c none = []

unfoldable pub next_record : String → WorkflowState → Option ActivityReplayRecord
next_record fn_name c = let entry = replay_of fn_name c in get_elem? entry.history entry.consumed

-- What a call leaves of the state: its identity, one more consumed, and the events recorded.
pub record Called (rt : Runtime) (o : OptionsValue) (fn_name : String) (args : List Any)
    (c : WorkflowState) (out : Signal Blocking × WorkflowState) : Type 0 where
  pub answered : out.0 ≡ answer o (next_record fn_name c)
  pub same_id : out.1.id ≡ c.id
  pub same_name : out.1.workflow_function_name ≡ c.workflow_function_name
  pub recorded :
      out.1.uncommitted ≡ c.uncommitted ++ fresh rt o fn_name args c (next_record fn_name c)
  pub replays :
      (j : String)
      → replay_of j out.1
        ≡ (if fn_name == j then consumed_one (replay_of fn_name c) else replay_of j c)

-- The entry that the call works on stands for a state `c` that differs in the map alone.
module _ {rt : Runtime} (law : RecordsEvents rt) (fn_name : String) (args : List Any)
    (c : WorkflowState) where
  record_or_panic-scheduled :
      (d : WorkflowState) (opts : Option ActivityOptions)
      → SameBase c d
      → record_or_panic rt (activity_scheduled (scheduled_event rt d opts fn_name args)) d ≡ (
        value pending,
        record d {
          uncommitted =
              c.uncommitted ++ activity_scheduled (scheduled_event rt c opts fn_name args) ∷ [];
        },
      )
  unfolding record_or_panic apply applied scheduled_event
  record_or_panic-scheduled d none s =
      let e = activity_scheduled (scheduled_event rt d none fn_name args) in
      ground (arith, law.keeps apply d e (applied d e) refl)
  record_or_panic-scheduled d (some p) s =
      let e = activity_scheduled (scheduled_event rt d (some p) fn_name args) in
      ground (arith, law.keeps apply d e (applied d e) refl)

  execute_fresh_lem :
      (o : OptionsValue) (d : WorkflowState)
      → SameBase c d
      → execute_fresh rt o fn_name args d ≡ (
        answer o none,
        record d { uncommitted = c.uncommitted ++ fresh rt o fn_name args c none },
      )
  unfolding execute_fresh get_activity_options fresh
  execute_fresh_lem unset d s = record_or_panic-scheduled d none s
  execute_fresh_lem (options p) d s = record_or_panic-scheduled d (some p) s
  execute_fresh_lem mistyped d s = ground (arith, append-nil c.uncommitted, s.uncommitted)

  -- On either branch, from the entry and a state that agrees with `c` but for the map.
  execute_entry_lem :
      (o : OptionsValue) (entry : ActivityReplay) (d : WorkflowState)
      → SameBase c d
      → let r = get_elem? entry.history entry.consumed in
        let next = put_replay fn_name (consumed_one entry) d in
        execute_entry rt o fn_name args (entry, d)
        ≡ (answer o r, record next { uncommitted = c.uncommitted ++ fresh rt o fn_name args c r })
  unfolding execute_entry fresh
  execute_entry_lem o entry d s = elim (Option-cases (get_elem? entry.history entry.consumed)) [
    | inl e ↦
        rw (e, execute_entry)
          (execute_fresh_lem o (put_replay fn_name (consumed_one entry) d)
            (record { id = s.id; name = s.name; uncommitted = s.uncommitted }))
    | inr (r, e) ↦ rw e (ground (arith, append-nil c.uncommitted, s.uncommitted))
  ]

  execute_entry-Called :
      (o : OptionsValue) (entry : ActivityReplay) (d : WorkflowState)
      → SameBase c d
      → entry ≡ replay_of fn_name c
      → ((j : String) → replay_of j d ≡ replay_of j c)
      → Called rt o fn_name args c (execute_entry rt o fn_name args (entry, d))
  unfolding next_record
  execute_entry-Called o entry d s e same = rw (execute_entry_lem o entry d s) (record {
    answered = rw e refl;
    same_id = s.id;
    same_name = s.name;
    recorded = rw e refl;
    replays = λ j. ground (
      arith,
      replay_of-uncommitted j (put_replay fn_name (consumed_one entry) d)
          (c.uncommitted ++ fresh rt o fn_name args c (get_elem? entry.history entry.consumed)),
      replay_of-put_replay j fn_name (consumed_one entry) d,
      same j,
    );
  })

  pub execute_activity-Called :
      (o : OptionsValue) → Called rt o fn_name args c (execute_activity rt o (ok fn_name) args c)
  unfolding execute_activity
  execute_activity-Called o =
      let (entry, d) = ensure_activity_replay fn_name c in
      execute_entry-Called o entry d (ensure_activity_replay-SameBase fn_name c)
        (ensure_activity_replay-entry fn_name c) (λ j. replay_of-ensure_activity_replay j fn_name c)

pub execute_activity-err :
    (rt : Runtime) (o : OptionsValue) (m : String) (args : List Any) (c : WorkflowState)
    → execute_activity rt o (err m) args c ≡ (panic m, c)
unfolding execute_activity
execute_activity-err rt o m args c = refl

-- The events that a call records depend on the base of the state alone.
pub fresh-SameBase :
    (rt : Runtime) (o : OptionsValue) (fn_name : String) (args : List Any) {c d : WorkflowState}
    (r : Option ActivityReplayRecord)
    → SameBase c d
    → fresh rt o fn_name args d r ≡ fresh rt o fn_name args c r
unfolding fresh scheduled_event
fresh-SameBase rt unset fn_name args none s = ground arith
fresh-SameBase rt (options p) fn_name args none s = ground arith
fresh-SameBase rt mistyped fn_name args none s = refl
fresh-SameBase rt o fn_name args (some r) s = refl
