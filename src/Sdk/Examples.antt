-- ===== src/Sdk/Examples.antt =====
-- Tests of the replay engine, and its theorems at concrete histories.
mod Tasks
mod Clients
mod Endings
mod Deliveries
mod Orders
use durablefuture.Prelude.{
  ◌⊎◌, ℕ, ◌-◌, ◌≤◌, ◌≡◌, refl, String, List, [], ◌∷◌, ◌++◌, Option, none, some, Result, ok, err,
  length, arith,
}
use durablefuture.Prelude.Dict.{lookup, insert}
use durablefuture.Prelude.Int.{pos}
use durablefuture.Api.Values.{Any, nil, string}
use durablefuture.Api.Events.{
  WorkflowEvent, workflow_started, activity_scheduled, activity_started, activity_completed,
  ActivityScheduled,
}
use durablefuture.Sdk.State.{
  WorkflowState, load, load_from, applied, apply, push_record, ensure_activity_replay,
}
use durablefuture.Sdk.State.Replays.{replay_of, completions, replay_of-load}
use durablefuture.Sdk.Future.{Signal, get}
use durablefuture.Sdk.Activity.{
  Runtime, RecordsEvents, unset, scheduled_event, record_or_panic, execute_fresh, execute_entry,
  execute_activity, get_activity_options,
}
use durablefuture.Sdk.Activity.Counts.{scheduled_count}
use durablefuture.Sdk.Program.{
  Program, returns, execute, await, Ran, returned, blocked, panicked, run,
}
use durablefuture.Sdk.Program.Schedules.{run-schedules_incomplete}
use durablefuture.Sdk.Program.Recovery.{run-returned_stable}
use durablefuture.Sdk.Program.Informational.{run-ignores_informational}

-- A recorder that does what chronicle documents.
abbrev pub keep :
    (WorkflowState → WorkflowEvent → Result WorkflowState)
    → WorkflowState
    → WorkflowEvent
    → Result WorkflowState
keep app c e = elim (app c e) [
  | ok c' ↦ ok (record c' { uncommitted = c'.uncommitted ++ e ∷ [] })
  | err m ↦ err m
]

abbrev pub worker : Runtime
worker = record { record_event = keep; converter = none; format = λ v. ""; clock = λ n. pos 0 }

pub worker-RecordsEvents : RecordsEvents worker
worker-RecordsEvents = record {
  keeps = λ app c e c' h. rw (h, keep);
  refuses = λ app c e m h. (m, ground arith);
}

-- The order workflow: two activities at once, then the results of both.
abbrev pub order : Program
order = execute unset (ok "pay") [] (
    execute unset (ok "ship") []
      (await 0 none (λ paid. await 1 none (λ shipped. returns (nil ∷ nil ∷ [])))))

abbrev pub started : WorkflowEvent
started = workflow_started (record { id = "1"; workflow_fn_name = "order"; input = [] })

abbrev pub scheduled : String → ActivityScheduled
scheduled fn = record {
  id = "1";
  workflow_fn_name = "order";
  activity_fn_name = fn;
  input = [];
  schedule_to_close_timeout_unix = pos 0;
  start_to_close_timeout_unix = pos 0;
  retry_policy = none;
}

abbrev pub completed : String → WorkflowEvent
completed fn = activity_completed (record {
  id = "1";
  workflow_fn_name = "order";
  activity_fn_name = fn;
  result = some (string "ok" ∷ nil ∷ []);
})

abbrev both_done : List WorkflowEvent
both_done = started ∷ completed "ship" ∷ completed "pay" ∷ []

-- The first run schedules both activities, in order, and waits.
run_first : run worker [] order (load (started ∷ [])) ≡ (
  blocked,
  record {
    uncommitted = activity_scheduled (scheduled "pay") ∷ activity_scheduled (scheduled "ship") ∷ [];
    id = "1";
    workflow_function_name = "order";
    activities =
        ("pay", record { history = []; consumed = 1 })
        ∷ ("ship", record { history = []; consumed = 1 })
        ∷ [];
  },
)
unfolding run execute_activity execute_entry execute_fresh get_activity_options record_or_panic
    scheduled_event ensure_activity_replay lookup insert load_from applied apply push_record get
run_first = refl

both_return : (run worker [] order (load both_done)).0 ≡ returned (nil ∷ nil ∷ [])
unfolding run execute_activity execute_entry execute_fresh get_activity_options record_or_panic
    scheduled_event ensure_activity_replay lookup insert load_from applied apply push_record get
both_return = refl

run-returned_stable_example :
    (run worker [] order (load (both_done ++ completed "pay" ∷ []))).0 ≡ returned (nil ∷ nil ∷ [])
run-returned_stable_example =
    run-returned_stable worker-RecordsEvents worker-RecordsEvents
      (record { converter = refl; format = refl }) order both_done (completed "pay" ∷ [])
      (nil ∷ nil ∷ []) both_return

run-schedules_incomplete_example :
    let es = started ∷ completed "ship" ∷ [] in
    let out = run worker [] order (load es) in
    let calls = (replay_of "pay" out.1).consumed in
    let results = length (completions "pay" es) in
    (scheduled_count "pay" out.1.uncommitted ≤ calls - results)
    × (((m : String) × (out.0 ≡ panicked m))
        ⊎ (scheduled_count "pay" out.1.uncommitted ≡ calls - results))
run-schedules_incomplete_example =
    run-schedules_incomplete worker-RecordsEvents "pay" order (started ∷ completed "ship" ∷ [])

-- "pay" is scheduled once more after "ship" has completed, though it is under way.
run-ignores_informational_example :
    let out = run worker [] order (load (started ∷ completed "ship" ∷ [])) in
    let out' =
      run worker [] order
        (load (started ∷ activity_scheduled (scheduled "pay") ∷ completed "ship" ∷ [])) in
    (out'.0 ≡ out.0) × (out'.1.uncommitted ≡ out.1.uncommitted)
unfolding load_from applied
run-ignores_informational_example =
    run-ignores_informational worker-RecordsEvents order (started ∷ []) (completed "ship" ∷ [])
      (activity_scheduled (scheduled "pay")) tt refl refl
