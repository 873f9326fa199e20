-- ===== src/Sdk/Examples/Orders.antt =====
-- A history of the order workflow, from its start to its end, as two workers make it.
use durablefuture.Prelude.{
  ℕ, ◌≡◌, refl, String, List, [], ◌∷◌, ◌++◌, Option, none, some, true, Each, Result, ok, err, ◌==◌,
  if◌then◌else◌, get_elem?,
}
use durablefuture.Prelude.Dict.{Dict, lookup, insert}
use durablefuture.Prelude.Int.{pos}
use durablefuture.Api.Values.{nil, string}
use durablefuture.Api.Tasks.{Bytes, ActivityTask}
use durablefuture.Api.Events.{
  WorkflowEvent, WorkflowStarted, workflow_started, activity_scheduled, activity_completed,
  workflow_completed, kind, event_name,
}
use durablefuture.Sdk.State.{load_from, applied, apply, push_record, ensure_activity_replay}
use durablefuture.Sdk.Future.{get}
use durablefuture.Sdk.Activity.{
  Runtime, scheduled_event, record_or_panic, execute_fresh, execute_entry, execute_activity,
  get_activity_options,
}
use durablefuture.Sdk.Registry.{registry_get}
use durablefuture.Sdk.Program.{run}
use durablefuture.Sdk.Program.Direct.{direct}
use durablefuture.Sdk.Worker.{
  ActivityFn, convert_inputs, completed_event, process_workflow_task, process_activity_task,
  execute_workflow, call_workflow, conclude, record_that, activity_event, execute_activity_func,
  call_activity, convert_params,
}
use durablefuture.Sdk.Histories.{
  Stored, EventCodec, write, write_all, read_all, saved, after_workflow_task, after_activity_task,
  workflow_step, activity_step, Reach, start, next,
}
use durablefuture.Sdk.Histories.Faithful.{Reach-Faithful}
use durablefuture.Sdk.Histories.Saves.{StoredFaithful, outcomes_of, outcomes_of-Agrees}
use durablefuture.Sdk.Examples.{worker, worker-RecordsEvents, order, started, scheduled}
use durablefuture.Sdk.Examples.Tasks.{floats, same_type, second_attempt, order_task, registry}

abbrev succeeding : ActivityFn
succeeding = record {
  takes_context = true;
  params = "string" ∷ [];
  call = λ args. record { values = string "ok" ∷ nil ∷ []; error = none };
}

abbrev activities : Dict ActivityFn
activities = ("pay", succeeding) ∷ ("ship", succeeding) ∷ []

abbrev workers : ℕ → Runtime
workers w = worker

abbrev activity : String → ActivityTask
activity name = record second_attempt { activity_fn = name }

abbrev order_started : WorkflowStarted
order_started = record { id = "1"; workflow_fn_name = "order"; input = [] }

-- A serializer of the order's events, which drops what an activity returned besides its first value.
abbrev number_of : WorkflowEvent → Result Bytes
number_of (workflow_started e) = ok (0 ∷ [])
number_of (activity_scheduled e) = ok (if e.activity_fn_name == "pay" then 1 ∷ [] else 2 ∷ [])
number_of (activity_completed e) = ok (if e.activity_fn_name == "pay" then 4 ∷ [] else 3 ∷ [])
number_of (workflow_completed e) = ok (5 ∷ [])
number_of _ = err "unsupported"

abbrev first_value : String → WorkflowEvent
first_value fn = activity_completed (record {
  id = "1";
  workflow_fn_name = "order";
  activity_fn_name = fn;
  result = some (string "ok" ∷ []);
})

-- What is read of the bytes 0, 1 and so on.
abbrev events : List WorkflowEvent
events =
    started
    ∷ activity_scheduled (scheduled "pay")
    ∷ activity_scheduled (scheduled "ship")
    ∷ first_value "ship"
    ∷ first_value "pay"
    ∷ completed_event order_task (nil ∷ nil ∷ [])
    ∷ []

abbrev found : Option WorkflowEvent → Result WorkflowEvent
found none = err "EOF"
found (some e) = ok e

abbrev read_number : Bytes → Result WorkflowEvent
read_number [] = err "EOF"
read_number (n ∷ bytes) = found (get_elem? events n)

abbrev codec : EventCodec
codec = record { serialize = number_of; read = λ name bytes. read_number bytes }

abbrev stored : String → ℕ → Stored
stored name n = record { name = name; payload = n ∷ [] }

abbrev worked : ℕ → List Stored → List Stored
worked w rs = after_workflow_task codec same_type workers floats registry activities order_task w rs

abbrev acted : ℕ → String → List Stored → List Stored
acted w name rs =
    after_activity_task codec same_type workers floats registry activities order_task w (pos 2000)
      (activity name) rs

abbrev start_only : List Stored
start_only = stored "workflow/started" 0 ∷ []

abbrev history : List Stored
history = worked 0 (acted 1 "pay" (acted 0 "ship" (worked 1 start_only)))

started_as : write codec started ≡ ok (stored "workflow/started" 0)
unfolding write kind event_name
started_as = refl

history-Reach : Reach codec same_type workers floats registry activities order_task history
history-Reach =
    next
      (next
        (next (next (start order_started _ started_as) (workflow_step 1 _))
          (activity_step 0 (pos 2000) (activity "ship") _))
        (activity_step 1 (pos 2000) (activity "pay") _))
      (workflow_step 0 _)

abbrev run_twice : List Stored
run_twice = start_only ++ stored "activity/scheduled" 1 ∷ stored "activity/scheduled" 2 ∷ []

-- The first task schedules both activities.
schedules : worked 1 start_only ≡ run_twice
unfolding after_workflow_task saved read_all write_all write kind event_name process_workflow_task
    execute_workflow call_workflow conclude record_that convert_inputs registry_get run get
    load_from applied apply push_record ensure_activity_replay execute_activity execute_entry
    execute_fresh record_or_panic get_activity_options scheduled_event lookup insert
schedules = refl

abbrev shipped : List Stored
shipped = run_twice ++ stored "activity/completed" 3 ∷ []

-- An activity task records its result.
ships : acted 0 "ship" run_twice ≡ shipped
unfolding after_activity_task saved read_all write_all write kind event_name process_activity_task
    record_that activity_event execute_activity_func call_activity convert_params registry_get
    load_from applied apply push_record ensure_activity_replay lookup insert
ships = refl

abbrev paid : List Stored
paid = shipped ++ stored "activity/completed" 4 ∷ []

pays : acted 1 "pay" shipped ≡ paid
unfolding after_activity_task saved read_all write_all write kind event_name process_activity_task
    record_that activity_event execute_activity_func call_activity convert_params registry_get
    load_from applied apply push_record ensure_activity_replay lookup insert
pays = refl

abbrev finished : List Stored
finished = paid ++ stored "workflow/completed" 5 ∷ []

-- The task behind both completes the workflow, and schedules nothing again.
completes : worked 0 paid ≡ finished
unfolding after_workflow_task saved read_all write_all write kind event_name process_workflow_task
    execute_workflow call_workflow conclude record_that convert_inputs registry_get run get
    load_from applied apply push_record ensure_activity_replay execute_activity execute_entry
    execute_fresh record_or_panic get_activity_options scheduled_event lookup insert
completes = refl

finished_read : read_all codec finished ≡ ok events
unfolding read_all
finished_read = refl

history_read : read_all codec history ≡ ok events
history_read = rw (schedules, ships, pays, completes) finished_read

Reach-Faithful_example :
    Each (StoredFaithful codec (direct worker (outcomes_of events) (λ j. 0) [] order)) history
unfolding registry_get lookup convert_inputs
Reach-Faithful_example =
    Reach-Faithful codec same_type workers floats registry activities order_task worker
      (λ w. worker-RecordsEvents) (λ w. record { converter = refl; format = refl })
      (record { params = []; body = λ args. order }) [] refl refl (outcomes_of events) history
      events history-Reach history_read (outcomes_of-Agrees events)
