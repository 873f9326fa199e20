-- ===== src/Sdk/Examples/Tasks.antt =====
-- The theorems on the worker, the registry and the retries, at concrete tasks.
use durablefuture.Prelude.{
  arith, eq_iff, Each, ℕ, suc, ◌*◌, ◌-◌, ◌^◌, leb, ◌≡◌, ◌≢◌, ◌↔◌, refl, String, List, [], ◌∷◌, ◌++◌,
  none, some, Bool, true, Result, ok, err,
}
use durablefuture.Prelude.Dict.{Dict, lookup, insert}
use durablefuture.Prelude.Int.{ℤ, pos, ◌-ℤ◌, ◌*ℤ◌, wrap32, wrap64, quot}
use durablefuture.Sdk.Names.{workflow_task_stream_name, activity_task_stream_name}
use durablefuture.Sdk.Names.Separate.{task_streams-separate}
use durablefuture.Api.Values.{Any, nil, string, Float64, FloatOps}
use durablefuture.Api.Tasks.{WorkflowTask, ActivityTask, RetryPolicy}
use durablefuture.Api.Events.{WorkflowEvent}
use durablefuture.Sdk.State.{load}
use durablefuture.Sdk.Registry.{registry_get, registry_size, registry_set, registry_set-ok}
use durablefuture.Sdk.Retry.{
  evaluate_retry_decision, would_exceed, calculate_retry_delay, policy_delay, backoff_coefficient,
  initial_interval, max_interval,
}
use durablefuture.Sdk.Retry.Decisions.{Allowed, evaluate_retry_decision-Allowed}
use durablefuture.Sdk.Worker.{WorkflowFn, ActivityFn, process_workflow_task, process_activity_task}
use durablefuture.Sdk.Worker.Events.{IsScheduling, Runs, Ends, process_workflow_task-Ends}
use durablefuture.Sdk.Worker.Activities.{Recorded, process_activity_task-Recorded}
use durablefuture.Sdk.Worker.Tokens.{Worker, run_workflow_task}
use durablefuture.Sdk.Worker.Tokens.Settled.{SettledWorkflow, run_workflow_task-SettledWorkflow}
use durablefuture.Sdk.Examples.{worker, worker-RecordsEvents, order, started}

-- Floats that stand for integers: enough for policies with whole coefficients.
abbrev float : ℕ → Float64
float n = record { bits = n }

abbrev integer : ℤ → Float64
integer (pos n) = float n
integer _ = float 0

abbrev pub floats : FloatOps
floats = record {
  of_int64 = integer;
  to_int64 = λ x. pos x.bits;
  mul = λ x y. float (x.bits * y.bits);
  sub = λ x y. float (x.bits - y.bits);
  pow = λ x y. float (x.bits ^ y.bits);
  is_nonpositive = λ x. leb x.bits 0;
  one = float 1;
  two = float 2;
}

abbrev pub policy : RetryPolicy
policy = record {
  initial_interval_ms = pos 100;
  backoff_coefficient = float 2;
  maximum_interval_ms = pos 1000;
  maximum_attempts = pos 3;
  non_retryable_error_types = "denied" ∷ [];
}

abbrev pub second_attempt : ActivityTask
second_attempt = record {
  workflow_fn = "order";
  workflow_id = "1";
  activity_fn = "pay";
  input = string "5" ∷ [];
  last_seq = pos 0;
  attempt = pos 2;
  schedule_to_close_timeout_unix = pos 0;
  start_to_close_timeout_unix = pos 0;
  retry_policy = some policy;
  scheduled_at_ms = pos 1000;
}

abbrev pub order_task : WorkflowTask
order_task = record { workflow_id = "1"; workflow_fn = "order"; input = [] }

abbrev pub registry : Dict WorkflowFn
registry = ("order", record { params = []; body = λ args. order }) ∷ []

-- An activity that fails.
abbrev activities : Dict ActivityFn
activities =
    (
      "pay",
      record {
        takes_context = true;
        params = "string" ∷ [];
        call = λ args. record { values = nil ∷ []; error = some "timeout" };
      },
    )
    ∷ []

abbrev pub same_type : Any → String → Result Any
same_type v t = ok v

abbrev host : Worker
host = record {
  convert_to_type = same_type;
  rt = worker;
  fl = floats;
  now_ms = pos 2000;
  workflows = registry;
  activities = activities;
  repo = record { get = λ id. ok (load (started ∷ [])); save = λ c. none };
}

allowed_second : evaluate_retry_decision floats (pos 2000) second_attempt "timeout" ≡ true
unfolding evaluate_retry_decision would_exceed
allowed_second = refl

delay_second : calculate_retry_delay floats second_attempt ≡ pos 200000000
unfolding calculate_retry_delay policy_delay backoff_coefficient initial_interval max_interval
    wrap32 wrap64 ◌-ℤ◌ ◌*ℤ◌
delay_second = refl

-- The same task, with a timeout.
abbrev timed : ActivityTask
timed = record second_attempt { schedule_to_close_timeout_unix = pos 1100 }

-- 1000 ms and a delay of 200 ms pass the timeout of 1100 ms.
evaluate_retry_decision-Allowed_example :
    (evaluate_retry_decision floats (pos 2000) timed "timeout" ≡ true)
    ↔ Allowed 1200 policy timed "timeout"
unfolding calculate_retry_delay policy_delay backoff_coefficient initial_interval max_interval
    wrap32 wrap64 ◌-ℤ◌ ◌*ℤ◌ quot
evaluate_retry_decision-Allowed_example =
    evaluate_retry_decision-Allowed floats 2000 1000 200 timed "timeout" policy refl refl
      (omega arith) refl (omega arith)

abbrev before : Dict String
before = ("pay", "main.Pay") ∷ []

abbrev after : Dict String
after = ("pay", "main.Pay") ∷ ("ship", "main.Ship") ∷ []

abbrev is_named : String → Bool
is_named f = true

abbrev shown : String → String
shown f = f

registered : registry_set is_named shown "ship" "main.Ship" before ≡ ok after
unfolding registry_set lookup insert
registered = refl

other : ◌≢◌ {A = String} "pay" "ship"
other = ground (arith, eq_iff "pay" "ship")

registry_set-ok_example :
    (is_named "main.Ship" ≡ true)
    × (registry_get after "ship" ≡ ok "main.Ship")
    × (registry_get after "pay" ≡ registry_get before "pay")
    × (registry_size after ≡ suc (registry_size before))
    × ((m : String) × (registry_set is_named shown "ship" "main.Other" after ≡ err m))
registry_set-ok_example =
    registry_set-ok is_named shown "ship" "pay" "main.Ship" "main.Other" before after registered
      other

process_workflow_task-Ends_example :
    (es : List WorkflowEvent) × Each IsScheduling es
    × Ends
        (Runs same_type worker registry order_task (load (started ∷ [])))
        order_task
        ((load (started ∷ [])).uncommitted ++ es)
        (process_workflow_task same_type worker registry order_task (load (started ∷ [])))
process_workflow_task-Ends_example =
    process_workflow_task-Ends worker-RecordsEvents order_task same_type registry
      (load (started ∷ []))

process_activity_task-Recorded_example :
    Recorded same_type floats (pos 2000) activities second_attempt (load (started ∷ [])) (
      process_activity_task same_type worker floats
        (pos 2000)
        activities
        second_attempt
        (load (started ∷ [])))
process_activity_task-Recorded_example =
    process_activity_task-Recorded worker-RecordsEvents same_type floats (pos 2000) activities
      second_attempt (load (started ∷ []))

run_workflow_task-SettledWorkflow_example :
    SettledWorkflow host order_task (run_workflow_task host order_task)
run_workflow_task-SettledWorkflow_example =
    run_workflow_task-SettledWorkflow host worker-RecordsEvents order_task

abbrev staging : String
staging = "staging"

abbrev production : String
production = "production"

staging_differs : staging ≢ production
staging_differs = ground (arith, eq_iff staging production)

task_streams-separate_example :
    (workflow_task_stream_name staging ≢ workflow_task_stream_name production)
    × (activity_task_stream_name staging ≢ activity_task_stream_name production)
    × (workflow_task_stream_name staging ≢ activity_task_stream_name production)
    × (workflow_task_stream_name staging ≢ activity_task_stream_name staging)
task_streams-separate_example = task_streams-separate staging production staging_differs
