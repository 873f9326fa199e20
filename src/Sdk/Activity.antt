-- ===== src/Sdk/Activity.antt =====
-- sdk/internal/activity_options.go and `ExecuteActivity` of sdk/internal/context.go.
pub mod Effects
pub mod Counts
use durablefuture.Prelude.{
  ℕ, suc, ◌≡◌, String, List, [], ◌∷◌, ◌++◌, Option, none, some, Bool, true, false, ◌&&◌, Result, ok,
  err, get_elem?, length, contains, concat, if◌then◌else◌,
}
use durablefuture.Prelude.Int.{ℤ, pos, ◌+ℤ◌, quot, ltb_ℤ, leb_ℤ, wrap64}
use durablefuture.Api.Values.{Any, Float64, FloatOps}
use durablefuture.Api.Tasks
use durablefuture.Api.Events.{WorkflowEvent, ActivityScheduled, activity_scheduled}
use durablefuture.Sdk.State.{
  ActivityReplay, ActivityReplayRecord, WorkflowState, ensure_activity_replay, put_replay, apply,
}
use durablefuture.Sdk.Future.{BinarySerde, Blocking, Signal, value, panic}

-- Durations are int64 numbers of nanoseconds.
pub record RetryPolicy : Type 0 where
  pub initial_interval : ℤ
  pub backoff_coefficient : Float64
  pub maximum_interval : ℤ
  pub maximum_attempts : ℤ
  pub non_retryable_error_types : List String

pub record ActivityOptions : Type 0 where
  pub schedule_to_close_timeout : ℤ
  pub start_to_close_timeout : ℤ
  pub retry_policy : Option RetryPolicy

-- `time.Duration.Milliseconds`.
abbrev pub milliseconds : ℤ → ℤ
milliseconds d = quot d 1000000

calculate_next_delay : FloatOps → RetryPolicy → ℤ → ℤ
calculate_next_delay fl r attempt = fl.to_int64 (
    fl.mul (fl.of_int64 r.initial_interval)
      (fl.pow r.backoff_coefficient (fl.sub (fl.of_int64 attempt) fl.one)))

-- Of the error the code uses the text. The attempt is an int.
should_retry : RetryPolicy → ℤ → String → Bool
should_retry r attempt error =
    if leb_ℤ (pos 0) r.maximum_attempts && leb_ℤ attempt r.maximum_attempts
    then (if contains r.non_retryable_error_types error then true else false)
    else false

-- What a context holds under `ActivityOptionsKey`.
pub data OptionsValue : Type 0 where
  unset : OptionsValue
  options : ActivityOptions → OptionsValue
  mistyped : OptionsValue

unfoldable pub get_activity_options : OptionsValue → Signal (Option ActivityOptions)
get_activity_options unset = value none
get_activity_options (options o) = value (some o)
get_activity_options mistyped = panic "ActivityOptions has wrong type in context."

abbrev pub convert_retry_policy_to_api : Option RetryPolicy → Option Tasks.RetryPolicy
convert_retry_policy_to_api none = none
convert_retry_policy_to_api (some rp) = some (record {
  initial_interval_ms = milliseconds rp.initial_interval;
  backoff_coefficient = rp.backoff_coefficient;
  maximum_interval_ms = milliseconds rp.maximum_interval;
  maximum_attempts = rp.maximum_attempts;
  non_retryable_error_types = rp.non_retryable_error_types;
})

-- What a workflow run takes from outside: chronicle's `RecordEvent`, the converter of the context
-- (`none` for nil), `fmt`'s `%v`, and the wall clock in Unix seconds, read when so many events have
-- been recorded.
pub record Runtime : Type 0 where
  pub record_event :
      (WorkflowState → WorkflowEvent → Result WorkflowState)
      → WorkflowState
      → WorkflowEvent
      → Result WorkflowState
  pub converter : Option BinarySerde
  pub format : Any → String
  pub clock : ℕ → ℤ

-- What chronicle documents of `RecordEvent`: the event is applied to the aggregate, and kept for the
-- next save if that succeeds; else the error is returned.
pub record RecordsEvents (rt : Runtime) : Type 0 where
  pub keeps :
      (app : WorkflowState → WorkflowEvent → Result WorkflowState) (c : WorkflowState)
      (e : WorkflowEvent) (c' : WorkflowState)
      → app c e ≡ ok c'
      → rt.record_event app c e ≡ ok (record c' { uncommitted = c'.uncommitted ++ e ∷ [] })
  pub refuses :
      (app : WorkflowState → WorkflowEvent → Result WorkflowState) (c : WorkflowState)
      (e : WorkflowEvent) (m : String)
      → app c e ≡ err m
      → (m' : String) × (rt.record_event app c e ≡ err m')

abbrev timeout_of : Bool → ℤ → ℤ
timeout_of given ms = if given then ms else pos 0

-- The event of a fresh execution, with the timeouts and the policy of the options.
unfoldable pub scheduled_event :
    Runtime → WorkflowState → Option ActivityOptions → String → List Any → ActivityScheduled
scheduled_event rt c none fn_name args = record {
  id = c.id;
  workflow_fn_name = c.workflow_function_name;
  activity_fn_name = fn_name;
  input = args;
  schedule_to_close_timeout_unix = pos 0;
  start_to_close_timeout_unix = pos 0;
  retry_policy = none;
}
scheduled_event rt c (some o) fn_name args = record {
  id = c.id;
  workflow_fn_name = c.workflow_function_name;
  activity_fn_name = fn_name;
  input = args;
  schedule_to_close_timeout_unix =
      timeout_of (ltb_ℤ (pos 0) o.schedule_to_close_timeout)
        (wrap64 (rt.clock (length c.uncommitted) +ℤ milliseconds o.schedule_to_close_timeout));
  start_to_close_timeout_unix =
      timeout_of (ltb_ℤ (pos 0) o.start_to_close_timeout) (milliseconds o.start_to_close_timeout);
  retry_policy = convert_retry_policy_to_api o.retry_policy;
}

abbrev pub resolved : ActivityReplayRecord → Blocking
resolved r = elim r.err [
  | some m ↦ record { is_resolved = true; value = none; err = some m }
  | none ↦ record { is_resolved = true; value = r.result; err = none }
]

abbrev pub pending : Blocking
pending = record { is_resolved = false; value = none; err = none }

-- `c.recordThat(event)`, with a panic where it fails.
unfoldable pub record_or_panic :
    Runtime → WorkflowEvent → WorkflowState → Signal Blocking × WorkflowState
record_or_panic rt e c = elim (rt.record_event apply c e) [
  | ok c' ↦ (value pending, c')
  | err m ↦ (panic (concat ("record activity scheduled event: " ∷ m ∷ [])), c)
]

-- A call with no result in the history.
unfoldable pub execute_fresh :
    Runtime → OptionsValue → String → List Any → WorkflowState → Signal Blocking × WorkflowState
execute_fresh rt o fn_name args c = elim (get_activity_options o) [
  | value opts ↦ record_or_panic rt (activity_scheduled (scheduled_event rt c opts fn_name args)) c
  | panic m ↦ (panic m, c)
  | Signal.blocking_future ↦ (Signal.blocking_future, c)
]

-- The next result of the function in the history, if there is one. Either way one is consumed.
unfoldable pub execute_entry :
    Runtime
    → OptionsValue
    → String
    → List Any
    → ActivityReplay × WorkflowState
    → Signal Blocking × WorkflowState
execute_entry rt o fn_name args (entry, c) =
    let next = put_replay fn_name (record entry { consumed = suc entry.consumed }) c in
    elim (get_elem? entry.history entry.consumed) [
      | some r ↦ (value (resolved r), next)
      | none ↦ execute_fresh rt o fn_name args next
    ]

-- `ExecuteActivity`; the function's name comes from reflection, and its failure is a panic.
unfoldable pub execute_activity :
    Runtime
    → OptionsValue
    → Result String
    → List Any
    → WorkflowState
    → Signal Blocking × WorkflowState
execute_activity rt o (err m) args c = (panic m, c)
execute_activity rt o (ok fn_name) args c =
    execute_entry rt o fn_name args (ensure_activity_replay fn_name c)
