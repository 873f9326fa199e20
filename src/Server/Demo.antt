-- ===== src/Server/Demo.antt =====
-- internal/server/handler/http/demo_watcher.go, demo_state.go and demo_types.go: the state of each
-- workflow that the demo page shows, as the events of the history change it.
pub mod Steps
pub mod Events
pub mod Page
pub mod Watch
use durablefuture.Prelude.{
  ℕ, zero, suc, ◌+◌, String, List, [], ◌∷◌, ◌++◌, Option, none, some, Bool, ltb, nat_beq, length,
  Result, ok, err, ◌==◌, if◌then◌else◌,
}
use durablefuture.Prelude.Dict.{Dict, lookup, insert}
use durablefuture.Prelude.Int.{ℤ}
use durablefuture.Api.Values.{Any}
use durablefuture.Api.Tasks.{Bytes}
use durablefuture.Api.Events.{
  ActivityScheduled, ActivityCompleted, ActivityFailed, ActivityRetried, WorkflowCompleted,
  WorkflowFailed,
}

-- Times are in nanoseconds. The counts only go up from 0, so the source's ints are numbers.
pub record RetryAttempt : Type 0 where
  pub attempt : ℤ
  pub error : String
  pub next_retry_delay : ℤ
  pub recorded_at : ℤ

pub record StepDetail : Type 0 where
  pub name : String
  pub status : String
  pub attempts : ℕ
  pub started_at : Option ℤ
  pub ended_at : Option ℤ
  pub error : String
  pub retry_history : List RetryAttempt

pub record WorkflowState : Type 0 where
  pub workflow_id : String
  pub status : String
  pub current_step : ℕ
  pub steps : List String
  pub step_details : List StepDetail
  pub result : Bytes
  pub error : String
  pub started_at : ℤ
  pub completed_at : Option ℤ

-- What the handler reads of a message: its event-name header and its payload.
pub record EventMsg : Type 0 where
  pub event_header : String
  pub payload : Bytes

-- The serializer at the types of the handler, and `json.Marshal`, whose error is dropped.
pub record DemoSerde : Type 0 where
  pub base_id : Bytes → Result String
  pub scheduled : Bytes → Result ActivityScheduled
  pub completed : Bytes → Result ActivityCompleted
  pub failed : Bytes → Result ActivityFailed
  pub retried : Bytes → Result ActivityRetried
  pub workflow_completed : Bytes → Result WorkflowCompleted
  pub workflow_failed : Bytes → Result WorkflowFailed
  pub to_json : Any → Bytes

abbrev later : Option ℕ → Option ℕ
later none = none
later (some i) = some (suc i)

-- The index of the first step of that name; `none` for the source's -1.
unfoldable pub find_step : String → List StepDetail → Option ℕ
find_step name [] = none
find_step name (step ∷ steps) =
    let rest = later (find_step name steps) in if step.name == name then some 0 else rest

abbrev pub new_step : String → StepDetail
new_step name = record {
  name = name;
  status = "pending";
  attempts = 0;
  started_at = none;
  ended_at = none;
  error = "";
  retry_history = [];
}

unfoldable pub find_or_create_step : String → List StepDetail → ℕ × List StepDetail
find_or_create_step name steps = elim (find_step name steps) [
  | some i ↦ (i, steps)
  | none ↦ (length steps, steps ++ new_step name ∷ [])
]

-- A write through an index of the slice.
unfoldable pub update : ℕ → (StepDetail → StepDetail) → List StepDetail → List StepDetail
update i f [] = []
update zero f (step ∷ steps) = f step ∷ steps
update (suc i) f (step ∷ steps) = step ∷ update i f steps

-- The body under `stepIdx >= 0`, for the step of that name.
abbrev pub update_named : String → (StepDetail → StepDetail) → WorkflowState → WorkflowState
update_named name f state = elim (find_step name state.step_details) [
  | none ↦ state
  | some i ↦ record state { step_details = update i f state.step_details }
]

unfoldable pub run_step : ℤ → StepDetail → StepDetail
run_step now step = record step {
  status = "running";
  attempts = if nat_beq (suc step.attempts) 0 then 1 else suc step.attempts;
  started_at = some now;
}

unfoldable pub complete_step : ℤ → StepDetail → StepDetail
complete_step now step = record step {
  status = "completed";
  ended_at = some now;
  attempts =
      if ltb 0 (length step.retry_history) then suc (length step.retry_history) else step.attempts;
}

unfoldable pub fail_step : ActivityFailed → StepDetail → StepDetail
fail_step e step = record step {
  status = "failed";
  error = e.error;
  attempts =
      if ltb step.attempts (suc (length step.retry_history))
      then suc (length step.retry_history)
      else step.attempts;
}

unfoldable pub retry_step : ℤ → ActivityRetried → StepDetail → StepDetail
retry_step now e step =
    let history =
      step.retry_history
      ++ record {
        attempt = e.attempt;
        error = e.error;
        next_retry_delay = e.next_retry_delay;
        recorded_at = now;
      }
        ∷ [] in
    record step {
      status = "running";
      error = "";
      retry_history = history;
      attempts =
          if ltb step.attempts (suc (length history)) then suc (length history) else step.attempts;
    }

abbrev pub on_scheduled : ℤ → ActivityScheduled → WorkflowState → WorkflowState
on_scheduled now e state =
    let (i, steps) = find_or_create_step e.activity_fn_name state.step_details in
    record state { step_details = update i (run_step now) steps; current_step = suc i }

abbrev first_result : DemoSerde → Option (List Any) → Bytes → Bytes
first_result serde none old = old
first_result serde (some []) old = old
first_result serde (some (v ∷ vs)) old = serde.to_json v

abbrev pub on_completed : DemoSerde → ℤ → WorkflowCompleted → WorkflowState → WorkflowState
on_completed serde now e state = record state {
  status = "completed";
  completed_at = some now;
  result = first_result serde e.result state.result;
}

-- An event that does not decode changes nothing.
abbrev decoded :
    {E : Type 0} → Result E → (E → WorkflowState → WorkflowState) → WorkflowState → WorkflowState
decoded (ok e) f state = f e state
decoded (err m) f state = state

module _ (serde : DemoSerde) (now : ℤ) where
  -- The `switch` on the event's type.
  unfoldable pub handle_typed : String → Bytes → WorkflowState → WorkflowState
  handle_typed type payload state =
      if type == "workflow/started"
      then record state { status = "running"; started_at = now }
      else if type == "activity/scheduled"
      then decoded (serde.scheduled payload) (on_scheduled now) state
      else if type == "activity/completed"
      then decoded (serde.completed payload)
          (λ e. update_named e.activity_fn_name (complete_step now)) state
      else if type == "activity/failed"
      then decoded (serde.failed payload) (λ e. update_named e.activity_fn_name (fail_step e)) state
      else if type == "activity/retried"
      then decoded (serde.retried payload) (λ e. update_named e.activity_fn_name (retry_step now e))
          state
      else if type == "workflow/completed"
      then decoded (serde.workflow_completed payload) (on_completed serde now) state
      else if type == "workflow/failed"
      then decoded (serde.workflow_failed payload)
          (λ e s. record s { status = "failed"; completed_at = some now; error = e.error }) state
      else state

  handle_known : String → EventMsg → Dict WorkflowState → Dict WorkflowState
  handle_known id msg states = elim (lookup id states) [
    | none ↦ states
    | some state ↦ insert id (handle_typed msg.event_header msg.payload state) states
  ]

  -- `handleEvent`, on the map of the workflows' states.
  unfoldable pub handle_event : EventMsg → Dict WorkflowState → Dict WorkflowState
  unfolding handle_known
  handle_event msg states =
      if msg.event_header == ""
      then states
      else elim (serde.base_id msg.payload) [ err m ↦ states | ok id ↦ handle_known id msg states ]
