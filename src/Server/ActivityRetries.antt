-- ===== src/Server/ActivityRetries.antt =====
-- internal/server/projection/activity_retries.go: a retried activity becomes a task again.
pub mod Attempts
pub mod Episodes
pub mod Histories
use durablefuture.Prelude.{
  with_prefix, ℕ, suc, String, List, [], ◌∷◌, Option, none, some, Result, ok, err, ◌>>=◌, concat,
  decimal, get_elem?, ◌==◌, if◌then◌else◌,
}
use durablefuture.Prelude.Int.{ℤ, pos, negsuc, ◌+ℤ◌, wrap32}
use durablefuture.Api.Tasks.{Bytes, ActivityTask}
use durablefuture.Api.Events.{
  WorkflowEvent, ActivityScheduled, ActivityRetried, activity_scheduled, activity_retried,
}
use durablefuture.Server.Decode.{Msg, Metadata, decode_workflow_event}
use durablefuture.Server.Broker.{JetStream, Serde, Action, ack, term, publish}
use durablefuture.Server.ActivityTasks.{split_dots}

-- `time.Time{}.UnixMilli()`, the time of a message without metadata.
abbrev pub zero_time_ms : ℤ
zero_time_ms = negsuc 62135596799999

-- The batch size of the fetch.
abbrev pub fetch_limit : ℕ
fetch_limit = 100

abbrev pub timestamp_of : Result Metadata → ℤ
timestamp_of (ok meta) = meta.timestamp_ms
timestamp_of (err m) = zero_time_ms

-- The body of the loop over the messages, for one that decodes; `rest` is the loop's remainder.
abbrev pub match_scheduled :
    String → Msg → WorkflowEvent → Option (ActivityScheduled × ℤ) → Option (ActivityScheduled × ℤ)
match_scheduled fn_name msg (activity_scheduled e) rest =
    if e.activity_fn_name == fn_name then some (e, timestamp_of msg.metadata) else rest
match_scheduled fn_name msg _ rest = rest

-- `strconv`'s decimal form of an int32 or int64.
abbrev show_int : ℤ → String
show_int (pos n) = decimal n
show_int (negsuc n) = concat ("-" ∷ decimal (suc n) ∷ [])

-- The task of the next attempt, from the event of the first scheduling and its time.
unfoldable pub retry_task : ActivityRetried → ActivityScheduled × ℤ → ActivityTask
retry_task e (s, scheduled_ms) = record {
  workflow_fn = e.workflow_fn_name;
  workflow_id = e.id;
  activity_fn = e.activity_fn_name;
  input = s.input;
  last_seq = pos 0;
  attempt = wrap32 (e.attempt +ℤ pos 1);
  schedule_to_close_timeout_unix = s.schedule_to_close_timeout_unix;
  start_to_close_timeout_unix = s.start_to_close_timeout_unix;
  retry_policy = s.retry_policy;
  scheduled_at_ms = scheduled_ms;
}

module _ (js : JetStream) (conv : Serde) where
  -- The loop of `fetchActivityTaskFromHistory`, up to its `break`.
  unfoldable pub find_scheduled : String → List Msg → Option (ActivityScheduled × ℤ)
  find_scheduled fn_name [] = none
  find_scheduled fn_name (msg ∷ msgs) =
      let rest = find_scheduled fn_name msgs in
      elim (decode_workflow_event conv.events msg) [
        | err m ↦ rest
        | ok event ↦ match_scheduled fn_name msg event rest
      ]

  unfoldable pub task_of_messages : ActivityRetried → List Msg → Result ActivityTask
  task_of_messages e msgs = elim (find_scheduled e.activity_fn_name msgs) [
    | none ↦ err (
        concat (
          "could not find ActivityScheduled event for " ∷ e.activity_fn_name ∷ " in workflow "
          ∷ e.id ∷ []))
    | some found ↦ ok (retry_task e found)
  ]

  -- `fetch_history` makes the consumer on the workflow's history and fetches from it; an error of
  -- either ends the function.
  unfoldable pub fetch_activity_task_from_history : ActivityRetried → Result ActivityTask
  unfolding task_of_messages
  fetch_activity_task_from_history e =
      js.fetch_history (concat ("history." ∷ e.id ∷ [])) fetch_limit >>= task_of_messages e

  -- The goroutine after its sleep of the retry delay, at the time `now_ns`. It sets the attempt once
  -- more, and whether the publication succeeds changes only what is logged.
  unfoldable pub reschedule : ℤ → ActivityRetried → List Action
  reschedule now_ns e = elim (fetch_activity_task_from_history e) [
    | err m ↦ []
    | ok task ↦
        elim (conv.serialize_activity_task
          (record task { attempt = wrap32 (e.attempt +ℤ pos 1) })) [
            | err m ↦ []
            | ok bytes ↦ elim (get_elem? (split_dots e.id) 0) [
              | none ↦ []
              | some part ↦
                  publish (concat ("activity." ∷ part ∷ ".tasks" ∷ [])) bytes (
                    concat (
                      "actask-retry-"
                      ∷ e.id
                      ∷ "-"
                      ∷ show_int (wrap32 (e.attempt +ℤ pos 1))
                      ∷ "-"
                      ∷ show_int now_ns
                      ∷ []))
                  ∷ []
            ]
          ]
  ]

  abbrev pub project_retry : WorkflowEvent → List Action × Option ActivityRetried
  project_retry (activity_retried e) = (ack ∷ [], some e)
  project_retry _ = (ack ∷ [], none)

  -- The consumer's handler: the answer to the message, and the event of the goroutine that it starts.
  unfoldable pub handle_activity_retries : Msg → List Action × Option ActivityRetried
  handle_activity_retries msg = elim (decode_workflow_event conv.events msg) [
    | err m ↦ (term ∷ [], none)
    | ok event ↦ elim msg.metadata [ err m ↦ (term ∷ [], none) | ok meta ↦ project_retry event ]
  ]
