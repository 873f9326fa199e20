-- ===== src/Server/ActivityRetries/Episodes.antt =====
-- What the attempts of one scheduled activity leave in its history, across the worker
-- (`processActivityTask`) and the goroutine of internal/server/projection/activity_retries.go, which
-- makes the next attempt from what it finds in the history, or loses it.
use durablefuture.Prelude.{
  ℕ, zero, suc, ◌≤◌, ◌<◌, ◌≡◌, String, List, [], ◌∷◌, Option, none, some, Result, ok, err, concat,
}
use durablefuture.Prelude.Int.{ℤ, pos, ◌+ℤ◌, wrap32}
use durablefuture.Api.Values.{Any, FloatOps}
use durablefuture.Api.Tasks.{Bytes, ActivityTask, RetryPolicy}
use durablefuture.Api.Events.{
  WorkflowEvent, ActivityScheduled, ActivityRetried, activity_retried, activity_completed,
  activity_failed,
}
use durablefuture.Sdk.Worker.{activity_event}
use durablefuture.Server.Decode.{Msg}
use durablefuture.Server.Broker.{JetStream, Serde, Action, publish}
use durablefuture.Server.ActivityRetries.{fetch_limit, retry_task, find_scheduled, reschedule}

-- An event that makes no further attempt.
abbrev pub IsFinal : WorkflowEvent → Type 0
IsFinal (activity_completed e) = Unit
IsFinal (activity_failed e) = Unit
IsFinal _ = ⊥

-- The task that a retry asks for, made from the scheduling that was found.
abbrev pub task_again : ActivityRetried → ActivityScheduled × ℤ → ActivityTask
task_again e found = record (retry_task e found) { attempt = wrap32 (e.attempt +ℤ pos 1) }

abbrev pub Fetched :
    Result (List Msg) → Serde → JetStream → ActivityRetried → ActivityScheduled × ℤ → Type 0
Fetched fetch conv js e found =
    (msgs : List Msg) × (fetch ≡ ok msgs)
    × (find_scheduled js conv e.activity_fn_name msgs ≡ some found)

module _ (read : Bytes → Option ActivityTask) (conv : Serde) (broker : ℕ → JetStream) where
  abbrev pub fetched : ℕ → ActivityRetried → Result (List Msg)
  fetched n e = (broker n).fetch_history (concat ("history." ∷ e.id ∷ [])) fetch_limit

  -- Why no task comes of a retry: the history is not fetched, or has no scheduling of the function; or
  -- the task made from the first one is not serialized, its publication fails, or it is not read.
  pub data Unretried (n : ℕ) (e : ActivityRetried) : Type 0 where
    unfetched : (why : String) → fetched n e ≡ err why → Unretried n e
    unscheduled :
        (msgs : List Msg)
        → fetched n e ≡ ok msgs
        → find_scheduled (broker n) conv e.activity_fn_name msgs ≡ none
        → Unretried n e
    unserialized :
        (found : ActivityScheduled × ℤ) (why : String)
        → Fetched (fetched n e) conv (broker n) e found
        → conv.serialize_activity_task (task_again e found) ≡ err why
        → Unretried n e
    unpublished :
        (found : ActivityScheduled × ℤ) (bytes : Bytes) (subject msg_id why : String)
        → Fetched (fetched n e) conv (broker n) e found
        → conv.serialize_activity_task (task_again e found) ≡ ok bytes
        → (broker n).publish_msg subject bytes msg_id ≡ some why
        → Unretried n e
    unread :
        (found : ActivityScheduled × ℤ) (bytes : Bytes)
        → Fetched (fetched n e) conv (broker n) e found
        → conv.serialize_activity_task (task_again e found) ≡ ok bytes
        → read bytes ≡ none
        → Unretried n e

  -- The events of at most `n` attempts from number `a` on: retries with their numbers, and then a
  -- final event, or a retry of which no task came.
  pub data Episode : ℕ → ℕ → List WorkflowEvent → Type 0 where
    settled : {n a : ℕ} (e : WorkflowEvent) → IsFinal e → Episode (suc n) a (e ∷ [])
    lost :
        {n a : ℕ} (e : ActivityRetried)
        → e.attempt ≡ pos a
        → Unretried n e
        → Episode (suc n) a (activity_retried e ∷ [])
    again :
        {n a : ℕ} {es : List WorkflowEvent} (e : ActivityRetried)
        → e.attempt ≡ pos a
        → Episode n (suc a) es
        → Episode (suc n) a (activity_retried e ∷ es)

abbrev pub push_event : WorkflowEvent → Option (List WorkflowEvent) → Option (List WorkflowEvent)
push_event e none = none
push_event e (some es) = some (e ∷ es)

-- A policy whose maximum is positive and at most `m`.
abbrev pub Bounded : ℕ → Option RetryPolicy → Type 0
Bounded m o =
    (policy : RetryPolicy) × (j : ℕ) × (o ≡ some policy)
    × (policy.maximum_attempts ≡ pos j)
    × (0 < j)
    × (j ≤ m)

abbrev pub SameMaximum : RetryPolicy → Option RetryPolicy → Type 0
SameMaximum p o = (p' : RetryPolicy) × (o ≡ some p') × (p'.maximum_attempts ≡ p.maximum_attempts)

-- What a task that is read keeps of the one that was serialized.
abbrev pub Keeps : ActivityTask → ActivityTask → Type 0
Keeps t t' =
    ((p : RetryPolicy) → t.retry_policy ≡ some p → SameMaximum p t'.retry_policy)
    × (t'.attempt ≡ t.attempt)
    × (t'.activity_fn ≡ t.activity_fn)
    × (t'.workflow_id ≡ t.workflow_id)

abbrev pub follow_retry :
    ActivityRetried
    → Option ActivityTask
    → (ActivityTask → Option (List WorkflowEvent))
    → Option (List WorkflowEvent)
follow_retry e none rest = some (activity_retried e ∷ [])
follow_retry e (some task) rest = push_event (activity_retried e) (rest task)

-- The worker's reading of the task in a message.
module _ (read : Bytes → Option ActivityTask) where
  abbrev pub accepted : Option String → Bytes → Option ActivityTask
  accepted none bytes = read bytes
  accepted (some m) bytes = none

  abbrev pub delivered : JetStream → List Action → Option ActivityTask
  delivered js (publish subject bytes msg_id ∷ actions) =
      accepted (js.publish_msg subject bytes msg_id) bytes
  delivered js _ = none

  -- With `n` attempts to go, the projection meets the broker `broker n` at the time `nanos n`, and the
  -- execution has the outcome `outcome n` at the time `clock n`.
  module _ (conv : Serde) (nanos : ℕ → ℤ) (broker : ℕ → JetStream) where
    -- The task that a worker gets for a retry, if one comes.
    abbrev pub next_task : ℕ → ActivityRetried → Option ActivityTask
    next_task n e = delivered (broker n) (reschedule (broker n) conv (nanos n) e)

    abbrev pub follow_event :
        ℕ
        → WorkflowEvent
        → (ActivityTask → Option (List WorkflowEvent))
        → Option (List WorkflowEvent)
    follow_event n (activity_retried e) rest = follow_retry e (next_task n e) rest
    follow_event n e rest = some (e ∷ [])

    module _ (fl : FloatOps) (clock : ℕ → ℤ) (outcome : ℕ → Result (List Any)) where
      -- What the history gets when each task that comes is executed; `none` when the fuel does not
      -- reach the end.
      unfoldable pub attempts : ℕ → ActivityTask → Option (List WorkflowEvent)
      attempts zero task = none
      attempts (suc n) task =
          follow_event n (activity_event fl (clock n) task (outcome n)) (attempts n)
