-- ===== src/Server/ActivityRetries/Attempts.antt =====
-- How often a scheduled activity is attempted: internal/server/projection/activity_retries.go, with
-- activity_tasks.go and the worker.
use durablefuture.Prelude.{
  ℕ, suc, ◌^◌, ◌≤◌, ◌<◌, ◌≡◌, refl, List, [], ◌∷◌, Option, none, some, ◌⊎◌, Result, ok, arith,
  length, concat,
}
use durablefuture.Prelude.Int.{ℤ, pos}
use durablefuture.Api.Values.{Any, FloatOps}
use durablefuture.Api.Tasks.{Bytes, ActivityTask}
use durablefuture.Api.Events.{
  WorkflowEvent, ActivityScheduled, ActivityRetried, activity_completed, activity_failed,
}
use durablefuture.Sdk.Worker.{activity_event}
use durablefuture.Server.Decode.{Msg}
use durablefuture.Server.Broker.{JetStream, Serde}
use durablefuture.Server.ActivityRetries.{fetch_limit, find_scheduled}
use durablefuture.Server.ActivityRetries.Episodes.{
  IsFinal, Episode, settled, Unretried, Bounded, Keeps, next_task, attempts,
}

module _ (fl : FloatOps) (conv : Serde) (read : Bytes → Option ActivityTask) (clock nanos : ℕ → ℤ)
    (broker : ℕ → JetStream) (outcome : ℕ → Result (List Any)) where
  abbrev attempts_of : ℕ → ActivityTask → Option (List WorkflowEvent)
  attempts_of = attempts read conv nanos broker fl clock outcome

  abbrev next : ℕ → ActivityRetried → Option ActivityTask
  next = next_task read conv nanos broker

  abbrev pub Settled : ℕ → ℕ → ActivityTask → Type 0
  Settled a n task =
      (es : List WorkflowEvent) × (attempts_of n task ≡ some es)
      × Episode read conv broker n a es
      × (length es ≤ n)

  settle :
      (a k : ℕ) (task : ActivityTask) (e : WorkflowEvent)
      → activity_event fl (clock k) task (outcome k) ≡ e
      → IsFinal e
      → Settled a (suc k) task
  unfolding attempts
  settle a k task (activity_completed e) h final =
      (_, rw (h, attempts) refl, settled (activity_completed e) final, omega arith)
  settle a k task (activity_failed e) h final =
      (_, rw (h, attempts) refl, settled (activity_failed e) final, omega arith)
  settle a k task _ h final = elim final [ ]

  module _ (s : ActivityScheduled) (m : ℕ) (small : m < 2 ^ 31)
      (kept : (t t' : ActivityTask) (bytes : Bytes)
        → conv.serialize_activity_task t ≡ ok bytes
        → read bytes ≡ some t'
        → Keeps t t')
      (found_Bounded : (n : ℕ) (msgs : List Msg) (found : ActivityScheduled × ℤ)
        → (broker n).fetch_history (concat ("history." ∷ s.id ∷ [])) fetch_limit ≡ ok msgs
        → find_scheduled (broker n) conv s.activity_fn_name msgs ≡ some found
        → Bounded m found.0.retry_policy) where
    -- A task of the activity, at attempt `a`.
    abbrev Ready : ℕ → ActivityTask → Type 0
    Ready a task =
        Bounded m task.retry_policy
        × (task.attempt ≡ pos a)
        × (task.activity_fn ≡ s.activity_fn_name)
        × (task.workflow_id ≡ s.id)

    -- What comes of a retry: no task, for a reason, or the task of the next attempt.
    Comes : ℕ → ℕ → ActivityRetried → Option ActivityTask → Type 0
    Comes n a e o =
        ((o ≡ none) × Unretried read conv broker n e)
        ⊎ ((t : ActivityTask) × (o ≡ some t) × Ready (suc a) t)
