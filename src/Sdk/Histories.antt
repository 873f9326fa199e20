-- ===== src/Sdk/Histories.antt =====
-- The stored history of one workflow, as the workers of sdk/internal/worker_runtime.go make it: each
-- task reads it, runs, and saves what it recorded.
pub mod Faithful
pub mod Saves
use durablefuture.Prelude.{ℕ, String, List, [], ◌∷◌, ◌++◌, ◌≡◌, Result, ok, err, ◌>>=◌}
use durablefuture.Prelude.Dict.{Dict}
use durablefuture.Prelude.Int.{ℤ}
use durablefuture.Api.Values.{Any, FloatOps}
use durablefuture.Api.Tasks.{Bytes, WorkflowTask, ActivityTask}
use durablefuture.Api.Events.{WorkflowEvent, WorkflowStarted, workflow_started, kind, event_name}
use durablefuture.Sdk.State.{load}
use durablefuture.Sdk.Activity.{Runtime}
use durablefuture.Sdk.Worker.{WorkflowFn, ActivityFn, process_workflow_task, process_activity_task}

-- An event as the log stores it.
pub record Stored : Type 0 where
  pub name : String
  pub payload : Bytes

-- The repository's event serializer: what is read of a payload under an event's name may differ from
-- the event that was serialized.
pub record EventCodec : Type 0 where
  pub serialize : WorkflowEvent → Result Bytes
  pub read : String → Bytes → Result WorkflowEvent

module _ (codec : EventCodec) where
  unfoldable pub write : WorkflowEvent → Result Stored
  write e =
      codec.serialize e >>= λ bytes. ok (record { name = event_name (kind e); payload = bytes })

  unfoldable pub write_all : List WorkflowEvent → Result (List Stored)
  write_all [] = ok []
  write_all (e ∷ es) = write e >>= λ r. write_all es >>= λ rs. ok (r ∷ rs)

  unfoldable pub read_all : List Stored → Result (List WorkflowEvent)
  read_all [] = ok []
  read_all (r ∷ rs) = codec.read r.name r.payload >>= λ e. read_all rs >>= λ es. ok (e ∷ es)

  -- What the log holds when one task's events, of the history that was read, are saved. An error of
  -- `repo.Get` ends the task, and `repo.Save` appends either all of its events or none.
  unfoldable pub saved : (List WorkflowEvent → List WorkflowEvent) → List Stored → List Stored
  saved recorded rs = elim (read_all rs) [
    | err m ↦ rs
    | ok es ↦ elim (write_all (recorded es)) [ err m ↦ rs | ok new ↦ rs ++ new ]
  ]

-- Any number of workers, which have the same functions registered; `task` is the workflow's task, the
-- same at each delivery.
module _ (codec : EventCodec) (convert_to_type : Any → String → Result Any) (workers : ℕ → Runtime)
    (fl : FloatOps) (workflows : Dict WorkflowFn) (activities : Dict ActivityFn)
    (task : WorkflowTask) where
  unfoldable pub after_workflow_task : ℕ → List Stored → List Stored
  after_workflow_task w = saved codec (λ es.
      (process_workflow_task convert_to_type (workers w) workflows task (load es)).1.uncommitted)

  unfoldable pub after_activity_task : ℕ → ℤ → ActivityTask → List Stored → List Stored
  after_activity_task w now_ms activity = saved codec (λ es.
      (process_activity_task convert_to_type (workers w) fl now_ms activities activity
        (load es)).1.uncommitted)

  -- The history grows by a workflow task or an activity task of some worker. Tasks come in any order,
  -- late and more than once. A save succeeds only if the history is as it was loaded, as chronicle
  -- documents; a save that fails leaves the history.
  pub data Step : List Stored → List Stored → Type 0 where
    workflow_step : (w : ℕ) (rs : List Stored) → Step rs (after_workflow_task w rs)
    activity_step :
        (w : ℕ) (now_ms : ℤ) (activity : ActivityTask) (rs : List Stored)
        → Step rs (after_activity_task w now_ms activity rs)

  -- The histories that a started workflow comes to.
  pub data Reach : List Stored → Type 0 where
    start :
        (e : WorkflowStarted) (r : Stored)
        → write codec (workflow_started e) ≡ ok r
        → Reach (r ∷ [])
    next : {rs rs' : List Stored} → Reach rs → Step rs rs' → Reach rs'
