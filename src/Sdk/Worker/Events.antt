-- ===== src/Sdk/Worker/Events.antt =====
-- The events that a task adds to the history of its workflow.
use durablefuture.Prelude.{
  Each, Each-append, ◌≡◌, refl, sym, subst, String, List, [], ◌∷◌, ◌++◌, append-nil, append_assoc,
  Option, none, some, Option-cases, Result-cases, inl, inr, ◌⊎◌, Result, ok, err, arith, get_elem?,
}
use durablefuture.Prelude.Dict.{Dict}
use durablefuture.Api.Values.{Any}
use durablefuture.Api.Tasks.{WorkflowTask}
use durablefuture.Api.Events.{WorkflowEvent, activity_scheduled}
use durablefuture.Sdk.State.{ActivityReplayRecord, WorkflowState, apply, applied}
use durablefuture.Sdk.State.Replays.{uncommitted-applied}
use durablefuture.Sdk.Future.{Blocking, Signal, value, blocking_future, panic, get}
use durablefuture.Sdk.Activity.{
  Runtime, RecordsEvents, OptionsValue, unset, options, mistyped, execute_activity,
}
use durablefuture.Sdk.Activity.Effects.{
  fresh, next_record, execute_activity-Called, execute_activity-err,
}
use durablefuture.Sdk.Program.{
  Program, returns, panics, execute, await, Ran, returned, blocked, panicked, resume, run,
}
use durablefuture.Sdk.Worker.{
  WorkflowFn, Converted, arguments, failed, panicking, Executed, finished, failing, suspended,
  crashed, convert_inputs, record_that, conclude, call_workflow, execute_workflow,
  process_workflow_task, workflow_panic, failed_event, completed_event, executed_of,
}
use durablefuture.Sdk.Registry.{registry_get}

abbrev pub IsScheduling : WorkflowEvent → Type 0
IsScheduling (activity_scheduled e) = Unit
IsScheduling _ = ⊥

-- From `c` to `d` nothing but `ActivityScheduled` events is recorded.
pub record Schedules (c d : WorkflowState) : Type 0 where
  pub events : List WorkflowEvent
  pub only : Each IsScheduling events
  pub recorded : d.uncommitted ≡ c.uncommitted ++ events

Schedules-refl : (c : WorkflowState) → Schedules c c
Schedules-refl c = record { events = []; only = tt; recorded = sym (append-nil c.uncommitted) }

Schedules-trans : {c d e : WorkflowState} → Schedules c d → Schedules d e → Schedules c e
Schedules-trans {c} p q = record {
  events = p.events ++ q.events;
  only = Each-append IsScheduling p.events q.events p.only q.only;
  recorded = ground (arith, p.recorded, q.recorded, append_assoc c.uncommitted p.events q.events);
}

fresh-IsScheduling :
    (rt : Runtime) (o : OptionsValue) (fn_name : String) (args : List Any) (c : WorkflowState)
    (r : Option ActivityReplayRecord)
    → Each IsScheduling (fresh rt o fn_name args c r)
unfolding fresh
fresh-IsScheduling rt unset fn_name args c none = (tt, tt)
fresh-IsScheduling rt (options p) fn_name args c none = (tt, tt)
fresh-IsScheduling rt mistyped fn_name args c none = tt
fresh-IsScheduling rt o fn_name args c (some r) = tt

module _ {ℓ} {A : Type ℓ} where
  Schedules-resume :
      (s : Signal A) (c d : WorkflowState) (k : A → Ran × WorkflowState)
      → Schedules c d
      → ((a : A) → Schedules d (k a).1)
      → Schedules c (resume s d k).1
  Schedules-resume (value a) c d k h rest = Schedules-trans h (rest a)
  Schedules-resume blocking_future c d k h rest = h
  Schedules-resume (panic m) c d k h rest = h

module _ {rt : Runtime} (law : RecordsEvents rt) where
  pub run-Schedules :
      (fs : List Blocking) (p : Program) (c : WorkflowState) → Schedules c (run rt fs p c).1
  unfolding run
  run-Schedules fs (returns vs) c = Schedules-refl c
  run-Schedules fs (panics m) c = Schedules-refl c
  run-Schedules fs (execute o (err m) args p) c =
      rw (execute_activity-err rt o m args c) (Schedules-refl c)
  run-Schedules fs (execute o (ok fn_name) args p) c =
      let out = execute_activity rt o (ok fn_name) args c in
      Schedules-resume out.0 c out.1 (λ f. run rt (fs ++ f ∷ []) p out.1)
        (record {
          events = fresh rt o fn_name args c (next_record fn_name c);
          only = fresh-IsScheduling rt o fn_name args c (next_record fn_name c);
          recorded = (execute_activity-Called law fn_name args c o).recorded;
        })
        (λ f. run-Schedules (fs ++ f ∷ []) p out.1)
  run-Schedules fs (await i target k) c = elim (Option-cases (get_elem? fs i)) [
    | inl e ↦ rw (e, run) (Schedules-refl c)
    | inr (f, e) ↦
        rw (e, run)
          (Schedules-resume (get rt.format rt.converter f target) c c (λ r. run rt fs (k r) c)
            (Schedules-refl c) (λ r. run-Schedules fs (k r) c))
  ]

  pub uncommitted-record_that :
      (e : WorkflowEvent) (c : WorkflowState)
      → (record_that rt e c).uncommitted ≡ c.uncommitted ++ e ∷ []
  unfolding record_that apply
  uncommitted-record_that e c =
      ground (arith, law.keeps apply c e (applied c e) refl, uncommitted-applied c e)

-- What `recover` and the closure make of a run.
abbrev pub told : Ran → Executed
told (returned vs) = finished vs
told blocked = suspended
told (panicked m) = crashed (workflow_panic m)

-- How the run of a workflow task ends: the function is not registered, its inputs do not convert, or it
-- is called and returns, waits, or panics.
pub data Runs (convert_to_type : Any → String → Result Any) (rt : Runtime)
    (registry : Dict WorkflowFn) (task : WorkflowTask) (c : WorkflowState) : Executed → Type 0 where
  unregistered :
      (m : String)
      → registry_get registry task.workflow_fn ≡ err m
      → Runs convert_to_type rt registry task c (failing m)
  unconverted :
      (fn : WorkflowFn) (m : String)
      → registry_get registry task.workflow_fn ≡ ok fn
      → convert_inputs convert_to_type task.input fn.params ≡ failed m
      → Runs convert_to_type rt registry task c (failing m)
  mistyped_inputs :
      (fn : WorkflowFn) (m : String)
      → registry_get registry task.workflow_fn ≡ ok fn
      → convert_inputs convert_to_type task.input fn.params ≡ panicking m
      → Runs convert_to_type rt registry task c (crashed (workflow_panic m))
  called :
      (fn : WorkflowFn) (args : List Any) (ran : Ran)
      → registry_get registry task.workflow_fn ≡ ok fn
      → convert_inputs convert_to_type task.input fn.params ≡ arguments args
      → (run rt [] (fn.body args) c).0 ≡ ran
      → Runs convert_to_type rt registry task c (told ran)

-- How a workflow task leaves the recorded events, `before` being those recorded before it ended:
-- nothing more if the workflow waits; else one last event, which tells its results or its error. The
-- returned error is the one of that event.
pub data Ends (Ran_as : Executed → Type 0) (task : WorkflowTask) (before : List WorkflowEvent)
    (out : Option String × WorkflowState) : Type 0 where
  waits : Ran_as suspended → out.0 ≡ none → out.1.uncommitted ≡ before → Ends Ran_as task before out
  completes :
      (vs : List Any)
      → Ran_as (finished vs)
      → out.0 ≡ none
      → out.1.uncommitted ≡ before ++ completed_event task vs ∷ []
      → Ends Ran_as task before out
  fails :
      (m : String)
      → Ran_as (failing m) ⊎ Ran_as (crashed m)
      → out.0 ≡ some m
      → out.1.uncommitted ≡ before ++ failed_event task m ∷ []
      → Ends Ran_as task before out

module _ {rt : Runtime} (law : RecordsEvents rt) (task : WorkflowTask) where
  conclude-Ends :
      (Ran_as : Executed → Type 0) (x : Executed) (c : WorkflowState)
      → Ran_as x
      → Ends Ran_as task c.uncommitted (conclude rt task (x, c))
  unfolding conclude
  conclude-Ends Ran_as (finished vs) c h =
      completes vs h refl (uncommitted-record_that law (completed_event task vs) c)
  conclude-Ends Ran_as (failing m) c h =
      fails m (inl h) refl (uncommitted-record_that law (failed_event task m) c)
  conclude-Ends Ran_as suspended c h = waits h refl refl
  conclude-Ends Ran_as (crashed m) c h =
      fails m (inr h) refl (uncommitted-record_that law (failed_event task m) c)

  executed_of-state : (r : Ran) (c : WorkflowState) → (executed_of (r, c)).1 ≡ c
  executed_of-state (returned vs) c = refl
  executed_of-state blocked c = refl
  executed_of-state (panicked m) c = refl

  module _ (convert_to_type : Any → String → Result Any) where
    call_workflow-Schedules :
        (fn : WorkflowFn) (x : Converted) (c : WorkflowState)
        → Schedules c (call_workflow convert_to_type rt fn x c).1
    unfolding call_workflow
    call_workflow-Schedules fn (arguments vs) c =
        let out = run rt [] (fn.body vs) c in
        rw (executed_of-state out.0 out.1) (run-Schedules law [] (fn.body vs) c)
    call_workflow-Schedules fn (failed m) c = Schedules-refl c
    call_workflow-Schedules fn (panicking m) c = Schedules-refl c

    execute_workflow-Schedules :
        (registry : Dict WorkflowFn) (c : WorkflowState)
        → Schedules c (execute_workflow convert_to_type rt registry task c).1
    unfolding execute_workflow
    execute_workflow-Schedules registry c =
        elim (Result-cases (registry_get registry task.workflow_fn)) [
          | inl (fn, e) ↦
              rw (e, execute_workflow)
                (call_workflow-Schedules fn (convert_inputs convert_to_type task.input fn.params) c)
          | inr (m, e) ↦ rw (e, execute_workflow) (Schedules-refl c)
        ]

    module _ (registry : Dict WorkflowFn) (c : WorkflowState) where
      executed_of-told : (r : Ran) (d : WorkflowState) → (executed_of (r, d)).0 ≡ told r
      executed_of-told (returned vs) d = refl
      executed_of-told blocked d = refl
      executed_of-told (panicked m) d = refl

      call_workflow-Runs :
          (fn : WorkflowFn) (x : Converted)
          → registry_get registry task.workflow_fn ≡ ok fn
          → convert_inputs convert_to_type task.input fn.params ≡ x
          → Runs convert_to_type rt registry task c (call_workflow convert_to_type rt fn x c).0
      unfolding call_workflow
      call_workflow-Runs fn (arguments vs) h e =
          let out = run rt [] (fn.body vs) c in
          rw (executed_of-told out.0 out.1) (called fn vs out.0 h e refl)
      call_workflow-Runs fn (failed m) h e = unconverted fn m h e
      call_workflow-Runs fn (panicking m) h e = mistyped_inputs fn m h e

      execute_workflow-Runs :
          Runs convert_to_type rt registry task c
            (execute_workflow convert_to_type rt registry task c).0
      unfolding execute_workflow
      execute_workflow-Runs = elim (Result-cases (registry_get registry task.workflow_fn)) [
        | inl (fn, e) ↦
            rw (e, execute_workflow)
              (call_workflow-Runs fn (convert_inputs convert_to_type task.input fn.params) e refl)
        | inr (m, e) ↦ rw (e, execute_workflow) (unregistered m e)
      ]

    -- A workflow task records some `ActivityScheduled` events and then at most one more: none, and no
    -- error, if the run of the registered function on the converted inputs waits for an activity;
    -- `WorkflowCompleted` with the results if that run returned; and `WorkflowFailed` with the error
    -- that is returned, in every other case: no such function, inputs that do not convert, or a panic.
    pub process_workflow_task-Ends :
        (registry : Dict WorkflowFn) (c : WorkflowState)
        → (es : List WorkflowEvent) × Each IsScheduling es
          × Ends
              (Runs convert_to_type rt registry task c)
              task
              (c.uncommitted ++ es)
              (process_workflow_task convert_to_type rt registry task c)
    unfolding process_workflow_task
    process_workflow_task-Ends registry c =
        let s = execute_workflow-Schedules registry c in
        let (x, d) = execute_workflow convert_to_type rt registry task c in
        (
          s.events,
          s.only,
          subst
              (λ b. Ends (Runs convert_to_type rt registry task c) task b (conclude rt task (x, d)))
              s.recorded
              (conclude-Ends (Runs convert_to_type rt registry task c) x d
                (execute_workflow-Runs registry c)),
        )
