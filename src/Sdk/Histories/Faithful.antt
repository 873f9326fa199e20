-- ===== src/Sdk/Histories/Faithful.antt =====
-- What a history tells of its workflow's end is what the workflow's code does.
use durablefuture.Prelude.{
  ℕ, ◌≡◌, refl, sym, ap, subst, ◌∙◌, String, List, [], ◌∷◌, ◌++◌, Option-cases, ◌⊎◌, inl, inr,
  Result, ok, err, arith, Each, Each-append, get_elem?,
}
use durablefuture.Prelude.Dict.{Dict}
use durablefuture.Prelude.Int.{ℤ}
use durablefuture.Api.Values.{Any, FloatOps}
use durablefuture.Api.Tasks.{WorkflowTask, ActivityTask}
use durablefuture.Api.Events.{WorkflowEvent, workflow_started, activity_scheduled}
use durablefuture.Sdk.State.{WorkflowState, load, new_empty_workflow_context}
use durablefuture.Sdk.State.Replays.{uncommitted-load_from}
use durablefuture.Sdk.Future.{Blocking, get}
use durablefuture.Sdk.Activity.{Runtime, RecordsEvents, resolved}
use durablefuture.Sdk.Registry.{registry_get}
use durablefuture.Sdk.Program.{
  Program, returns, panics, execute, await, Ran, returned, blocked, panicked, run,
}
use durablefuture.Sdk.Program.Recovery.{SameCodec}
use durablefuture.Sdk.Program.Direct.{
  Outcomes, direct, Refines, wrong_options, run-Refines, counted, Signal-cases,
}
use durablefuture.Sdk.Worker.{
  WorkflowFn, ActivityFn, arguments, convert_inputs, call_workflow, execute_workflow, executed_of,
  conclude, process_workflow_task, process_activity_task, workflow_panic, failed_event,
  completed_event,
}
use durablefuture.Sdk.Worker.Events.{IsScheduling, run-Schedules, uncommitted-record_that}
use durablefuture.Sdk.Worker.Activities.{
  Ended, succeeded, to_retry, given_up, unregistered, recorded, process_activity_task-Recorded,
}
use durablefuture.Sdk.Histories.{
  Stored, EventCodec, read_all, after_workflow_task, after_activity_task, workflow_step,
  activity_step, Reach, start, next,
}
use durablefuture.Sdk.Histories.Saves.{Faithful, StoredFaithful, Agrees, saved-StoredFaithful}

IsScheduling-Faithful :
    (ideal : Ran) (es : List WorkflowEvent) → Each IsScheduling es → Each (Faithful ideal) es
IsScheduling-Faithful ideal [] h = tt
IsScheduling-Faithful ideal (activity_scheduled e ∷ es) h = (tt, IsScheduling-Faithful ideal es h.1)
IsScheduling-Faithful ideal (_ ∷ es) h = absurd h.0

-- The direct execution depends on the codec only.
direct-SameCodec :
    {rt rt' : Runtime} (same : SameCodec rt rt') (outcomes : Outcomes) (made : String → ℕ)
    (fs : List Blocking) (p : Program)
    → direct rt' outcomes made fs p ≡ direct rt outcomes made fs p
unfolding direct
direct-SameCodec same outcomes made fs (returns vs) = refl
direct-SameCodec same outcomes made fs (panics m) = refl
direct-SameCodec same outcomes made fs (execute o (err m) args p) = refl
direct-SameCodec same outcomes made fs (execute o (ok fn_name) args p) =
    direct-SameCodec same outcomes (counted fn_name made)
      (fs ++ resolved (outcomes fn_name (made fn_name)) ∷ []) p
direct-SameCodec {rt} {rt'} same outcomes made fs (await i target k) =
    elim (Option-cases (get_elem? fs i)) [
      | inl e ↦ rw (e, direct) refl
      | inr (f, e) ↦
          rw (e, direct, same.converter, same.format)
            (elim (Signal-cases (get rt.format rt.converter f target)) [
              | inl (r, s) ↦ rw s (direct-SameCodec same outcomes made fs (k r))
              | inr (inl s) ↦ rw s refl
              | inr (inr (m, s)) ↦ rw s refl
            ])
    ]

is_returned : {ideal : Ran} (vs : List Any) → Refines (returned vs) ideal → ideal ≡ returned vs
is_returned vs (inl e) = ground (arith, e)
is_returned vs (inr (inl e)) = sym e
is_returned vs (inr (inr e)) = ground (arith, e)

is_panicked :
    {ideal : Ran} (m : String)
    → Refines (panicked m) ideal
    → (ideal ≡ panicked m) ⊎ (m ≡ wrong_options)
is_panicked m (inl e) = ground (arith, e)
is_panicked m (inr (inl e)) = inl (sym e)
is_panicked m (inr (inr e)) = inr (ground (arith, e))

module _ {rt : Runtime} (law : RecordsEvents rt) (task : WorkflowTask) (ideal : Ran) where
  conclude-Faithful :
      (ran : Ran) (c : WorkflowState)
      → Refines ran ideal
      → Each (Faithful ideal) c.uncommitted
      → Each (Faithful ideal) (conclude rt task (executed_of (ran, c))).1.uncommitted
  unfolding conclude
  conclude-Faithful (returned vs) c r h =
      rw (uncommitted-record_that law (completed_event task vs) c) (
        Each-append (Faithful ideal) c.uncommitted (completed_event task vs ∷ []) h
          ((vs, refl, is_returned vs r), tt))
  conclude-Faithful blocked c r h = h
  conclude-Faithful (panicked m) c r h =
      rw (uncommitted-record_that law (failed_event task (workflow_panic m)) c) (
        Each-append (Faithful ideal) c.uncommitted (failed_event task (workflow_panic m) ∷ []) h
          ((m, refl, is_panicked m r), tt))

uncommitted-load : (es : List WorkflowEvent) → (load es).uncommitted ≡ []
uncommitted-load es = uncommitted-load_from new_empty_workflow_context es

module _ (codec : EventCodec) (convert_to_type : Any → String → Result Any) (workers : ℕ → Runtime)
    (fl : FloatOps) (workflows : Dict WorkflowFn) (activities : Dict ActivityFn)
    (task : WorkflowTask) (rt : Runtime) (laws : (w : ℕ) → RecordsEvents (workers w))
    (same : (w : ℕ) → SameCodec rt (workers w)) (fn : WorkflowFn) (args : List Any)
    (registered : registry_get workflows task.workflow_fn ≡ ok fn)
    (converted : convert_inputs convert_to_type task.input fn.params ≡ arguments args)
    (outcomes : Outcomes) where
  abbrev ideal : Ran
  ideal = direct rt outcomes (λ j. 0) [] (fn.body args)

  workflow_task-Faithful :
      (w : ℕ) (es : List WorkflowEvent)
      → Agrees outcomes es
      → Each
          (Faithful ideal)
          (process_workflow_task convert_to_type (workers w) workflows task (load es)).1.uncommitted
  unfolding process_workflow_task execute_workflow call_workflow
  workflow_task-Faithful w es agree =
      let scheduled = run-Schedules (laws w) [] (fn.body args) (load es) in
      let out = run (workers w) [] (fn.body args) (load es) in
      let events : scheduled.events ≡ out.1.uncommitted =
        sym (scheduled.recorded ∙ ap (λ us. us ++ scheduled.events) (uncommitted-load es)) in
      rw (registered, execute_workflow, converted, call_workflow)
        (conclude-Faithful (laws w) task ideal out.0 out.1
          (subst (Refines out.0) (direct-SameCodec (same w) outcomes (λ j. 0) [] (fn.body args))
            (run-Refines (laws w) outcomes (fn.body args) es agree))
          (subst (Each (Faithful ideal)) events
            (IsScheduling-Faithful ideal scheduled.events scheduled.only)))

  Ended-Faithful :
      {now_ms : ℤ} {activity : ActivityTask} {r : Result (List Any)} {e : WorkflowEvent}
      → Ended fl now_ms activity r e
      → Faithful ideal e
  Ended-Faithful (succeeded vs h) = tt
  Ended-Faithful (to_retry m h a) = tt
  Ended-Faithful (given_up m h a) = tt

  activity_task-Faithful :
      (w : ℕ) (now_ms : ℤ) (activity : ActivityTask) (es : List WorkflowEvent)
      → Each
          (Faithful ideal)
          (process_activity_task convert_to_type
            (workers w)
            fl
            now_ms
            activities
            activity
            (load es)).1.uncommitted
  activity_task-Faithful w now_ms activity es =
      elim (process_activity_task-Recorded (laws w) convert_to_type fl now_ms activities activity
        (load es)) [
          | unregistered m h e ↦ rw e (rw (uncommitted-load es) tt)
          | recorded f e h ended none_left e' ↦
              rw e' (rw (uncommitted-load es) (Ended-Faithful ended, tt))
        ]

  -- Durable execution: what a stored history says of its workflow's end is what the code does. Let
  -- workers that record events as chronicle documents, and have one converter, run a workflow's tasks
  -- and its activities' in any order, each on the history as the event serializer reads it and with
  -- its events stored as that serializer writes them, on a registered function whose inputs convert.
  -- Let the whole history be read, and its completions, as they are read, be the outcomes of the
  -- activities. Then every stored event was written of one that, if it is `WorkflowCompleted`, has the
  -- values that the direct execution returns, and, if it is `WorkflowFailed`, the panic in which it
  -- ends, or that of a context whose options have another type. What is written need not be read
  -- back as it was.
  pub Reach-Faithful :
      (rs : List Stored) (es : List WorkflowEvent)
      → Reach codec convert_to_type workers fl workflows activities task rs
      → read_all codec rs ≡ ok es
      → Agrees outcomes es
      → Each (StoredFaithful codec (direct rt outcomes (λ j. 0) [] (fn.body args))) rs
  unfolding after_workflow_task after_activity_task
  Reach-Faithful rs es (start e r h) read agree = ((workflow_started e, h, tt), tt)
  Reach-Faithful rs' es (next {rs} r (workflow_step w _)) read agree =
      saved-StoredFaithful codec ideal outcomes _ rs (workflow_task-Faithful w)
        (λ before. Reach-Faithful rs before r) es read agree
  Reach-Faithful rs' es (next {rs} r (activity_step w now_ms activity _)) read agree =
      saved-StoredFaithful codec ideal outcomes _ rs
        (λ before h. activity_task-Faithful w now_ms activity before)
        (λ before. Reach-Faithful rs before r) es read agree
