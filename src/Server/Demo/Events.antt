-- ===== src/Server/Demo/Events.antt =====
-- What `handleEvent` of internal/server/handler/http/demo_watcher.go keeps of the workflows' states.
use durablefuture.Prelude.{
  some-injective, subst, ℕ, ◌≡◌, ◌≢◌, refl, String, List, [], ◌∷◌, some, Option-cases, Bool-cases,
  true, inl, inr, Result, Result-cases, ok, err, arith, contains, ◌==◌, Each, if◌then◌else◌,
}
use durablefuture.Prelude.Dict.{Dict, lookup, insert, lookup-insert_other}
use durablefuture.Prelude.Int.{ℤ}
use durablefuture.Api.Events.{ActivityScheduled}
use durablefuture.Server.Demo.{
  WorkflowState, EventMsg, DemoSerde, find_or_create_step, run_step, complete_step, fail_step,
  retry_step, on_scheduled, on_completed, decoded, handle_typed, handle_known, handle_event,
}
use durablefuture.Server.Demo.Steps.{
  statuses, WellFormed, run_step-Keeps, complete_step-Keeps, fail_step-Keeps, retry_step-Keeps,
  update-Each, update-Distinct, length-update, update_named-WellFormed, find_or_create_step-Stepped,
}

on_scheduled-WellFormed :
    (now : ℤ) (e : ActivityScheduled) (state : WorkflowState)
    → WellFormed state
    → WellFormed (on_scheduled now e state)
on_scheduled-WellFormed now e state h =
    let s = find_or_create_step-Stepped e.activity_fn_name state h in
    let (i, steps) = find_or_create_step e.activity_fn_name state.step_details in
    record {
      known = h.known;
      current =
          rw (length-update (run_step now) (run_step-Keeps now) i steps) (omega (arith, s.lt));
      sound = update-Each (run_step now) (run_step-Keeps now) i steps s.sound;
      distinct = update-Distinct (run_step now) (run_step-Keeps now) i steps s.distinct;
    }

-- A change that touches no step, to a known status.
restatus :
    (state state' : WorkflowState)
    → contains statuses state'.status ≡ true
    → state'.current_step ≡ state.current_step
    → state'.step_details ≡ state.step_details
    → WellFormed state
    → WellFormed state'
restatus state state' known current details h = record {
  known = known;
  current = rw (current, details) h.current;
  sound = rw details h.sound;
  distinct = rw details h.distinct;
}

decoded-WellFormed :
    {E : Type 0} (r : Result E) (f : E → WorkflowState → WorkflowState) (state : WorkflowState)
    → ((e : E) → WellFormed state → WellFormed (f e state))
    → WellFormed state
    → WellFormed (decoded r f state)
decoded-WellFormed (ok e) f state step h = step e h
decoded-WellFormed (err m) f state step h = h

abbrev pub AllWellFormed : Dict WorkflowState → Type 0
AllWellFormed states = Each (λ entry. WellFormed entry.1) states

pub lookup-WellFormed :
    (id : String) (states : Dict WorkflowState) (state : WorkflowState)
    → AllWellFormed states
    → lookup id states ≡ some state
    → WellFormed state
unfolding lookup
lookup-WellFormed id [] state h e = ground (arith, e)
lookup-WellFormed id ((name, held) ∷ entries) state h e = elim (Bool-cases (name == id)) [
  | inl t ↦ subst WellFormed (some-injective (rw t at e)) h.0
  | inr f ↦ lookup-WellFormed id entries state h.1 (rw f at e)
]

pub insert-WellFormed :
    (id : String) (state : WorkflowState) (states : Dict WorkflowState)
    → WellFormed state
    → AllWellFormed states
    → AllWellFormed (insert id state states)
unfolding insert
insert-WellFormed id state [] w h = (w, tt)
insert-WellFormed id state ((name, held) ∷ entries) w h = elim (Bool-cases (name == id)) [
  | inl t ↦ rw t (w, h.1)
  | inr f ↦ rw f (h.0, insert-WellFormed id state entries w h.1)
]

module _ (serde : DemoSerde) (now : ℤ) where
  if-WellFormed :
      (type name : String) {x y : WorkflowState}
      → WellFormed x
      → WellFormed y
      → WellFormed (if type == name then x else y)
  if-WellFormed type name {x} {y} hx hy = elim (Bool-cases (type == name)) [
    | inl e ↦ rw e hx
    | inr e ↦ rw e hy
  ]

  handle_typed-WellFormed :
      (type : String) (payload : List ℕ) (state : WorkflowState)
      → WellFormed state
      → WellFormed (handle_typed serde now type payload state)
  unfolding handle_typed
  handle_typed-WellFormed type payload state h =
      if-WellFormed type "workflow/started" (restatus state _ refl refl refl h) (
        if-WellFormed type "activity/scheduled"
          (decoded-WellFormed (serde.scheduled payload) (on_scheduled now) state
            (λ e. on_scheduled-WellFormed now e state) h)
          (if-WellFormed type "activity/completed"
            (decoded-WellFormed (serde.completed payload) _ state
              (λ e.
                update_named-WellFormed (complete_step now) (complete_step-Keeps now)
                  e.activity_fn_name state)
              h)
            (if-WellFormed type "activity/failed"
              (decoded-WellFormed (serde.failed payload) _ state
                (λ e.
                  update_named-WellFormed (fail_step e) (fail_step-Keeps e) e.activity_fn_name
                    state)
                h)
              (if-WellFormed type "activity/retried"
                (decoded-WellFormed (serde.retried payload) _ state
                  (λ e.
                    update_named-WellFormed (retry_step now e) (retry_step-Keeps now e)
                      e.activity_fn_name state)
                  h)
                (if-WellFormed type "workflow/completed"
                  (decoded-WellFormed (serde.workflow_completed payload) (on_completed serde now)
                    state (λ e. restatus state _ refl refl refl) h)
                  (if-WellFormed type "workflow/failed"
                    (decoded-WellFormed (serde.workflow_failed payload) _ state
                      (λ e. restatus state _ refl refl refl) h)
                    h))))))

  handle_known-WellFormed :
      (id : String) (msg : EventMsg) (states : Dict WorkflowState)
      → AllWellFormed states
      → AllWellFormed (handle_known serde now id msg states)
  unfolding handle_known
  handle_known-WellFormed id msg states h = elim (Option-cases (lookup id states)) [
    | inl e ↦ rw (e, handle_known) h
    | inr (state, e) ↦
        rw (e, handle_known)
          (insert-WellFormed id _ states
            (handle_typed-WellFormed msg.event_header msg.payload state
              (lookup-WellFormed id states state h e))
            h)
  ]

  -- No event breaks a workflow's state on the demo page: its status and those of its steps are among
  -- the four that the page knows, no two steps have one name, the current step is one of the steps,
  -- and a step with retries counts at least one attempt more than it has retries.
  pub handle_event-WellFormed :
      (msg : EventMsg) (states : Dict WorkflowState)
      → AllWellFormed states
      → AllWellFormed (handle_event serde now msg states)
  unfolding handle_event
  handle_event-WellFormed msg states h = elim (Bool-cases (msg.event_header == "")) [
    | inl t ↦ rw t h
    | inr f ↦ elim (Result-cases (serde.base_id msg.payload)) [
      | inr (m, e) ↦ rw (f, handle_event, e) h
      | inl (id, e) ↦ rw (f, handle_event, e) (handle_known-WellFormed id msg states h)
    ]
  ]

  -- An event changes no state but the one of its own workflow.
  pub handle_event-others :
      (msg : EventMsg) (states : Dict WorkflowState) (id other : String)
      → serde.base_id msg.payload ≡ ok id
      → id ≢ other
      → lookup other (handle_event serde now msg states) ≡ lookup other states
  unfolding handle_event handle_known
  handle_event-others msg states id other e ne = elim (Bool-cases (msg.event_header == "")) [
    | inl t ↦ rw t refl
    | inr f ↦ elim (Option-cases (lookup id states)) [
      | inl n ↦ rw (f, e, n, handle_known) refl
      | inr (state, s) ↦
          rw (f, e, s, handle_known)
            (lookup-insert_other id other _ states (lookup other states) ne refl)
    ]
  ]
