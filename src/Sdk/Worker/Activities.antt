-- ===== src/Sdk/Worker/Activities.antt =====
-- What `processActivityTask` adds to the history of the activity's workflow.
use durablefuture.Prelude.{
  ◌≡◌, refl, String, List, [], ◌∷◌, ◌++◌, Option, none, some, Option-cases, Bool-cases, true, false,
  ◌||◌, inl, inr, Result, Result-cases, ok, err, arith, contains,
}
use durablefuture.Prelude.Dict.{Dict}
use durablefuture.Prelude.Int.{ℤ, pos, leb_ℤ, ltb_ℤ}
use durablefuture.Api.Values.{Any, FloatOps}
use durablefuture.Api.Tasks.{ActivityTask, RetryPolicy}
use durablefuture.Api.Events.{WorkflowEvent, activity_completed, activity_retried}
use durablefuture.Sdk.State.{WorkflowState}
use durablefuture.Sdk.Activity.{Runtime, RecordsEvents}
use durablefuture.Sdk.Registry.{registry_get}
use durablefuture.Sdk.Retry.{would_exceed, evaluate_retry_decision, evaluate_retry_decision_iff}
use durablefuture.Sdk.Worker.{
  ActivityFn, execute_activity_func, retried_event, activity_failed_event, activity_event,
  process_activity_task,
}
use durablefuture.Sdk.Worker.Events.{uncommitted-record_that}

module _ (fl : FloatOps) (now_ms : ℤ) (task : ActivityTask) where
  -- The task's policy allows one more attempt after the error.
  abbrev pub Allows : String → Type 0
  Allows m =
      (policy : RetryPolicy) × (task.retry_policy ≡ some policy)
      × ((leb_ℤ policy.maximum_attempts (pos 0) || ltb_ℤ task.attempt policy.maximum_attempts)
          ≡ true)
      × (contains policy.non_retryable_error_types m ≡ false)
      × (would_exceed fl now_ms task ≡ false)

  -- The event of an execution, by what the activity function returned.
  pub data Ended (r : Result (List Any)) : WorkflowEvent → Type 0 where
    succeeded :
        (vs : List Any)
        → r ≡ ok vs
        → Ended r (
            activity_completed (record {
              id = task.workflow_id;
              workflow_fn_name = task.workflow_fn;
              activity_fn_name = task.activity_fn;
              result = some vs;
            }))
    to_retry :
        (m : String) → r ≡ err m → Allows m → Ended r (activity_retried (retried_event fl task m))
    given_up : (m : String) → r ≡ err m → ¬ Allows m → Ended r (activity_failed_event task m)

  allowed : (m : String) → Allows m → evaluate_retry_decision fl now_ms task m ≡ true
  allowed m (policy, h, attempts, listed, timeout) =
      let p = (evaluate_retry_decision_iff fl now_ms task m policy h).0 in ground (arith, p)

  allows : (m : String) → evaluate_retry_decision fl now_ms task m ≡ true → Allows m
  unfolding evaluate_retry_decision
  allows m e = elim (Option-cases task.retry_policy) [
    | inl h ↦ let p = rw (h, evaluate_retry_decision) at e in ground (arith, p)
    | inr (policy, h) ↦
        let p = (evaluate_retry_decision_iff fl now_ms task m policy h).0 in
        (policy, h, ground (arith, p, e), ground (arith, p, e), ground (arith, p, e))
  ]

  activity_event-Ended : (r : Result (List Any)) → Ended r (activity_event fl now_ms task r)
  unfolding activity_event
  activity_event-Ended (ok vs) = succeeded vs refl
  activity_event-Ended (err m) = elim (Bool-cases (evaluate_retry_decision fl now_ms task m)) [
    | inl e ↦ rw e (to_retry m refl (allows m e))
    | inr e ↦ rw e (given_up m refl (λ a. let p = allowed m a in ground (arith, p, e)))
  ]

-- How an activity task leaves its workflow's events: with one more, or, if its function is not
-- registered, with an error and none.
pub data Recorded (convert_to_type : Any → String → Result Any) (fl : FloatOps) (now_ms : ℤ)
    (registry : Dict ActivityFn) (task : ActivityTask) (c : WorkflowState)
    (out : Option String × WorkflowState) : Type 0 where
  unregistered :
      (m : String)
      → registry_get registry task.activity_fn ≡ err m
      → out ≡ (some m, c)
      → Recorded convert_to_type fl now_ms registry task c out
  recorded :
      (fn : ActivityFn) (e : WorkflowEvent)
      → registry_get registry task.activity_fn ≡ ok fn
      → Ended fl now_ms task (execute_activity_func convert_to_type fn task.input) e
      → out.0 ≡ none
      → out.1.uncommitted ≡ c.uncommitted ++ e ∷ []
      → Recorded convert_to_type fl now_ms registry task c out

-- An activity task of a registered function records exactly one event: `ActivityCompleted` with the
-- results if there is no error; else `ActivityRetried` if the policy allows one more attempt after
-- that error, and `ActivityFailed` if it does not. A task of any other function records none and
-- returns the error.
pub process_activity_task-Recorded :
    {rt : Runtime} (law : RecordsEvents rt) (convert_to_type : Any → String → Result Any)
    (fl : FloatOps) (now_ms : ℤ) (registry : Dict ActivityFn) (task : ActivityTask)
    (c : WorkflowState)
    → Recorded convert_to_type fl now_ms registry task c
        (process_activity_task convert_to_type rt fl now_ms registry task c)
unfolding process_activity_task
process_activity_task-Recorded {rt} law convert_to_type fl now_ms registry task c =
    elim (Result-cases (registry_get registry task.activity_fn)) [
      | inr (m, e) ↦ unregistered m e (rw (e, process_activity_task) refl)
      | inl (fn, e) ↦
          let r = execute_activity_func convert_to_type fn task.input in
          recorded fn (activity_event fl now_ms task r) e (activity_event-Ended fl now_ms task r)
            (rw (e, process_activity_task) refl)
            (rw (e, process_activity_task)
              (uncommitted-record_that law (activity_event fl now_ms task r) c))
    ]
