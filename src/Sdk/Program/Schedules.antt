-- ===== src/Sdk/Program/Schedules.antt =====
-- A run schedules the calls that the history has no result for, and no others.
use durablefuture.Prelude.{
  ◌⊎◌, ◌-◌, ◌≤◌, ◌≡◌, ◌≢◌, refl, ap, String, List, [], ◌∷◌, ◌++◌, Option-cases, inl, inr, ok, err,
  arith, length, get_elem?,
}
use durablefuture.Api.Events.{WorkflowEvent}
use durablefuture.Sdk.State.{ActivityReplay, WorkflowState, new_empty_workflow_context, load}
use durablefuture.Sdk.State.Replays.{replay_of, completions, replay_of-load, uncommitted-load_from}
use durablefuture.Sdk.Future.{Blocking, Signal, value, blocking_future, panic, get}
use durablefuture.Sdk.Activity.{Runtime, RecordsEvents, execute_activity}
use durablefuture.Sdk.Activity.Effects.{execute_activity-Called, execute_activity-err}
use durablefuture.Sdk.Activity.Counts.{
  NoPanic, scheduled_count, overshoot, Ledger, Called-Ledger, Ledger-refl, Ledger-trans,
}
use durablefuture.Sdk.Program.{
  Program, returns, panics, execute, await, Ran, returned, blocked, panicked, resume, run,
}

abbrev pub NotPanicked : Ran → Type 0
NotPanicked r = (m : String) → r ≢ panicked m

panicked_or_not : (r : Ran) → ((m : String) × (r ≡ panicked m)) ⊎ NotPanicked r
panicked_or_not (returned vs) = inr (λ m e. ground (arith, e))
panicked_or_not blocked = inr (λ m e. ground (arith, e))
panicked_or_not (panicked m) = inl (m, refl)

module _ {ℓ} {A : Type ℓ} (j : String) where
  resume-Ledger :
      (s : Signal A) (c d : WorkflowState) (k : A → Ran × WorkflowState)
      → Ledger (NoPanic s) j c d
      → ((a : A) → Ledger (NotPanicked (k a).0) j d (k a).1)
      → Ledger (NotPanicked (resume s d k).0) j c (resume s d k).1
  resume-Ledger (value a) c d k h rest = Ledger-trans (λ _. tt) (λ x. x) h (rest a)
  resume-Ledger blocking_future c d k h rest = Ledger-trans (λ _. tt) (λ x. x) h (Ledger-refl j d)
  resume-Ledger (panic m) c d k h rest = Ledger-trans (λ x. x m refl) (λ x. x) h (Ledger-refl j d)

module _ {rt : Runtime} (law : RecordsEvents rt) (j : String) where
  run-Ledger :
      (futures : List Blocking) (p : Program) (c : WorkflowState)
      → let out = run rt futures p c in Ledger (NotPanicked out.0) j c out.1
  unfolding run
  run-Ledger futures (returns vs) c = Ledger-refl j c
  run-Ledger futures (panics m) c = Ledger-refl j c
  run-Ledger futures (execute o (err m) args p) c =
      rw (execute_activity-err rt o m args c) (Ledger-refl j c)
  run-Ledger futures (execute o (ok fn_name) args p) c =
      let out = execute_activity rt o (ok fn_name) args c in
      resume-Ledger j out.0 c out.1 (λ f. run rt (futures ++ f ∷ []) p out.1)
        (Called-Ledger j (execute_activity-Called law fn_name args c o))
        (λ f. run-Ledger (futures ++ f ∷ []) p out.1)
  run-Ledger futures (await i target k) c = elim (Option-cases (get_elem? futures i)) [
    | inl e ↦ rw (e, run) (Ledger-refl j c)
    | inr (f, e) ↦
        rw (e, run)
          (resume-Ledger j (get rt.format rt.converter f target) c c (λ r. run rt futures (k r) c)
            (Ledger-refl j c) (λ r. run-Ledger futures (k r) c))
  ]

  -- Over a history, a run from its loaded state records an `ActivityScheduled` of a function at most
  -- as often as its calls of the function go beyond the completions of the history, and exactly as
  -- often unless the workflow code panics.
  pub run-schedules_incomplete :
      (p : Program) (es : List WorkflowEvent)
      → let out = run rt [] p (load es) in
        let calls = (replay_of j out.1).consumed in
        let results = length (completions j es) in
        (scheduled_count j out.1.uncommitted ≤ calls - results)
        × (((m : String) × (out.0 ≡ panicked m))
            ⊎ (scheduled_count j out.1.uncommitted ≡ calls - results))
  unfolding scheduled_count
  run-schedules_incomplete p es =
      let h = run-Ledger [] p (load es) in
      let start = replay_of-load j es in
      let counted = ap (scheduled_count j) (uncommitted-load_from new_empty_workflow_context es) in
      let done = ap (λ (r : ActivityReplay). length r.history) start in
      (
        omega (arith, h.at_most, ap overshoot start, counted, ap length h.history, done),
        elim (panicked_or_not (run rt [] p (load es)).0) [
          | inl e ↦ inl e
          | inr calm ↦
              inr (
                omega (arith, h.exact calm, ap overshoot start, counted, ap length h.history, done))
        ],
      )
