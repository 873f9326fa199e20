-- ===== src/Sdk/Program/Informational.antt =====
-- A run sees nothing of its history but the completions: not even what is scheduled already.
use durablefuture.Prelude.{
  ◌≡◌, refl, String, List, [], ◌∷◌, ◌++◌, Option-cases, inl, inr, ok, err, arith, get_elem?,
}
use durablefuture.Api.Values.{Any}
use durablefuture.Api.Events.{
  WorkflowEvent, activity_scheduled, activity_started, activity_retried, event_id, event_workflow,
}
use durablefuture.Sdk.State.{WorkflowState, applied, load_from, load, new_empty_workflow_context}
use durablefuture.Sdk.State.Replays.{completion}
use durablefuture.Sdk.State.Same.{
  SameReplays, SameReplays-load_from, SameReplays-applied_self, load_from-append,
}
use durablefuture.Sdk.Future.{Blocking, Signal, value, blocking_future, panic, get}
use durablefuture.Sdk.Activity.{Runtime, RecordsEvents, OptionsValue, execute_activity}
use durablefuture.Sdk.Activity.Effects.{
  Called, next_record, fresh-SameBase, execute_activity-Called, execute_activity-err,
}
use durablefuture.Sdk.Program.{Program, returns, panics, execute, await, Ran, resume, run}

-- Two runs that end alike, with the same events recorded.
pub record SameRun (out out' : Ran × WorkflowState) : Type 0 where
  pub outcome : out'.0 ≡ out.0
  pub state : SameReplays out.1 out'.1

next_record-SameReplays :
    (fn_name : String) {c d : WorkflowState}
    → SameReplays c d
    → next_record fn_name d ≡ next_record fn_name c
unfolding next_record
next_record-SameReplays fn_name s = rw (s.replays fn_name)

module _ {ℓ} {A : Type ℓ} where
  SameRun-resume :
      (s : Signal A) (c d : WorkflowState) (k k' : A → Ran × WorkflowState)
      → SameReplays c d
      → ((a : A) → SameRun (k a) (k' a))
      → SameRun (resume s c k) (resume s d k')
  SameRun-resume (value a) c d k k' s h = h a
  SameRun-resume blocking_future c d k k' s h = record { outcome = refl; state = s }
  SameRun-resume (panic m) c d k k' s h = record { outcome = refl; state = s }

module _ {rt : Runtime} {o : OptionsValue} {fn_name : String} {args : List Any}
    {c d : WorkflowState} {out out' : Signal Blocking × WorkflowState}
    (called : Called rt o fn_name args c out) (called' : Called rt o fn_name args d out')
    (s : SameReplays c d) where
  SameReplays-Called : (out'.0 ≡ out.0) × SameReplays out.1 out'.1
  SameReplays-Called = (
    ground (arith, called.answered, called'.answered, next_record-SameReplays fn_name s),
    record {
      base = record {
        id = ground (arith, called.same_id, called'.same_id, s.base.id);
        name = ground (arith, called.same_name, called'.same_name, s.base.name);
        uncommitted = ground (
          arith,
          called.recorded,
          called'.recorded,
          s.base.uncommitted,
          next_record-SameReplays fn_name s,
          fresh-SameBase rt o fn_name args (next_record fn_name c) s.base,
        );
      };
      replays =
          λ j. ground (arith, called.replays j, called'.replays j, s.replays j, s.replays fn_name);
    },
  )

module _ {rt : Runtime} (law : RecordsEvents rt) where
  run-SameReplays :
      (fs : List Blocking) (p : Program) (c d : WorkflowState)
      → SameReplays c d
      → SameRun (run rt fs p c) (run rt fs p d)
  unfolding run
  run-SameReplays fs (returns vs) c d s = record { outcome = refl; state = s }
  run-SameReplays fs (panics m) c d s = record { outcome = refl; state = s }
  run-SameReplays fs (execute o (err m) args p) c d s =
      rw (execute_activity-err rt o m args c)
        (rw (execute_activity-err rt o m args d) (record { outcome = refl; state = s }))
  run-SameReplays fs (execute o (ok fn_name) args p) c d s =
      let out = execute_activity rt o (ok fn_name) args c in
      let out' = execute_activity rt o (ok fn_name) args d in
      let (e, s') =
        SameReplays-Called (execute_activity-Called law fn_name args c o)
          (execute_activity-Called law fn_name args d o) s in
      rw e (
        SameRun-resume out.0 out.1 out'.1 (λ f. run rt (fs ++ f ∷ []) p out.1)
          (λ f. run rt (fs ++ f ∷ []) p out'.1) s'
          (λ f. run-SameReplays (fs ++ f ∷ []) p out.1 out'.1 s'))
  run-SameReplays fs (await i target k) c d s = elim (Option-cases (get_elem? fs i)) [
    | inl e ↦ rw (e, run) (record { outcome = refl; state = s })
    | inr (f, e) ↦
        rw (e, run)
          (SameRun-resume (get rt.format rt.converter f target) c d (λ r. run rt fs (k r) c)
            (λ r. run rt fs (k r) d) s (λ r. run-SameReplays fs (k r) c d s))
  ]

-- The events that the engine adds to a history while an activity is under way.
abbrev pub IsInformational : WorkflowEvent → Type 0
IsInformational (activity_scheduled e) = Unit
IsInformational (activity_started e) = Unit
IsInformational (activity_retried e) = Unit
IsInformational _ = ⊥

IsInformational-completion :
    (j : String) (e : WorkflowEvent) → IsInformational e → completion j e ≡ []
unfolding completion
IsInformational-completion j (activity_scheduled e) h = refl
IsInformational-completion j _ h = ground arith

module _ {rt : Runtime} (law : RecordsEvents rt) where
  -- An `ActivityScheduled`, `ActivityStarted` or `ActivityRetried` event with the identity of its
  -- history changes neither how a run from that history ends nor which events it records; so a call
  -- whose activity is scheduled already, but not completed, is scheduled again.
  pub run-ignores_informational :
      (p : Program) (es es' : List WorkflowEvent) (e : WorkflowEvent)
      → IsInformational e
      → event_id e ≡ (load es).id
      → event_workflow e ≡ (load es).workflow_function_name
      → let out = run rt [] p (load (es ++ es')) in
        let out' = run rt [] p (load (es ++ e ∷ es')) in
        (out'.0 ≡ out.0) × (out'.1.uncommitted ≡ out.1.uncommitted)
  unfolding load_from
  run-ignores_informational p es es' e i same_id same_name =
      let start = load es in
      let s = SameReplays-load_from es' (
        SameReplays-applied_self start e same_id same_name
          (λ j. IsInformational-completion j e i)) in
      let same =
        run-SameReplays law [] p (load_from start es') (load_from (applied start e) es') s in
      rw (load_from-append new_empty_workflow_context es es') (
        rw (load_from-append new_empty_workflow_context es (e ∷ es'))
          (same.outcome, same.state.base.uncommitted))
