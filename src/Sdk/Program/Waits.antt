-- ===== src/Sdk/Program/Waits.antt =====
-- What a run that suspends waits for.
use durablefuture.Prelude.{
  ℕ, zero, suc, ◌-◌, ◌≤◌, ◌<◌, ◌≡◌, refl, sym, ap, ◌∙◌, String, List, [], ◌∷◌, ◌++◌, none,
  Option-cases, inl, inr, ok, err, arith, get_elem?, length, Each, Each-get_elem?,
}
use durablefuture.Api.Events.{WorkflowEvent}
use durablefuture.Sdk.State.{ActivityReplay, WorkflowState, load}
use durablefuture.Sdk.State.Replays.{replay_of, replay_of-load, completions}
use durablefuture.Sdk.Future.{get}
use durablefuture.Sdk.Activity.{Runtime, RecordsEvents, resolved}
use durablefuture.Sdk.Activity.Counts.{scheduled_count}
use durablefuture.Sdk.Activity.Effects.{next_record}
use durablefuture.Sdk.Program.{
  Program, returns, panics, execute, await, returned, blocked, panicked, run,
}
use durablefuture.Sdk.Program.Direct.{wrong_options}
use durablefuture.Sdk.Program.Schedules.{run-schedules_incomplete}
use durablefuture.Sdk.Program.Calls.{
  Call, Made, answer-callable, value_or_error, ran_at, called_state, result_of,
}
use durablefuture.Sdk.Program.Calls.Runs.{
  history-called, Made-called, ran_at-execute, ran_at-err, ran_at-panic, ran_at-no_future,
  ran_at-waits, ran_at-await,
}

get_elem?-none {ℓ} : {A : Type ℓ} (xs : List A) (i : ℕ) → get_elem? xs i ≡ none → length xs ≤ i
get_elem?-none [] i e = omega arith
get_elem?-none (x ∷ xs) zero e = ground (arith, e)
get_elem?-none (x ∷ xs) (suc i) e = omega (arith, get_elem?-none xs i e)

module _ {rt : Runtime} (law : RecordsEvents rt) where
  -- A function of which the run made more calls than the history has completions.
  abbrev Missing : List Call → Program → WorkflowState → Type 0
  Missing calls p c =
      (j : String) × (length (replay_of j c).history
        < (replay_of j (ran_at rt calls p c).1).consumed)

  blocked-Missing :
      (calls : List Call) (p : Program) (c : WorkflowState)
      → Each (Made c) calls
      → (ran_at rt calls p c).0 ≡ blocked
      → Missing calls p c
  blocked-Missing calls (returns vs) c made h =
      let e : (ran_at rt calls (returns vs) c).0 ≡ returned vs = unfold run in refl in
      ground (arith, h, e)
  blocked-Missing calls (panics m) c made h =
      let e : (ran_at rt calls (panics m) c).0 ≡ panicked m = unfold run in refl in
      ground (arith, h, e)
  blocked-Missing calls (execute o (err m) args p) c made h =
      let e = ran_at-err law calls c o m args p in ground (arith, h, e)
  blocked-Missing calls (execute o (ok fn_name) args p) c made h =
      elim (answer-callable o (next_record fn_name c)) [
        | inr bad ↦
            let e = ran_at-panic law calls c o fn_name wrong_options args p bad in
            ground (arith, h, e)
        | inl callable ↦
            let n = (replay_of fn_name c).consumed in
            let on =
              ran_at-execute law o fn_name args c calls p n refl
                (callable (next_record fn_name c) (λ x e. e)) in
            let (j, less) =
              blocked-Missing (calls ++ (fn_name, n) ∷ []) p (called_state rt o fn_name args c)
                (Made-called law o fn_name args c calls n refl made) (sym (ap (λ r. r.0) on) ∙ h) in
            (
              j,
              omega (
                arith,
                less,
                ap (λ r. (replay_of j r.1).consumed) on,
                ap length (history-called law o fn_name args c j),
              ),
            )
      ]
  blocked-Missing calls (await i target k) c made h = elim (Option-cases (get_elem? calls i)) [
    | inl e ↦ let p = ran_at-no_future law calls c i target k e in ground (arith, h, p)
    | inr ((j, n), e) ↦ elim (Option-cases (result_of (j, n) c)) [
      | inl unfinished ↦ (
        j,
        omega (
          arith,
          ap (λ r. (replay_of j r.1).consumed)
              (ran_at-waits law calls c i target k (j, n) e unfinished),
          get_elem?-none (replay_of j c).history n unfinished,
          Each-get_elem? (Made c) calls i (j, n) made e,
        ),
      )
      | inr (x, there) ↦
          let on = ran_at-await law calls c i target k (j, n) e x there in
          let (j', less) =
            blocked-Missing calls
              (k (value_or_error (get rt.format rt.converter (resolved x) target))) c made
              (sym (ap (λ r. r.0) on) ∙ h) in
          (j', omega (arith, less, ap (λ r. (replay_of j' r.1).consumed) on))
    ]
  ]

  -- On a worker that records events as chronicle documents, a run over a history that waits has made
  -- more calls of some activity than the history has completions of it, and has recorded an
  -- `ActivityScheduled` for each of those that are left, at least one.
  pub run-waits :
      (p : Program) (es : List WorkflowEvent)
      → let out = run rt [] p (load es) in
        out.0 ≡ blocked
        → (j : String) × (let missing = (replay_of j out.1).consumed - length (completions j es) in
            (scheduled_count j out.1.uncommitted ≡ missing) × (0 < missing))
  run-waits p es h =
      let (j, less) = blocked-Missing [] p (load es) tt h in
      let out = run rt [] p (load es) in
      let left : 0 < (replay_of j out.1).consumed - length (completions j es) =
        omega (arith, less, ap (λ (r : ActivityReplay). length r.history) (replay_of-load j es)) in
      elim (run-schedules_incomplete law j p es).1 [
        | inl (m, e) ↦ ground (arith, h, e)
        | inr exact ↦ (j, (exact, left))
      ]
