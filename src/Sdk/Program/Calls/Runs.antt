-- ===== src/Sdk/Program/Calls/Runs.antt =====
-- How a run over a growing history goes on from each call and each `Get`.
use durablefuture.Prelude.{
  ℕ, ◌≤◌, ◌≡◌, refl, sym, ap, ◌∙◌, String, List, [], ◌∷◌, ◌++◌, Option, none, some, Option-cases,
  inl, inr, Result, ok, err, arith, get_elem?, length, length-append, length-get_elem?, Each,
  Each-snoc, eq_iff,
}
use durablefuture.Api.Values.{Any}
use durablefuture.Sdk.State.{ActivityReplayRecord, WorkflowState}
use durablefuture.Sdk.State.Replays.{replay_of}
use durablefuture.Sdk.Future.{value, panic, get}
use durablefuture.Sdk.Activity.{Runtime, RecordsEvents, OptionsValue, resolved}
use durablefuture.Sdk.Activity.Effects.{
  answer, next_record, execute_activity-Called, execute_activity-err,
}
use durablefuture.Sdk.Program.{Program, execute, await, blocked, panicked, run, nil_dereference}
use durablefuture.Sdk.Program.Recovery.{Extends, run-await}
use durablefuture.Sdk.Program.Calls.{
  Call, future_of, result_of, futures_at, Made, get_elem?-map, map-snoc, value_or_error,
  get-resolved, ran_at, Completes, called_state,
}

module _ {rt : Runtime} (law : RecordsEvents rt) where
  module _ (o : OptionsValue) (fn_name : String) (args : List Any) (c : WorkflowState) where
    pub history-called :
        (j : String)
        → (replay_of j (called_state rt o fn_name args c)).history ≡ (replay_of j c).history
    history-called j =
        let called = execute_activity-Called law fn_name args c o in
        ground (arith, called.replays j, eq_iff fn_name j)

    pub futures_at-called :
        (calls : List Call)
        → futures_at (called_state rt o fn_name args c) calls ≡ futures_at c calls
    futures_at-called [] = refl
    futures_at-called ((j, n) ∷ calls) = cc (history-called j, futures_at-called calls)

    pub futures_at-snoc_called :
        (calls : List Call) (n : ℕ)
        → n ≡ (replay_of fn_name c).consumed
        → futures_at (called_state rt o fn_name args c) (calls ++ (fn_name, n) ∷ [])
          ≡ futures_at c calls ++ future_of (next_record fn_name c) ∷ []
    unfolding next_record
    futures_at-snoc_called calls n e =
        map-snoc (called_state rt o fn_name args c) calls (fn_name, n)
        ∙ cc (futures_at-called calls, history-called fn_name, e)

    pub Made-called_same :
        (calls : List Call)
        → Each (Made c) calls
        → Each (Made (called_state rt o fn_name args c)) calls
    Made-called_same [] h = tt
    Made-called_same ((j, n) ∷ calls) h =
        let called = execute_activity-Called law fn_name args c o in
        (ground (arith, h.0, called.replays j, eq_iff fn_name j), Made-called_same calls h.1)

    pub Made-called :
        (calls : List Call) (n : ℕ)
        → n ≡ (replay_of fn_name c).consumed
        → Each (Made c) calls
        → Each (Made (called_state rt o fn_name args c)) (calls ++ (fn_name, n) ∷ [])
    Made-called calls n e h =
        let called = execute_activity-Called law fn_name args c o in
        Each-snoc (Made (called_state rt o fn_name args c)) calls (fn_name, n)
          (Made-called_same calls h)
          (ground (arith, e, called.replays fn_name, eq_iff fn_name fn_name))

    -- The run of a call that returns goes on behind it, with one more future.
    pub ran_at-execute :
        (calls : List Call) (p : Program) (n : ℕ)
        → n ≡ (replay_of fn_name c).consumed
        → answer o (next_record fn_name c) ≡ value (future_of (next_record fn_name c))
        → ran_at rt calls (execute o (ok fn_name) args p) c
          ≡ ran_at rt (calls ++ (fn_name, n) ∷ []) p (called_state rt o fn_name args c)
    unfolding run next_record
    ran_at-execute calls p n e h =
        let called = execute_activity-Called law fn_name args c o in
        rw (called.answered ∙ h) (
          ap (λ fs. run rt fs p (called_state rt o fn_name args c))
            (sym (futures_at-snoc_called calls n e)))

  module _ (calls : List Call) (c : WorkflowState) where
    pub ran_at-err :
        (o : OptionsValue) (m : String) (args : List Any) (p : Program)
        → (ran_at rt calls (execute o (err m) args p) c).0 ≡ panicked m
    unfolding run
    ran_at-err o m args p = rw (execute_activity-err rt o m args c) refl

    pub ran_at-panic :
        (o : OptionsValue) (fn_name m : String) (args : List Any) (p : Program)
        → answer o (next_record fn_name c) ≡ panic m
        → (ran_at rt calls (execute o (ok fn_name) args p) c).0 ≡ panicked m
    unfolding run
    ran_at-panic o fn_name m args p e =
        rw ((execute_activity-Called law fn_name args c o).answered ∙ e) refl

    module _ (i : ℕ) (target : Option String) (k : Result (Option Any) → Program) where
      pub ran_at-no_future :
          get_elem? calls i ≡ none
          → (ran_at rt calls (await i target k) c).0 ≡ panicked nil_dereference
      unfolding run
      ran_at-no_future e = rw (get_elem?-map c calls i, run) (rw e refl)

      module _ (call : Call) (e : get_elem? calls i ≡ some call) where
        pub get_elem?-call :
            (r : Option ActivityReplayRecord)
            → result_of call c ≡ r
            → get_elem? (futures_at c calls) i ≡ some (future_of r)
        get_elem?-call r h = get_elem?-map c calls i ∙ rw e (rw h refl)

        pub ran_at-waits :
            result_of call c ≡ none → ran_at rt calls (await i target k) c ≡ (blocked, c)
        unfolding run get
        ran_at-waits h = rw (get_elem?-call none h, run) refl

        pub ran_at-await :
            (x : ActivityReplayRecord)
            → result_of call c ≡ some x
            → ran_at rt calls (await i target k) c
              ≡ ran_at rt calls
                  (k (value_or_error (get rt.format rt.converter (resolved x) target)))
                  c
        ran_at-await x h =
            run-await rt (futures_at c calls) i target k c (resolved x) _
              (get_elem?-call (some x) h) (get-resolved rt.format rt.converter x target)

  -- The result of a call that was made is in the history at some time.
  pub result_of-arrives :
      (calls : List Call) (i : ℕ) (target : Option String) (k : Result (Option Any) → Program)
      (s : ℕ → WorkflowState) (j : String) (n : ℕ)
      → get_elem? calls i ≡ some (j, n)
      → Made (s 0) (j, n)
      → Completes rt calls (await i target k) s
      → (m : ℕ) × (x : ActivityReplayRecord) × (result_of (j, n) (s m) ≡ some x)
  result_of-arrives calls i target k s j n e made fair =
      elim (Option-cases (result_of (j, n) (s 0))) [
        | inr (x, h) ↦ (0, x, h)
        | inl h ↦
            let (m, le) = fair 0 j in
            let waits = ran_at-waits calls (s 0) i target k (j, n) e h in
            let (x, at) =
              length-get_elem? (replay_of j (s m)).history n
                (omega (arith, ap (λ r. (replay_of j r.1).consumed) waits)) in
            (m, x, at)
      ]

  pub Made-Extends :
      (c d : WorkflowState) (calls : List Call)
      → Extends c d
      → Each (Made c) calls
      → Each (Made d) calls
  Made-Extends c d [] x h = tt
  Made-Extends c d ((j, n) ∷ calls) x h =
      (omega (arith, x.consumed j, h.0), Made-Extends c d calls x h.1)

  pub length-Extends :
      (c d : WorkflowState) (j : String)
      → Extends c d
      → length (replay_of j c).history ≤ length (replay_of j d).history
  length-Extends c d j x =
      let (ys, e) = x.history j in
      omega (arith, ap length e, length-append (replay_of j c).history ys)
