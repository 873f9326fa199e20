-- ===== src/Sdk/Program/Liveness.antt =====
-- A workflow ends once the activities that its runs wait for have completed.
use durablefuture.Prelude.{
  ℕ, zero, suc, ◌+◌, ◌≤◌, ◌≡◌, refl, sym, ap, ◌∙◌, String, List, [], ◌∷◌, ◌++◌, some, Option-cases,
  ◌⊎◌, inl, inr, ok, err, arith, get_elem?, length, Each, Each-get_elem?, append_assoc, append-nil,
}
use native.Mathlib.Decide.{dec_lt}
use durablefuture.Api.Events.{WorkflowEvent}
use durablefuture.Sdk.State.{ActivityReplay, ActivityReplayRecord, WorkflowState, load}
use durablefuture.Sdk.State.Replays.{replay_of, replay_of-load, completions}
use durablefuture.Sdk.Future.{get}
use durablefuture.Sdk.Activity.{Runtime, RecordsEvents, resolved}
use durablefuture.Sdk.Activity.Effects.{next_record, execute_activity-Called}
use durablefuture.Sdk.Program.{Program, returns, panics, execute, await, panicked, run}
use durablefuture.Sdk.Program.Recovery.{next_record-Extends, Called-Extends, load-Extends}
use durablefuture.Sdk.Program.Direct.{wrong_options, Outcomes, direct, run-Refines}
use durablefuture.Sdk.Program.Calls.{
  Call, Grows, Made, answer-callable, value_or_error, Completes, Settled, called_state,
  result_of-grows,
}
use durablefuture.Sdk.Program.Calls.Runs.{
  history-called, Made-called, ran_at-execute, ran_at-err, ran_at-panic, ran_at-no_future,
  ran_at-await, result_of-arrives, Made-Extends, length-Extends,
}

-- The first events of a history that goes on for ever.
unfoldable pub history_until : (ℕ → WorkflowEvent) → ℕ → List WorkflowEvent
history_until events zero = []
history_until events (suc n) = history_until events n ++ events n ∷ []

history_until-le :
    (events : ℕ → WorkflowEvent) (n m : ℕ)
    → n ≤ m
    → (rest : List WorkflowEvent) × (history_until events m ≡ history_until events n ++ rest)
unfolding history_until
history_until-le events zero m h = (history_until events m, refl)
history_until-le events (suc n) zero h = absurd (omega arith)
history_until-le events (suc n) (suc m) h = elim (dec_lt n m) [
  | yes less ↦
      let (rest, e) = history_until-le events (suc n) m (omega arith) in
      (
        rest ++ events m ∷ [],
        ap (λ es. es ++ events m ∷ []) e
            ∙ append_assoc (history_until events (suc n)) rest (events m ∷ []),
      )
  | no not_less ↦
      let same : n ≡ m = omega arith in
      ([], rw same (sym (append-nil (history_until events (suc m)))))
]

History-Grows : (events : ℕ → WorkflowEvent) → Grows (λ n. load (history_until events n))
History-Grows events n m h =
    let (rest, e) = history_until-le events n m h in
    rw e (load-Extends (history_until events n) rest)

module _ {rt : Runtime} (law : RecordsEvents rt) where
  -- By recursion on the code: each call either panics, or is made at every time, and each `Get` is of
  -- a call whose result is there or comes.
  run-Settled :
      (calls : List Call) (p : Program) (s : ℕ → WorkflowState)
      → Grows s
      → Each (Made (s 0)) calls
      → Completes rt calls p s
      → Settled rt calls p s
  run-Settled calls (returns vs) s grows made fair = (0, unfold run in λ e. ground (arith, e))
  run-Settled calls (panics m) s grows made fair = (0, unfold run in λ e. ground (arith, e))
  run-Settled calls (execute o (err m) args p) s grows made fair =
      (0, λ e. let h = ran_at-err law calls (s 0) o m args p in ground (arith, h, e))
  run-Settled calls (execute o (ok fn_name) args p) s grows made fair =
      elim (answer-callable o (next_record fn_name (s 0))) [
        | inr bad ↦ (
          0,
          λ e.
              let h = ran_at-panic law calls (s 0) o fn_name wrong_options args p bad in
              ground (arith, h, e),
        )
        | inl callable ↦
            let made_before = (replay_of fn_name (s 0)).consumed in
            let s' : ℕ → WorkflowState = λ n. called_state rt o fn_name args (s n) in
            let later = λ (n : ℕ). grows 0 n (omega arith) in
            let goes_on = λ (n : ℕ).
              ran_at-execute law o fn_name args (s n) calls p made_before
                (sym ((later n).consumed fn_name))
                (callable (next_record fn_name (s n))
                  (λ x. next_record-Extends fn_name (s 0) (s n) x (later n))) in
            let (n, settled) =
              run-Settled (calls ++ (fn_name, made_before) ∷ []) p s'
                (λ n m h.
                  Called-Extends (execute_activity-Called law fn_name args (s n) o)
                    (execute_activity-Called law fn_name args (s m) o) (grows n m h))
                (Made-called law o fn_name args (s 0) calls made_before refl made)
                (λ n j.
                  let (m, le) = fair n j in
                  (
                    m,
                    omega (
                      arith,
                      ap (λ r. (replay_of j r.1).consumed) (goes_on n),
                      ap length (history-called law o fn_name args (s m) j),
                    ),
                  )) in
            (n, λ e. settled (sym (ap (λ r. r.0) (goes_on n)) ∙ e))
      ]
  run-Settled calls (await i target k) s grows made fair = elim (Option-cases (get_elem? calls i)) [
    | inl missing ↦ (
      0,
      λ e. let h = ran_at-no_future law calls (s 0) i target k missing in ground (arith, h, e),
    )
    | inr ((j, n0), found) ↦
        let (m0, x, there) =
          result_of-arrives law calls i target k s j n0 found
            (Each-get_elem? (Made (s 0)) calls i (j, n0) made found) fair in
        let goes_on = λ (n : ℕ).
          ran_at-await law calls (s (m0 + n)) i target k (j, n0) found x
            (result_of-grows (s m0) (s (m0 + n)) (j, n0) x (grows m0 (m0 + n) (omega arith))
              there) in
        let (n, settled) =
          run-Settled calls (k (value_or_error (get rt.format rt.converter (resolved x) target)))
            (λ n. s (m0 + n)) (λ n m h. grows (m0 + n) (m0 + m) (omega arith))
            (Made-Extends law (s 0) (s (m0 + 0)) calls (grows 0 (m0 + 0) (omega arith)) made)
            (λ n j.
              let (m, le) = fair (m0 + n) j in
              (
                m,
                omega (
                  arith,
                  ap (λ r. (replay_of j r.1).consumed) (goes_on n),
                  length-Extends law (s m) (s (m0 + m)) j (grows m (m0 + m) (omega arith)),
                ),
              )) in
        (m0 + n, λ e. settled (sym (ap (λ r. r.0) (goes_on n)) ∙ e))
  ]

  -- A workflow whose activities complete ends, on a worker that records events as chronicle documents.
  -- Let a history go on for ever, and let its completions be the outcomes of the activities, in order. If each call that a run over some part of it makes has its completion
  -- somewhere in the history, then the run over some first part of it does not wait: it ends with the
  -- values or the panic of the direct execution, or panics on a context whose options have another
  -- type.
  pub run-ends :
      (outcomes : Outcomes) (p : Program) (events : ℕ → WorkflowEvent)
      → ((n : ℕ) (j : String) (i : ℕ) (r : ActivityReplayRecord)
          → get_elem? (completions j (history_until events n)) i ≡ some r
          → r ≡ outcomes j i)
      → ((n : ℕ) (j : String)
          → (m : ℕ) × ((replay_of j (run rt [] p (load (history_until events n))).1).consumed
              ≤ length (completions j (history_until events m))))
      → (n : ℕ) × let ran = (run rt [] p (load (history_until events n))).0 in
          (ran ≡ direct rt outcomes (λ j. 0) [] p) ⊎ (ran ≡ panicked wrong_options)
  run-ends outcomes p events agrees fair =
      let s = λ (n : ℕ). load (history_until events n) in
      let (n, settled) = run-Settled [] p s (History-Grows events) tt (λ n j.
        let (m, le) = fair n j in
        (
          m,
          omega (
            arith,
            ap (λ (r : ActivityReplay). length r.history)
                (replay_of-load j (history_until events m)),
          ),
        )) in
      elim (run-Refines law outcomes p (history_until events n) (agrees n)) [
        | inl waits ↦ absurd (settled waits)
        | inr ends ↦ (n, ends)
      ]
