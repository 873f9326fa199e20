-- ===== src/Sdk/Program/Direct.antt =====
-- What the engine promises of workflow code: a run over a history does what the code does where every
-- activity returns at once.
use durablefuture.Prelude.{
  ℕ, zero, suc, ◌≡◌, refl, ap, ◌∙◌, String, List, [], ◌∷◌, ◌++◌, Option, none, some, Option-cases,
  ◌⊎◌, inl, inr, Result, ok, err, arith, get_elem?, eq_iff, ◌==◌, if◌then◌else◌,
}
use durablefuture.Api.Values.{Any}
use durablefuture.Api.Events.{WorkflowEvent}
use durablefuture.Sdk.State.{ActivityReplayRecord, WorkflowState, load}
use durablefuture.Sdk.State.Replays.{replay_of, replay_of-load, completions}
use durablefuture.Sdk.Future.{Blocking, Signal, value, blocking_future, panic, get}
use durablefuture.Sdk.Activity.{
  Runtime, RecordsEvents, OptionsValue, unset, options, mistyped, pending, resolved,
  execute_activity,
}
use durablefuture.Sdk.Activity.Effects.{
  Called, answer, next_record, execute_activity-Called, execute_activity-err,
}
use durablefuture.Sdk.Program.{
  Program, returns, panics, execute, await, Ran, returned, blocked, panicked, resume, run,
  nil_dereference,
}
use durablefuture.Sdk.Program.Recovery.{Settles, Ahead, Ahead-snoc, Ahead-get_elem?}

-- What the activities of a workflow come to: the outcome of the n-th completion of each function.
abbrev pub Outcomes : Type 0
Outcomes = String → ℕ → ActivityReplayRecord

abbrev pub counted : String → (String → ℕ) → String → ℕ
counted fn_name made j = if fn_name == j then suc (made fn_name) else made j

-- The code where a call has its outcome at once: there is no history, and no suspension.
module _ (rt : Runtime) (outcomes : Outcomes) where
  abbrev read_direct : Signal (Result (Option Any)) → (Result (Option Any) → Ran) → Ran
  read_direct (value r) k = k r
  read_direct blocking_future k = blocked
  read_direct (panic m) k = panicked m

  unfoldable pub direct : (String → ℕ) → List Blocking → Program → Ran
  direct made futures (returns results) = returned results
  direct made futures (panics m) = panicked m
  direct made futures (execute o (err m) args p) = panicked m
  direct made futures (execute o (ok fn_name) args p) =
      direct (counted fn_name made) (futures ++ resolved (outcomes fn_name (made fn_name)) ∷ []) p
  direct made futures (await i target k) = elim (get_elem? futures i) [
    | none ↦ panicked nil_dereference
    | some f ↦ read_direct (get rt.format rt.converter f target) (λ r. direct made futures (k r))
  ]

abbrev pub wrong_options : String
wrong_options = "ActivityOptions has wrong type in context."

-- The run waits, or ends as the direct execution, or finds a context whose options have another type.
abbrev pub Refines : Ran → Ran → Type 0
Refines ran ideal = (ran ≡ blocked) ⊎ (ran ≡ ideal) ⊎ (ran ≡ panicked wrong_options)

-- The state has outcomes in its history, and as many calls made.
pub record Follows (outcomes : Outcomes) (made : String → ℕ) (c : WorkflowState) : Type 0 where
  pub consumed : (j : String) → (replay_of j c).consumed ≡ made j
  pub history :
      (j : String) (n : ℕ) (r : ActivityReplayRecord)
      → get_elem? (replay_of j c).history n ≡ some r
      → r ≡ outcomes j n

pub Signal-cases {ℓ} :
    {A : Type ℓ} (s : Signal A)
    → ((a : A) × (s ≡ value a)) ⊎ (s ≡ blocking_future) ⊎ ((m : String) × (s ≡ panic m))
Signal-cases (value a) = inl (a, refl)
Signal-cases blocking_future = inr (inl refl)
Signal-cases (panic m) = inr (inr (m, refl))

Ahead-none :
    (fs gs : List Blocking) (i : ℕ) → Ahead fs gs → get_elem? fs i ≡ none → get_elem? gs i ≡ none
Ahead-none [] [] i a e = refl
Ahead-none [] (g ∷ gs) i a e = absurd a
Ahead-none (f ∷ fs) [] i a e = refl
Ahead-none (f ∷ fs) (g ∷ gs) zero a e = cc
Ahead-none (f ∷ fs) (g ∷ gs) (suc i) a e = Ahead-none fs gs i a.1 e

-- A call waits for no longer than the direct one, or panics on its options.
answer-cases :
    (o : OptionsValue) (r : Option ActivityReplayRecord) (x : ActivityReplayRecord)
    → ((y : ActivityReplayRecord) → r ≡ some y → y ≡ x)
    → ((f : Blocking) × (answer o r ≡ value f) × Settles f (resolved x))
      ⊎ (answer o r ≡ panic wrong_options)
answer-cases o (some y) x h = inl (resolved y, refl, inl (ap resolved (h y refl)))
answer-cases unset none x h = inl (pending, refl, inr refl)
answer-cases (options p) none x h = inl (pending, refl, inr refl)
answer-cases mistyped none x h = inr refl

module _ {rt : Runtime} (law : RecordsEvents rt) (outcomes : Outcomes) where
  Called-Follows :
      (o : OptionsValue) (fn_name : String) (args : List Any) (made : String → ℕ)
      {c : WorkflowState} {out : Signal Blocking × WorkflowState}
      → Called rt o fn_name args c out
      → Follows outcomes made c
      → Follows outcomes (counted fn_name made) out.1
  Called-Follows o fn_name args made called s = record {
    consumed = λ j. ground (arith, called.replays j, s.consumed j, s.consumed fn_name);
    history = λ j n r e. s.history j n r (ground (arith, called.replays j, eq_iff fn_name j, e));
  }

  next_record-outcome :
      (fn_name : String) (made : String → ℕ) (c : WorkflowState) (y : ActivityReplayRecord)
      → Follows outcomes made c
      → next_record fn_name c ≡ some y
      → y ≡ outcomes fn_name (made fn_name)
  unfolding next_record
  next_record-outcome fn_name made c y s e =
      s.history fn_name (made fn_name) y (rw (s.consumed fn_name) at e)

  await-Refines :
      (made : String → ℕ) (fs gs : List Blocking) (target : Option String)
      (k : Result (Option Any) → Program) (c : WorkflowState) (f g : Blocking)
      → Settles f g
      → ((r : Result (Option Any))
          → Refines (run rt fs (k r) c).0 (direct rt outcomes made gs (k r)))
      → Refines (resume (get rt.format rt.converter f target) c (λ r. run rt fs (k r) c)).0 (
          read_direct rt outcomes
            (get rt.format rt.converter g target)
            (λ r. direct rt outcomes made gs (k r)))
  await-Refines made fs gs target k c f g (inr waits) rest = unfold get in rw waits (inl refl)
  await-Refines made fs gs target k c f g (inl same) rest =
      rw (← same) (elim (Signal-cases (get rt.format rt.converter f target)) [
        | inl (r, e) ↦ rw e (rest r)
        | inr (inl e) ↦ rw e (inl refl)
        | inr (inr (m, e)) ↦ rw e (inr (inl refl))
      ])

  Follows-Refines :
      (made : String → ℕ) (fs gs : List Blocking) (p : Program) (c : WorkflowState)
      → Ahead fs gs
      → Follows outcomes made c
      → Refines (run rt fs p c).0 (direct rt outcomes made gs p)
  unfolding run direct
  Follows-Refines made fs gs (returns vs) c a s = inr (inl refl)
  Follows-Refines made fs gs (panics m) c a s = inr (inl refl)
  Follows-Refines made fs gs (execute o (err m) args p) c a s =
      rw (execute_activity-err rt o m args c) (inr (inl refl))
  Follows-Refines made fs gs (execute o (ok fn_name) args p) c a s =
      let called = execute_activity-Called law fn_name args c o in
      let out = execute_activity rt o (ok fn_name) args c in
      let x = outcomes fn_name (made fn_name) in
      elim (answer-cases o (next_record fn_name c) x
        (λ y. next_record-outcome fn_name made c y s)) [
          | inr e ↦ rw (called.answered ∙ e) (inr (inr refl))
          | inl (f, e, settles) ↦ rw (called.answered ∙ e) (
              Follows-Refines (counted fn_name made) (fs ++ f ∷ []) (gs ++ resolved x ∷ []) p out.1
                (Ahead-snoc fs gs f (resolved x) a settles)
                (Called-Follows o fn_name args made called s))
        ]
  Follows-Refines made fs gs (await i target k) c a s = elim (Option-cases (get_elem? fs i)) [
    | inl e ↦ rw (e, run) (rw (Ahead-none fs gs i a e, direct) (inr (inl refl)))
    | inr (f, e) ↦
        let (g, e', settles) = Ahead-get_elem? fs gs i f a e in
        rw (e, run)
          (rw (e', direct)
            (await-Refines made fs gs target k c f g settles
              (λ r. Follows-Refines made fs gs (k r) c a s)))
  ]

  -- On a worker that records events as chronicle documents, workflow code behaves as if every activity
  -- returned at once: whatever part of the activities'
  -- outcomes the history has, a run over it waits, or ends with the values or the panic of the direct
  -- execution, or else panics on a context whose options have another type.
  pub run-Refines :
      (p : Program) (es : List WorkflowEvent)
      → ((j : String) (n : ℕ) (r : ActivityReplayRecord)
          → get_elem? (completions j es) n ≡ some r
          → r ≡ outcomes j n)
      → Refines (run rt [] p (load es)).0 (direct rt outcomes (λ j. 0) [] p)
  run-Refines p es h =
      Follows-Refines (λ j. 0) [] [] p (load es) tt
        (record {
          consumed = λ j. ground (arith, replay_of-load j es);
          history = λ j n r e. h j n r (rw (replay_of-load j es) at e);
        })
