-- ===== src/Sdk/Program/Calls.antt =====
-- The calls that a run has made, and the futures that the history gives them.
pub mod Runs
use durablefuture.Prelude.{
  ℕ, zero, suc, ◌≤◌, ◌<◌, ◌≡◌, ◌≢◌, refl, sym, ap, ◌∙◌, subst, String, List, [], ◌∷◌, ◌++◌, map,
  Option, none, some, Option-cases, ◌⊎◌, inl, inr, Result, ok, err, arith, get_elem?, length,
  length-append, Each-get_elem?, length-get_elem?, Each, Each-snoc, eq_iff, get_elem?-append,
}
use durablefuture.Api.Values.{Any}
use durablefuture.Sdk.State.{ActivityReplayRecord, WorkflowState}
use durablefuture.Sdk.State.Replays.{replay_of}
use durablefuture.Sdk.Future.{BinarySerde, Blocking, Signal, value, panic, get}
use durablefuture.Sdk.Activity.{
  ActivityOptions, Runtime, RecordsEvents, OptionsValue, unset, options, mistyped, pending,
  resolved, execute_activity,
}
use durablefuture.Sdk.Activity.Effects.{
  answer, next_record, execute_activity-Called, execute_activity-err,
}
use durablefuture.Sdk.Program.{
  Program, execute, await, Ran, blocked, panicked, run, nil_dereference,
}
use durablefuture.Sdk.Program.Recovery.{Extends, run-await}
use durablefuture.Sdk.Program.Direct.{wrong_options}

-- A call: its function, and how many calls of the function were made before it.
abbrev pub Call : Type 0
Call = String × ℕ

abbrev pub future_of : Option ActivityReplayRecord → Blocking
future_of none = pending
future_of (some r) = resolved r

abbrev pub result_of : Call → WorkflowState → Option ActivityReplayRecord
result_of (j, n) c = get_elem? (replay_of j c).history n

abbrev pub futures_at : WorkflowState → List Call → List Blocking
futures_at c calls = map (λ call. future_of (result_of call c)) calls

-- The call was made: it is among those counted in the state.
abbrev pub Made : WorkflowState → Call → Type 0
Made c (j, n) = n < (replay_of j c).consumed

pub get_elem?-map :
    (c : WorkflowState) (calls : List Call) (i : ℕ)
    → get_elem? (futures_at c calls) i
      ≡ elim (get_elem? calls i) [ none ↦ none | some call ↦ some (future_of (result_of call c)) ]
get_elem?-map c [] i = refl
get_elem?-map c (call ∷ calls) zero = refl
get_elem?-map c (call ∷ calls) (suc i) = get_elem?-map c calls i

pub map-snoc :
    (c : WorkflowState) (calls : List Call) (call : Call)
    → futures_at c (calls ++ call ∷ []) ≡ futures_at c calls ++ future_of (result_of call c) ∷ []
map-snoc c [] call = refl
map-snoc c (first ∷ calls) call = ap (◌∷◌ (future_of (result_of first c))) (map-snoc c calls call)

-- States of one workflow over its growing history, at the same point of its code.
abbrev pub Grows : (ℕ → WorkflowState) → Type 0
Grows s = (n m : ℕ) → n ≤ m → Extends (s n) (s m)

pub result_of-grows :
    (c d : WorkflowState) (call : Call) (r : ActivityReplayRecord)
    → Extends c d
    → result_of call c ≡ some r
    → result_of call d ≡ some r
result_of-grows c d (j, n) r x e =
    let (ys, p) = x.history j in rw p (get_elem?-append (replay_of j c).history ys n r e)

pub future_of-unset : (r : Option ActivityReplayRecord) → answer unset r ≡ value (future_of r)
future_of-unset none = refl
future_of-unset (some x) = refl

pub future_of-options :
    (p : ActivityOptions) (r : Option ActivityReplayRecord)
    → answer (options p) r ≡ value (future_of r)
future_of-options p none = refl
future_of-options p (some x) = refl

-- A call that returns at one time does so at every later one.
pub answer-callable :
    (o : OptionsValue) (r : Option ActivityReplayRecord)
    → ((r' : Option ActivityReplayRecord)
        → ((x : ActivityReplayRecord) → r ≡ some x → r' ≡ some x)
        → answer o r' ≡ value (future_of r'))
      ⊎ (answer o r ≡ panic wrong_options)
answer-callable unset r = inl (λ r' h. future_of-unset r')
answer-callable (options p) r = inl (λ r' h. future_of-options p r')
answer-callable mistyped none = inr refl
answer-callable mistyped (some x) = inl (λ r' h. rw (h x refl))

abbrev pub value_or_error {ℓ} : {A : Type ℓ} → Signal (Result A) → Result A
value_or_error (value a) = a
value_or_error _ = err ""

pub get-resolved :
    (format : Any → String) (converter : Option BinarySerde) (r : ActivityReplayRecord)
    (target : Option String)
    → let s = get format converter (resolved r) target in s ≡ value (value_or_error s)
unfolding get
get-resolved format converter r target = elim (Option-cases r.err) [
  | inl e ↦ rw e refl
  | inr (m, e) ↦ rw e refl
]

module _ (rt : Runtime) where
  abbrev pub ran_at : List Call → Program → WorkflowState → Ran × WorkflowState
  ran_at calls p c = run rt (futures_at c calls) p c

  -- Each call that a run makes has its completion in the history at some time.
  abbrev pub Completes : List Call → Program → (ℕ → WorkflowState) → Type 0
  Completes calls p s =
      (n : ℕ) (j : String)
      → (m : ℕ) × ((replay_of j (ran_at calls p (s n)).1).consumed
          ≤ length (replay_of j (s m)).history)

  abbrev pub Settled : List Call → Program → (ℕ → WorkflowState) → Type 0
  Settled calls p s = (n : ℕ) × ((ran_at calls p (s n)).0 ≢ blocked)

  abbrev pub called_state : OptionsValue → String → List Any → WorkflowState → WorkflowState
  called_state o fn_name args c = (execute_activity rt o (ok fn_name) args c).1
