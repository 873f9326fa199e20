-- ===== src/Server/Demo/Steps.antt =====
-- What the demo page can rely on: the steps of each workflow are told apart by their names, and
-- their counts and statuses are consistent.
use durablefuture.Prelude.{
  ℕ, zero, suc, ◌≤◌, ◌<◌, ◌≡◌, refl, ap, ◌∙◌, String, List, [], ◌∷◌, ◌++◌, none, some, Option-cases,
  true, false, inl, inr, arith, length, length-append, contains, ◌==◌, eq_iff, Each, Each-snoc,
}
use durablefuture.Prelude.Int.{ℤ}
use durablefuture.Api.Events.{ActivityFailed, ActivityRetried}
use durablefuture.Server.Demo.{
  RetryAttempt, StepDetail, WorkflowState, find_step, new_step, find_or_create_step, update,
  update_named, run_step, complete_step, fail_step, retry_step,
}

abbrev pub statuses : List String
statuses = "pending" ∷ "running" ∷ "completed" ∷ "failed" ∷ []

-- The attempts that a history of retries makes necessary: one more than it has, if it has any.
abbrev pub needed : List RetryAttempt → ℕ
needed [] = 0
needed (retry ∷ retries) = suc (suc (length retries))

abbrev pub IsStep : StepDetail → Type 0
IsStep step = (contains statuses step.status ≡ true) × (needed step.retry_history ≤ step.attempts)

-- No two steps have one name.
abbrev pub Distinct : List StepDetail → Type 0
Distinct [] = Unit
Distinct (step ∷ steps) = (find_step step.name steps ≡ none) × Distinct steps

pub record WellFormed (state : WorkflowState) : Type 0 where
  pub known : contains statuses state.status ≡ true
  pub current : state.current_step ≤ length state.step_details
  pub sound : Each IsStep state.step_details
  pub distinct : Distinct state.step_details

-- A change of a step that keeps its name and its consistency.
pub record Keeps (f : StepDetail → StepDetail) : Type 0 where
  pub name : (step : StepDetail) → (f step).name ≡ step.name
  pub step : (step : StepDetail) → IsStep step → IsStep (f step)

needed-le : (retries : List RetryAttempt) → needed retries ≤ suc (length retries)
needed-le [] = omega arith
needed-le (retry ∷ retries) = omega arith

pub run_step-Keeps : (now : ℤ) → Keeps (run_step now)
unfolding run_step
run_step-Keeps now = record { name = λ step. refl; step = λ step h. (refl, ground (arith, h.1)) }

pub complete_step-Keeps : (now : ℤ) → Keeps (complete_step now)
unfolding complete_step
complete_step-Keeps now = record {
  name = λ step. refl;
  step = λ step h. (refl, ground (arith, h.1, needed-le step.retry_history));
}

pub fail_step-Keeps : (e : ActivityFailed) → Keeps (fail_step e)
unfolding fail_step
fail_step-Keeps e = record {
  name = λ step. refl;
  step = λ step h. (refl, ground (arith, h.1, needed-le step.retry_history));
}

pub retry_step-Keeps : (now : ℤ) (e : ActivityRetried) → Keeps (retry_step now e)
unfolding retry_step
retry_step-Keeps now e = record {
  name = λ step. refl;
  step = λ step h. (refl, ground (arith, needed-le (retry_step now e step).retry_history));
}

module _ (f : StepDetail → StepDetail) (keeps : Keeps f) where
  pub update-Each :
      (i : ℕ) (steps : List StepDetail) → Each IsStep steps → Each IsStep (update i f steps)
  unfolding update
  update-Each i [] h = tt
  update-Each zero (step ∷ steps) h = (keeps.step step h.0, h.1)
  update-Each (suc i) (step ∷ steps) h = (h.0, update-Each i steps h.1)

  find_step-update :
      (name : String) (i : ℕ) (steps : List StepDetail)
      → find_step name (update i f steps) ≡ find_step name steps
  unfolding update find_step
  find_step-update name i [] = refl
  find_step-update name zero (step ∷ steps) = rw (keeps.name step) refl
  find_step-update name (suc i) (step ∷ steps) = rw (find_step-update name i steps) refl

  pub update-Distinct :
      (i : ℕ) (steps : List StepDetail) → Distinct steps → Distinct (update i f steps)
  unfolding update
  update-Distinct i [] h = tt
  update-Distinct zero (step ∷ steps) h = (rw (keeps.name step) h.0, h.1)
  update-Distinct (suc i) (step ∷ steps) h =
      (find_step-update step.name i steps ∙ h.0, update-Distinct i steps h.1)

  pub length-update : (i : ℕ) (steps : List StepDetail) → length (update i f steps) ≡ length steps
  unfolding update
  length-update i [] = refl
  length-update zero (step ∷ steps) = refl
  length-update (suc i) (step ∷ steps) = ap suc (length-update i steps)

  pub update_named-WellFormed :
      (name : String) (state : WorkflowState)
      → WellFormed state
      → WellFormed (update_named name f state)
  update_named-WellFormed name state h = elim (Option-cases (find_step name state.step_details)) [
    | inl e ↦ rw (e, update_named) h
    | inr (i, e) ↦
        rw (e, update_named)
          (record {
            known = h.known;
            current = rw (length-update i state.step_details) h.current;
            sound = update-Each i state.step_details h.sound;
            distinct = update-Distinct i state.step_details h.distinct;
          })
  ]

find_step-lt :
    (name : String) (steps : List StepDetail) (i : ℕ)
    → find_step name steps ≡ some i
    → i < length steps
unfolding find_step
find_step-lt name [] i h = ground (arith, h)
find_step-lt name (step ∷ steps) i h = elim (Option-cases (find_step name steps)) [
  | inl e ↦ ground (arith, h, e)
  | inr (j, e) ↦ ground (arith, h, e, find_step-lt name steps j e)
]

find_step-append :
    (name : String) (steps : List StepDetail) (last : StepDetail)
    → find_step name steps ≡ none
    → (last.name == name) ≡ false
    → find_step name (steps ++ last ∷ []) ≡ none
unfolding find_step
find_step-append name [] last h ne = rw ne refl
find_step-append name (step ∷ steps) last h ne = elim (Option-cases (find_step name steps)) [
  | inl e ↦ ground (arith, h, e, find_step-append name steps last e ne)
  | inr (j, e) ↦ ground (arith, h, e)
]

append-Distinct :
    (name : String) (steps : List StepDetail)
    → find_step name steps ≡ none
    → Distinct steps
    → Distinct (steps ++ new_step name ∷ [])
unfolding find_step
append-Distinct name [] h d = (refl, tt)
append-Distinct name (step ∷ steps) h d = elim (Option-cases (find_step name steps)) [
  | inr (j, e) ↦ ground (arith, h, e)
  | inl e ↦
      let ne : (name == step.name) ≡ false =
        ground (arith, h, e, eq_iff step.name name, eq_iff name step.name) in
      (find_step-append step.name steps (new_step name) d.0 ne, append-Distinct name steps e d.1)
]

-- The step of a name, and where it stands.
pub record Stepped (out : ℕ × List StepDetail) : Type 0 where
  pub lt : out.0 < length out.1
  pub sound : Each IsStep out.1
  pub distinct : Distinct out.1

pub find_or_create_step-Stepped :
    (name : String) (state : WorkflowState)
    → WellFormed state
    → Stepped (find_or_create_step name state.step_details)
unfolding find_or_create_step
find_or_create_step-Stepped name state h = elim (Option-cases (find_step name state.step_details)) [
  | inr (i, e) ↦
      rw (e, find_or_create_step)
        (record {
          lt = find_step-lt name state.step_details i e;
          sound = h.sound;
          distinct = h.distinct;
        })
  | inl e ↦
      rw (e, find_or_create_step)
        (record {
          lt = omega (arith, length-append state.step_details (new_step name ∷ []));
          sound = Each-snoc IsStep state.step_details (new_step name) h.sound (refl, omega arith);
          distinct = append-Distinct name state.step_details e h.distinct;
        })
]
