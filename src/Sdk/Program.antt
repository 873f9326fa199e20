-- ===== src/Sdk/Program.antt =====
-- Workflow code, and how `processWorkflowTask` of sdk/internal/worker_runtime.go runs it up to its
-- return, its suspension or its panic.
pub mod Schedules
pub mod Recovery
pub mod Informational
pub mod Direct
pub mod Calls
pub mod Liveness
pub mod Waits
use durablefuture.Prelude.{ℕ, String, List, [], ◌∷◌, ◌++◌, Option, none, some, Result, get_elem?}
use durablefuture.Api.Values.{Any}
use durablefuture.Sdk.State.{WorkflowState}
use durablefuture.Sdk.Future.{Blocking, Signal, value, blocking_future, panic, get}
use durablefuture.Sdk.Activity.{Runtime, OptionsValue, execute_activity}

-- The users' workflow function, as the calls of the SDK that it makes: it is a parameter of the code
-- under study. `execute` calls `ExecuteActivity` on a context with these options; it gets a future,
-- which shows nothing of itself but `Get`, so the code names it by its index among the futures made
-- so far. `await` calls `Get` on a future with a pointer to a type, or nil, and goes on by what it
-- finds. Code with these steps is deterministic, as the engine demands.
pub data Program : Type 0 where
  returns : List Any → Program
  panics : String → Program
  execute : OptionsValue → Result String → List Any → Program → Program
  await : ℕ → Option String → (Result (Option Any) → Program) → Program

-- How the call of the workflow function ends, after `recover`.
pub data Ran : Type 0 where
  returned : List Any → Ran
  blocked : Ran
  panicked : String → Ran

abbrev pub nil_dereference : String
nil_dereference = "runtime error: invalid memory address or nil pointer dereference"

-- Code goes on from a value; a panic of either kind unwinds it.
abbrev pub resume {ℓ} :
    {A : Type ℓ} → Signal A → WorkflowState → (A → Ran × WorkflowState) → Ran × WorkflowState
resume (value a) c k = k a
resume blocking_future c k = (blocked, c)
resume (panic m) c k = (panicked m, c)

unfoldable pub run : Runtime → List Blocking → Program → WorkflowState → Ran × WorkflowState
run rt futures (returns results) c = (returned results, c)
run rt futures (panics m) c = (panicked m, c)
run rt futures (execute o fn args p) c =
    let (signal, c') = execute_activity rt o fn args c in
    resume signal c' (λ f. run rt (futures ++ f ∷ []) p c')
run rt futures (await i target k) c = elim (get_elem? futures i) [
  | none ↦ (panicked nil_dereference, c)
  | some f ↦ resume (get rt.format rt.converter f target) c (λ r. run rt futures (k r) c)
]
