-- ===== src/Sdk/Examples/Endings.antt =====
-- A workflow of one activity, over a history in which the activity completes again and again.
use durablefuture.Prelude.{
  ℕ, zero, suc, ◌-◌, ◌<◌, ◌≤◌, ◌≡◌, refl, String, [], ◌∷◌, ◌++◌, none, some, Option-cases,
  Bool-cases, ◌⊎◌, inl, inr, ok, arith, length, Each, Each-get_elem?, Each-append, ◌==◌,
}
use durablefuture.Api.Values.{nil, string}
use durablefuture.Api.Events.{WorkflowEvent}
use durablefuture.Prelude.Dict.{lookup, insert}
use durablefuture.Sdk.State.{
  ActivityReplayRecord, WorkflowState, load, load_from, applied, apply, push_record,
  ensure_activity_replay,
}
use durablefuture.Sdk.State.Replays.{
  replay_of, replay_of-load, completion, completions, completions-append,
}
use durablefuture.Sdk.Future.{get}
use durablefuture.Sdk.Activity.{
  unset, execute_activity, execute_entry, execute_fresh, record_or_panic, get_activity_options,
  scheduled_event,
}
use durablefuture.Sdk.Activity.Counts.{scheduled_count}
use durablefuture.Sdk.Program.Waits.{run-waits}
use durablefuture.Sdk.Activity.Effects.{next_record, execute_activity-Called}
use durablefuture.Sdk.Program.{Program, returns, execute, await, returned, blocked, panicked, run}
use durablefuture.Sdk.Program.Direct.{Outcomes, Refines, direct, wrong_options, run-Refines}
use durablefuture.Sdk.Program.Liveness.{history_until, run-ends}
use durablefuture.Sdk.Examples.{worker, worker-RecordsEvents, started, completed}

abbrev payment : Program
payment = execute unset (ok "pay") [] (await 0 none (λ paid. returns (nil ∷ nil ∷ [])))

abbrev events : ℕ → WorkflowEvent
events zero = started
events (suc n) = completed "pay"

abbrev success : ActivityReplayRecord
success = record { result = some (string "ok" ∷ nil ∷ []); err = none }

abbrev succeed : Outcomes
succeed j n = success

abbrev Succeeds : ActivityReplayRecord → Type 0
Succeeds r = r ≡ success

completion-Succeeds : (j : String) (n : ℕ) → Each Succeeds (completion j (events n))
unfolding completion
completion-Succeeds j zero = tt
completion-Succeeds j (suc n) = elim (Bool-cases ("pay" == j)) [
  | inl e ↦ rw e (refl, tt)
  | inr e ↦ rw e tt
]

completions-Succeeds : (j : String) (n : ℕ) → Each Succeeds (completions j (history_until events n))
unfolding completions history_until
completions-Succeeds j zero = tt
completions-Succeeds j (suc n) =
    rw (completions-append j (history_until events n) (events n ∷ [])) (
      Each-append Succeeds (completions j (history_until events n)) (completion j (events n) ++ [])
        (completions-Succeeds j n)
        (Each-append Succeeds (completion j (events n)) [] (completion-Succeeds j n) tt))

payment_state :
    (c : WorkflowState)
    → (run worker [] payment c).1 ≡ (execute_activity worker unset (ok "pay") [] c).1
unfolding run get
payment_state c =
    let called = execute_activity-Called worker-RecordsEvents "pay" [] c unset in
    elim (Option-cases (next_record "pay" c)) [
      | inl e ↦ rw (called.answered) (rw e refl)
      | inr (x, e) ↦
          rw (called.answered)
            (rw e (elim (Option-cases x.err) [ inl h ↦ rw h refl | inr (m, h) ↦ rw h refl ]))
    ]

payment-Completes :
    (n : ℕ) (j : String)
    → (replay_of j (run worker [] payment (load (history_until events n))).1).consumed
      ≤ length (completions j (history_until events 2))
unfolding history_until completions completion
payment-Completes n j =
    let c = load (history_until events n) in
    let called = execute_activity-Called worker-RecordsEvents "pay" [] c unset in
    rw (payment_state c) (
      ground (
        arith,
        called.replays j,
        replay_of-load "pay" (history_until events n),
        replay_of-load j (history_until events n),
      ))

run-Refines_example :
    Refines
      (run worker [] payment (load (started ∷ completed "pay" ∷ []))).0
      (direct worker succeed (λ j. 0) [] payment)
unfolding history_until
run-Refines_example =
    run-Refines worker-RecordsEvents succeed payment (started ∷ completed "pay" ∷ []) (λ j n r e.
      Each-get_elem? Succeeds (completions j (history_until events 2)) n r
        (completions-Succeeds j 2) e)

pays_directly : direct worker succeed (λ j. 0) [] payment ≡ returned (nil ∷ nil ∷ [])
unfolding direct get
pays_directly = refl

run-ends_example :
    (n : ℕ) × let ran = (run worker [] payment (load (history_until events n))).0 in
      (ran ≡ direct worker succeed (λ j. 0) [] payment) ⊎ (ran ≡ panicked wrong_options)
run-ends_example =
    run-ends worker-RecordsEvents succeed payment events
      (λ n j i r e.
        Each-get_elem? Succeeds (completions j (history_until events n)) i r
          (completions-Succeeds j n) e)
      (λ n j. (2, payment-Completes n j))

payment_waits : (run worker [] payment (load (started ∷ []))).0 ≡ blocked
unfolding run get load_from applied ensure_activity_replay execute_activity execute_entry
    execute_fresh record_or_panic get_activity_options scheduled_event apply lookup insert
    push_record
payment_waits = refl

run-waits_example :
    let out = run worker [] payment (load (started ∷ [])) in
    (j : String) × (let missing =
        (replay_of j out.1).consumed - length (completions j (started ∷ [])) in
      (scheduled_count j out.1.uncommitted ≡ missing) × (0 < missing))
run-waits_example = run-waits worker-RecordsEvents payment (started ∷ []) payment_waits
