-- ===== src/Server/ActivityRetries/Histories.antt =====
-- Which scheduling a retry is made from: `fetchActivityTaskFromHistory` of
-- internal/server/projection/activity_retries.go.
use durablefuture.Prelude.{
  ◌≡◌, refl, sym, ap, ◌∙◌, String, List, [], ◌∷◌, Option, none, some, Bool-cases, true, inl, inr,
  Result-cases, ok-injective, ok, err, arith, ◌==◌,
}
use durablefuture.Prelude.Int.{ℤ}
use durablefuture.Api.Events.{
  WorkflowEvent, ActivityScheduled, workflow_started, activity_scheduled, activity_started,
  activity_completed, activity_failed, activity_retried, workflow_failed, workflow_completed,
}
use durablefuture.Server.Decode.{Msg, decode_workflow_event}
use durablefuture.Server.Broker.{JetStream, Serde}
use durablefuture.Server.ActivityRetries.{timestamp_of, match_scheduled, find_scheduled}

module _ (conv : Serde) (fn_name : String) where
  -- The message carries the scheduling of the function.
  abbrev pub Schedules : Msg → ActivityScheduled → Type 0
  Schedules msg s =
      (decode_workflow_event conv.events msg ≡ ok (activity_scheduled s))
      × ((s.activity_fn_name == fn_name) ≡ true)

  -- The search gives the first of the messages that carries a scheduling of the function.
  pub data Searched : List Msg → Option (ActivityScheduled × ℤ) → Type 0 where
    nowhere : Searched [] none
    here :
        (msg : Msg) (msgs : List Msg) (s : ActivityScheduled)
        → Schedules msg s
        → Searched (msg ∷ msgs) (some (s, timestamp_of msg.metadata))
    further :
        (msg : Msg) (msgs : List Msg) (found : Option (ActivityScheduled × ℤ))
        → ((s : ActivityScheduled) → ¬ Schedules msg s)
        → Searched msgs found
        → Searched (msg ∷ msgs) found

  abbrev scheduled_of : WorkflowEvent → Option ActivityScheduled
  scheduled_of (activity_scheduled s) = some s
  scheduled_of _ = none

  abbrev name_of : WorkflowEvent → String
  name_of (activity_scheduled s) = s.activity_fn_name
  name_of _ = ""

  module _ (msg : Msg) (msgs : List Msg) (found : Option (ActivityScheduled × ℤ))
      (rest : Searched msgs found) where
    skip_error :
        (m : String) → decode_workflow_event conv.events msg ≡ err m → Searched (msg ∷ msgs) found
    skip_error m e = further msg msgs found (λ s h. let p = sym e ∙ h.0 in ground (arith, p)) rest

    skip :
        (event : WorkflowEvent)
        → decode_workflow_event conv.events msg ≡ ok event
        → scheduled_of event ≡ none
        → Searched (msg ∷ msgs) found
    skip event e none_of =
        further msg msgs found
          (λ s h.
            let p = ap scheduled_of (ok-injective (sym h.0 ∙ e)) ∙ none_of in ground (arith, p))
          rest

    match_scheduled-Searched :
        (event : WorkflowEvent)
        → decode_workflow_event conv.events msg ≡ ok event
        → Searched (msg ∷ msgs) (match_scheduled fn_name msg event found)
    match_scheduled-Searched (activity_scheduled s) e =
        elim (Bool-cases (s.activity_fn_name == fn_name)) [
          | inl same ↦ rw same (here msg msgs s (e, same))
          | inr differs ↦ rw differs (
              further msg msgs found
                (λ other h.
                  let p =
                    sym h.1
                    ∙ ap (λ x. name_of x == fn_name) (ok-injective (sym h.0 ∙ e))
                    ∙ differs in
                  ground (arith, p))
                rest)
        ]
    match_scheduled-Searched (workflow_started x) e = skip (workflow_started x) e refl
    match_scheduled-Searched (activity_started x) e = skip (activity_started x) e refl
    match_scheduled-Searched (activity_completed x) e = skip (activity_completed x) e refl
    match_scheduled-Searched (activity_failed x) e = skip (activity_failed x) e refl
    match_scheduled-Searched (activity_retried x) e = skip (activity_retried x) e refl
    match_scheduled-Searched (workflow_failed x) e = skip (workflow_failed x) e refl
    match_scheduled-Searched (workflow_completed x) e = skip (workflow_completed x) e refl

  -- The search ends with the first message, in the order of the history, that carries a scheduling of
  -- an activity of that name, and with nothing only if no message does. An earlier scheduling of the
  -- same function therefore stands in for a later one.
  pub find_scheduled-Searched :
      (js : JetStream) (msgs : List Msg) → Searched msgs (find_scheduled js conv fn_name msgs)
  unfolding find_scheduled
  find_scheduled-Searched js [] = nowhere
  find_scheduled-Searched js (msg ∷ msgs) =
      let rest = find_scheduled-Searched js msgs in
      let found = find_scheduled js conv fn_name msgs in
      elim (Result-cases (decode_workflow_event conv.events msg)) [
        | inr (m, e) ↦ rw (e, find_scheduled) (skip_error msg msgs found rest m e)
        | inl (event, e) ↦
            rw (e, find_scheduled) (match_scheduled-Searched msg msgs found rest event e)
      ]
