-- ===== src/Server/Examples/Pages.antt =====
-- The theorems on the demo page, at concrete states and an event.
use durablefuture.Prelude.{◌≡◌, ◌≢◌, refl, String, [], ◌∷◌, none, some, ok, err, arith, eq_iff}
use durablefuture.Prelude.Dict.{Dict, lookup, insert}
use durablefuture.Prelude.Int.{pos}
use durablefuture.Server.Demo.{
  WorkflowState, EventMsg, DemoSerde, new_step, find_step, find_or_create_step, update, run_step,
  handle_typed, handle_event,
}
use durablefuture.Server.Demo.Steps.{WellFormed}
use durablefuture.Server.Demo.Events.{AllWellFormed, handle_event-WellFormed, handle_event-others}

abbrev serde : DemoSerde
serde = record {
  base_id = λ b. ok "1";
  scheduled = λ b. ok (record {
    id = "1";
    workflow_fn_name = "order";
    activity_fn_name = "ship";
    input = [];
    schedule_to_close_timeout_unix = pos 0;
    start_to_close_timeout_unix = pos 0;
    retry_policy = none;
  });
  completed = λ b. err "EOF";
  failed = λ b. err "EOF";
  retried = λ b. err "EOF";
  workflow_completed = λ b. err "EOF";
  workflow_failed = λ b. err "EOF";
  to_json = λ v. [];
}

abbrev page : String → WorkflowState
page id = record {
  workflow_id = id;
  status = "running";
  current_step = 1;
  steps = [];
  step_details = new_step "pay" ∷ [];
  result = [];
  error = "";
  started_at = pos 0;
  completed_at = none;
}

abbrev pages : Dict WorkflowState
pages = ("1", page "1") ∷ ("2", page "2") ∷ []

abbrev scheduling : EventMsg
scheduling = record { event_header = "activity/scheduled"; payload = 1 ∷ [] }

page-WellFormed : (id : String) → WellFormed (page id)
unfolding find_step
page-WellFormed id = record {
  known = refl;
  current = omega arith;
  sound = ((refl, omega arith), tt);
  distinct = (refl, tt);
}

-- A second step is made for the activity, and it runs.
shipping :
    lookup "1" (handle_event serde (pos 7) scheduling pages)
    ≡ some (record (page "1") {
      current_step = 2;
      step_details =
          new_step "pay"
          ∷ record (new_step "ship") { status = "running"; attempts = 1; started_at = some (pos 7) }
          ∷ [];
    })
unfolding handle_event handle_typed lookup insert find_or_create_step find_step update run_step
shipping = refl

handle_event-WellFormed_example : AllWellFormed (handle_event serde (pos 7) scheduling pages)
handle_event-WellFormed_example =
    handle_event-WellFormed serde (pos 7) scheduling pages
      (page-WellFormed "1", (page-WellFormed "2", tt))

not_two : ◌≢◌ {A = String} "1" "2"
not_two = ground (arith, eq_iff "1" "2")

handle_event-others_example :
    lookup "2" (handle_event serde (pos 7) scheduling pages) ≡ lookup "2" pages
handle_event-others_example =
    handle_event-others serde (pos 7) scheduling pages "1" "2" refl not_two
