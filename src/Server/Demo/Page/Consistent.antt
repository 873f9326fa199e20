-- ===== src/Server/Demo/Page/Consistent.antt =====
-- What holds of the demo page at any time.
use durablefuture.Prelude.{
  ◌≤◌, true, ◌≡◌, refl, ap, ◌∙◌, String, [], some, Option-cases, Bool-cases, ◌⊎◌, inl, inr,
  Result-cases, arith, ◌==◌,
}
use durablefuture.Prelude.Dict.{Dict, lookup, insert, lookup-insert, lookup-insert_same}
use durablefuture.Prelude.Int.{ℤ}
use durablefuture.Api.Tasks.{StartWorkflowReply}
use durablefuture.Server.Demo.{
  WorkflowState, EventMsg, DemoSerde, find_step, handle_known, handle_typed, handle_event,
}
use durablefuture.Server.Demo.Steps.{WellFormed}
use durablefuture.Server.Demo.Events.{
  AllWellFormed, insert-WellFormed, lookup-WellFormed, handle_event-WellFormed,
}
use durablefuture.Server.Demo.Page.{
  Page, state, no_workflow, Commands, pending_state, show_started, on_reply, start_attributes,
  start_command, start_workflow, get_status, Step, start, event, Reachable, fresh, next,
}

-- The page before a workflow, or with a state of the workflow it shows.
abbrev pub Idle : Page → Type 0
Idle page = (page.current_workflow ≡ "") × (page.states ≡ [])

abbrev pub HasState : Page → Type 0
HasState page = (s : WorkflowState) × (lookup page.current_workflow page.states ≡ some s)

record Consistent (page : Page) : Type 0 where
  well_formed : AllWellFormed page.states
  shown : Idle page ⊎ HasState page

pending_state-WellFormed : (now : ℤ) (id : String) → WellFormed (pending_state now id)
unfolding find_step
pending_state-WellFormed now id =
    let free : (true ≡ true) × (0 ≤ 0) = (refl, omega arith) in
    record {
      known = refl;
      current = omega arith;
      sound = (free, (free, (free, (free, (free, (free, tt))))));
      distinct = (refl, (refl, (refl, (refl, (refl, (refl, tt))))));
    }

show_started-Consistent :
    (now : ℤ) (id : String) (page : Page) → Consistent page → Consistent (show_started now id page)
show_started-Consistent now id page h = record {
  well_formed =
      insert-WellFormed id (pending_state now id) page.states (pending_state-WellFormed now id)
        h.well_formed;
  shown = inr (pending_state now id, lookup-insert_same id (pending_state now id) page.states);
}

-- An event replaces states and adds none.
handle_event-Idle :
    (serde : DemoSerde) (now : ℤ) (msg : EventMsg) → handle_event serde now msg [] ≡ []
unfolding handle_event handle_known lookup
handle_event-Idle serde now msg = elim (Bool-cases (msg.event_header == "")) [
  | inl t ↦ rw t refl
  | inr f ↦ elim (Result-cases (serde.base_id msg.payload)) [
    | inr (m, e) ↦ rw (f, e) refl
    | inl (id, e) ↦ rw (f, e, handle_known) refl
  ]
]

insert-keeps :
    (key id : String) (new : WorkflowState) (states : Dict WorkflowState) (s : WorkflowState)
    → lookup id states ≡ some s
    → (s' : WorkflowState) × (lookup id (insert key new states) ≡ some s')
insert-keeps key id new states s e = elim (Bool-cases (key == id)) [
  | inl t ↦ (new, rw (lookup-insert key id new states, t) refl)
  | inr f ↦ (s, rw (lookup-insert key id new states, f) e)
]

handle_event-keeps :
    (serde : DemoSerde) (now : ℤ) (msg : EventMsg) (states : Dict WorkflowState) (id : String)
    (s : WorkflowState)
    → lookup id states ≡ some s
    → (s' : WorkflowState) × (lookup id (handle_event serde now msg states) ≡ some s')
unfolding handle_event handle_known
handle_event-keeps serde now msg states id s e = elim (Bool-cases (msg.event_header == "")) [
  | inl t ↦ (s, rw t e)
  | inr f ↦ elim (Result-cases (serde.base_id msg.payload)) [
    | inr (m, d) ↦ (s, rw (f, d) e)
    | inl (name, d) ↦ elim (Option-cases (lookup name states)) [
      | inl n ↦ (s, rw (f, d, handle_known, n) e)
      | inr (old, l) ↦
          let (s', e') =
            insert-keeps name id (handle_typed serde now msg.event_header msg.payload old) states s
              e in
          (s', rw (f, d, handle_known, l) e')
    ]
  ]
]

on_reply-Consistent :
    (cmds : Commands) (now : ℤ) (reply : StartWorkflowReply) (page : Page)
    → Consistent page
    → Consistent (on_reply cmds now reply page).1
unfolding on_reply
on_reply-Consistent cmds now reply page h = elim (Bool-cases (reply.error == "")) [
  | inl t ↦ rw t (show_started-Consistent now reply.workflow_id page h)
  | inr f ↦ rw f h
]

start_workflow-Consistent :
    (cmds : Commands) (now : ℤ) (method order_id : String) (page : Page)
    → Consistent page
    → Consistent (start_workflow cmds now method order_id page).1
unfolding start_workflow
start_workflow-Consistent cmds now method order_id page h =
    let attributes = cmds.serialize_attributes (start_attributes cmds now order_id) in
    elim (Bool-cases (method == "POST")) [
      | inr f ↦ rw f h
      | inl t ↦ elim (Result-cases attributes) [
        | inr (m, e) ↦ rw (t, e) h
        | inl (a, e) ↦ elim (Result-cases (cmds.serialize_command (start_command cmds now a))) [
          | inr (m, e2) ↦ rw (t, e, e2) h
          | inl (b, e2) ↦ elim (Result-cases (cmds.request "command.request.start" b)) [
            | inr (m, e3) ↦ rw (t, e, e2, e3) h
            | inl (answer, e3) ↦ elim (Result-cases (cmds.deserialize_reply answer)) [
              | inr (m, e4) ↦ rw (t, e, e2, e3, e4) h
              | inl (reply, e4) ↦ rw (t, e, e2, e3, e4) (on_reply-Consistent cmds now reply page h)
            ]
          ]
        ]
      ]
    ]

Step-Consistent : {page page' : Page} → Step page page' → Consistent page → Consistent page'
Step-Consistent (start cmds now method order_id page) h =
    start_workflow-Consistent cmds now method order_id page h
Step-Consistent (event serde now msg page) h = record {
  well_formed = handle_event-WellFormed serde now msg page.states h.well_formed;
  shown = elim h.shown [
    | inl (c, e) ↦ inl (c, ap (handle_event serde now msg) e ∙ handle_event-Idle serde now msg)
    | inr (s, e) ↦ inr (handle_event-keeps serde now msg page.states page.current_workflow s e)
  ];
}

Reachable-Consistent : {page : Page} → Reachable page → Consistent page
Reachable-Consistent fresh = record { well_formed = tt; shown = inl (refl, refl) }
Reachable-Consistent (next r step) = Step-Consistent step (Reachable-Consistent r)

-- Whatever requests and events the demo page has had, a request for its status finds no workflow only
-- while the page has no state at all; otherwise it gets the state that the page has of its current
-- workflow, in which the status and those of the steps are known, no two steps have one name and the current step
-- is one of the steps.
pub get_status-Consistent :
    {page : Page}
    → Reachable page
    → (get_status page ≡ no_workflow × page.states ≡ [])
      ⊎ ((s : WorkflowState) × ((get_status page ≡ state s)
            × (lookup page.current_workflow page.states ≡ some s)
            × WellFormed s))
unfolding get_status lookup
get_status-Consistent {page} r =
    let h : Consistent page = Reachable-Consistent r in
    elim h.shown [
      | inl (c, e) ↦ inl (rw (get_status, e) refl, e)
      | inr (s, e) ↦ inr (
        s,
        (
          rw (get_status, e) refl,
          e,
          lookup-WellFormed page.current_workflow page.states s h.well_formed e,
        ),
      )
    ]
