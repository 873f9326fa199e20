-- ===== src/Server/Demo/Page.antt =====
-- internal/server/handler/http/demo_handler.go: the page that starts workflows and shows the last one,
-- whose states the events of the history change meanwhile.
pub mod Consistent
use durablefuture.Prelude.{
  ℕ, String, List, [], ◌∷◌, map, Option, none, some, Bool, Result, ok, err, concat, ◌==◌,
  if◌then◌else◌,
}
use durablefuture.Prelude.Dict.{Dict, lookup, insert}
use durablefuture.Prelude.Int.{ℤ}
use durablefuture.Api.Values.{Any, string}
use durablefuture.Api.Tasks.{
  Bytes, Command, StartWorkflowAttributes, StartWorkflowReply, start_workflow_command,
}
use durablefuture.Server.Demo.{WorkflowState, EventMsg, DemoSerde, new_step, handle_event}

-- The fields of `DemoHandler` that its lock guards.
pub record Page : Type 0 where
  pub states : Dict WorkflowState
  pub current_workflow : String

-- The page before any request.
abbrev pub new_page : Page
new_page = record { states = []; current_workflow = "" }

-- A response: `http.Error` with its status and text, or one of the JSON answers, which are sent with
-- status 200.
pub data Response : Type 0 where
  error : ℕ → String → Response
  started : String → Response
  no_workflow : Response
  state : WorkflowState → Response
  crashing : Response

-- What `StartWorkflow` uses: the serializer, and the request to the command processor with its reply.
-- `amount` is the dynamic value 299.99.
pub record Commands : Type 0 where
  pub serialize_attributes : StartWorkflowAttributes → Result Bytes
  pub serialize_command : Command → Result Bytes
  pub request : String → Bytes → Result Bytes
  pub deserialize_reply : Bytes → Result StartWorkflowReply
  pub amount : Any

abbrev package_name : String → String
package_name name =
    concat ("github.com/ngnhng/durablefuture/examples/scenarios/order-retries." ∷ name ∷ [])

abbrev pub demo_steps : List String
demo_steps =
    package_name "ValidateOrderDetailsActivity"
    ∷ package_name "TransientFailurePaymentActivity"
    ∷ package_name "ReserveInventoryActivity"
    ∷ package_name "PackageOrderActivity"
    ∷ package_name "EventuallySuccessfulShippingActivity"
    ∷ package_name "NotifyCustomerActivity"
    ∷ []

abbrev pub pending_state : ℤ → String → WorkflowState
pending_state now id = record {
  workflow_id = id;
  status = "pending";
  current_step = 0;
  steps = demo_steps;
  step_details = map new_step demo_steps;
  result = [];
  error = "";
  started_at = now;
  completed_at = none;
}

abbrev pub failed_with : String → String → Response
failed_with what m = error 500 (concat (what ∷ m ∷ []))

-- The state of the new workflow, which takes the place of one that the map has for its id.
abbrev pub show_started : ℤ → String → Page → Page
show_started now id page = record page {
  states = insert id (pending_state now id) page.states;
  current_workflow = id;
}

module _ (cmds : Commands) (now : ℤ) where
  unfoldable pub on_reply : StartWorkflowReply → Page → Response × Page
  on_reply reply page =
      if reply.error == ""
      then (started reply.workflow_id, show_started now reply.workflow_id page)
      else (failed_with "Server error: " reply.error, page)

  abbrev start_command : Bytes → Command
  start_command attributes = record {
    command_type = start_workflow_command;
    attributes = attributes;
  }

  abbrev start_attributes : String → StartWorkflowAttributes
  start_attributes order_id = record {
    workflow_fn_name = package_name "OrderWithRetriesWorkflow";
    input = string order_id ∷ string "demo-customer" ∷ cmds.amount ∷ [];
  }

  -- `StartWorkflow`, for an order id made from the clock.
  unfoldable pub start_workflow : String → String → Page → Response × Page
  start_workflow method order_id page =
      if method == "POST"
      then elim (cmds.serialize_attributes (start_attributes order_id)) [
        | err m ↦ (failed_with "Failed to marshal attributes: " m, page)
        | ok attributes ↦ elim (cmds.serialize_command (start_command attributes)) [
          | err m ↦ (failed_with "Failed to marshal command: " m, page)
          | ok bytes ↦ elim (cmds.request "command.request.start" bytes) [
            | err m ↦ (failed_with "Failed to start workflow: " m, page)
            | ok answer ↦ elim (cmds.deserialize_reply answer) [
              | err m ↦ (failed_with "Failed to parse reply: " m, page)
              | ok reply ↦ on_reply reply page
            ]
          ]
        ]
      ]
      else (error 405 "Method not allowed", page)

-- `GetStatus`
unfoldable pub get_status : Page → Response
get_status page = elim (lookup page.current_workflow page.states) [
  | none ↦ no_workflow
  | some s ↦ state s
]

-- `Crash`: the response, and whether the process exits after it.
unfoldable pub crash : String → Response × Bool
crash method =
    if method == "POST" then (crashing, Bool.true) else (error 405 "Method not allowed", Bool.false)

-- What the page goes through: a request to start, with what the other side answers, and an event of
-- the history.
pub data Step : Page → Page → Type 0 where
  start :
      (cmds : Commands) (now : ℤ) (method order_id : String) (page : Page)
      → Step page (start_workflow cmds now method order_id page).1
  event :
      (serde : DemoSerde) (now : ℤ) (msg : EventMsg) (page : Page)
      → Step page (record page { states = handle_event serde now msg page.states })

pub data Reachable : Page → Type 0 where
  fresh : Reachable new_page
  next : {page page' : Page} → Reachable page → Step page page' → Reachable page'
