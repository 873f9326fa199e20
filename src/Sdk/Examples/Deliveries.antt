-- ===== src/Sdk/Examples/Deliveries.antt =====
-- A worker with workflow functions alone, and the messages of one stream.
use durablefuture.Prelude.{
  ◌≡◌, refl, String, List, Bool, false, contains, [], ◌∷◌, Option, none, some, true, inl, Result,
  ok, err,
}
use durablefuture.Prelude.Dict.{Dict, lookup, insert}
use durablefuture.Api.Tasks.{Bytes, Task, workflow_task}
use durablefuture.Sdk.Worker.{WorkflowFn}
use durablefuture.Sdk.Registry.{registry_size, registry_set}
use durablefuture.Sdk.Connection.{Consumers, ensure_consumer}
use durablefuture.Sdk.Names.{workflow_task_stream_name, build_history_stream_name}
use durablefuture.Sdk.Worker.Build.{
  Built, new_worker, extract_full_function_name, register_workflow,
}
use durablefuture.Sdk.Program.{returns}
use durablefuture.Sdk.Delivery.{
  TaskKind, workflow, ConsumerConfig, Delivered, Receiver, initial, handle_message, Reach, add,
  consume, consume_fails, close, message, here, next, consumer_config, add_consumer, receive_task,
}
use durablefuture.Sdk.Delivery.Accounts.{Accounts, Reach-Accounts}
use durablefuture.Sdk.Delivery.Shutdown.{launched, launched-closes_late}
use durablefuture.Sdk.Delivery.Drains.{Drained, cancelled-drains}
use durablefuture.Sdk.Delivery.Start.{start_processing}

-- A byte makes a task, no byte none.
abbrev decode : TaskKind → Bytes → Result Task
decode kind [] = err "EOF"
decode kind (b ∷ bs) =
    ok (workflow_task (record { workflow_id = "1"; workflow_fn = "order"; input = [] }))

abbrev garbled : Delivered
garbled = record { stream = workflow; seq = 1; bytes = [] }

abbrev ready : Receiver
ready = record (initial (workflow ∷ [])) { unadded = []; consuming = workflow ∷ [] }

ready-reached : Reach decode (initial (workflow ∷ [])) ready
ready-reached =
    next (next here refl (add (initial (workflow ∷ [])) workflow [] refl)) refl
      (consume (launched (workflow ∷ [])) [] [] workflow refl)

Reach-Accounts_example : Accounts decode (handle_message decode workflow garbled ready)
Reach-Accounts_example =
    Reach-Accounts decode (workflow ∷ []) (handle_message decode workflow garbled ready)
      (next ready-reached refl (message ready [] [] workflow garbled refl refl))

-- The only consumer fails, and the channel is closed.
abbrev failed : Receiver
failed = record (launched (workflow ∷ [])) { starting = []; cancelled = true; closed = true }

failed-reached : Reach decode (launched (workflow ∷ [])) failed
failed-reached =
    next (next here refl (consume_fails (launched (workflow ∷ [])) [] [] workflow refl)) refl
      (close (record (launched (workflow ∷ [])) { starting = []; cancelled = true }) refl refl)

launched-closes_late_example : failed.cancelled ≡ true
launched-closes_late_example =
    launched-closes_late decode workflow [] failed failed-reached (inl refl)

cancelled-drains_example :
    (s : Receiver) × Reach decode (record ready { cancelled = true }) s × Drained decode s
cancelled-drains_example = cancelled-drains decode (record ready { cancelled = true }) refl refl

abbrev ensured : ConsumerConfig → Option String
ensured cfg = none

abbrev order_functions : Dict WorkflowFn
order_functions = ("order", record { params = []; body = λ args. returns [] }) ∷ []

start_order : start_processing ensured "" none order_functions [] ≡ ok (workflow ∷ [])
unfolding start_processing receive_task add_consumer registry_size
start_order = refl

abbrev no_log_error : String → String → Option String
no_log_error stream prefix = none

abbrev empty_worker : Built
empty_worker = record {
  history_stream = "acme_eu_WORKFLOW_HISTORY";
  subject_prefix = "eu";
  workflows = [];
  activities = [];
}

-- With a namespace the events of a worker go to subjects behind that, not behind `history`.
builds :
    new_worker no_log_error true (some (record { tenant_id = "acme"; namespace = "eu" }))
    ≡ ok empty_worker
unfolding new_worker build_history_stream_name
builds = refl

abbrev show_fn : WorkflowFn → String
show_fn f = "func"

abbrev order_fn : WorkflowFn
order_fn = record { params = []; body = λ args. returns [] }

registers :
    register_workflow (some "order") show_fn order_fn empty_worker
    ≡ ok (record empty_worker { workflows = order_functions })
unfolding register_workflow extract_full_function_name registry_set lookup insert
registers = refl

registers_once :
    register_workflow
      (some "order")
      show_fn
      order_fn
      (record empty_worker { workflows = order_functions })
    ≡ err "key order have value: func"
unfolding register_workflow extract_full_function_name registry_set lookup
registers_once = refl

-- A server that has the streams of a manager, and no consumers yet.
abbrev not_there : Bool → Option String
not_there true = none
not_there false = some "nats: stream not found"

abbrev manager_streams : List String
manager_streams = "WORKFLOW_HISTORY" ∷ "WORKFLOW_TASKS" ∷ "ACTIVITY_TASKS" ∷ []

abbrev served : Consumers
served = record {
  stream = λ name. not_there (contains manager_streams name);
  consumer = λ stream name. some "nats: consumer not found";
  create_or_update = λ cfg. none;
}

starts_without_namespace :
    start_processing (ensure_consumer served) "" none order_functions [] ≡ ok (workflow ∷ [])
unfolding start_processing receive_task add_consumer registry_size ensure_consumer consumer_config
    workflow_task_stream_name
starts_without_namespace = refl

-- With a namespace the worker asks for streams that no manager makes.
refuses_namespace :
    start_processing (ensure_consumer served) "eu" none order_functions []
    ≡ err "failed to get stream eu_WORKFLOW_TASKS for consumer creation: nats: stream not found"
unfolding start_processing receive_task add_consumer registry_size ensure_consumer consumer_config
    workflow_task_stream_name
refuses_namespace = refl
