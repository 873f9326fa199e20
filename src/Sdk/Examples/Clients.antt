-- ===== src/Sdk/Examples/Clients.antt =====
-- The theorems on the client, at a concrete manager, serializer and watcher.
use durablefuture.Prelude.{
  ◌≡◌, refl, ap, sym, ◌∙◌, eq_iff, ◌&&◌, String, List, [], ◌∷◌, none, some, Result, ok, err, arith,
  ◌==◌, if◌then◌else◌,
}
use durablefuture.Prelude.Int.{pos}
use durablefuture.Api.Values.{Any, nil, string}
use durablefuture.Api.Tasks.{Bytes, Command, StartWorkflowAttributes, StartWorkflowReply}
use durablefuture.Api.Events.{WorkflowCompleted, workflow_completed, event_name}
use durablefuture.Server.Decode.{Msg, decode_workflow_event, event_type, decode_as}
use durablefuture.Prelude.Dict.{lookup}
use durablefuture.Server.Broker.{JetStream, Serde, Bucket}
use durablefuture.Server.Command.{
  History, CommandSerde, handle_request, start_workflow, with_reply, with_bucket, store_input,
  publish_started,
}
use durablefuture.Sdk.Future.{BinarySerde}
use durablefuture.Sdk.Client
use durablefuture.Sdk.Client.{
  Update, Watchers, initial_done, deleted, get_result, StartConn, Execution, future, execution_of,
  execute_workflow,
}
use durablefuture.Sdk.Client.Results.{Stores, get_result-value}
use durablefuture.Sdk.Client.Starts.{Launched, response, execute_workflow-Launched}

abbrev values_of : Bytes → Result (List Any)
values_of [] = err "EOF"
values_of (b ∷ bs) = ok (string "paid" ∷ nil ∷ [])

abbrev errors_of : Bytes → Result (List Any)
errors_of b = ok (nil ∷ string "denied" ∷ [])

abbrev converter : BinarySerde
converter = record { serialize = λ v. ok (6 ∷ []); deserialize = λ b t. ok (string "paid") }

abbrev done : WorkflowCompleted
done = record { id = "1"; workflow_fn_name = "order"; result = some (string "paid" ∷ nil ∷ []) }

abbrev serde : Serde
serde = record {
  events = record {
    decode_event = λ k b. ok (workflow_completed done);
    decode_keys = λ b. err "unused";
  };
  serialize_workflow_task = λ t. ok (7 ∷ []);
  serialize_activity_task = λ t. ok (8 ∷ []);
  serialize_values = λ vs. ok (9 ∷ []);
  deserialize_values = λ b. ok [];
}

abbrev msg : Msg
msg = record {
  subject = "history.1";
  payload = 1 ∷ [];
  event_header = "workflow/completed";
  metadata = ok (record { consumer_sequence = 9; timestamp_ms = pos 1000 });
}

abbrev broker : JetStream
broker = record {
  key_value = λ b. err "no bucket";
  publish_msg = λ s b i. none;
  fetch_history = λ s n. ok [];
}

abbrev plain : Any → String
plain v = ""

abbrev watchers : Update → Watchers
watchers u bucket = ok (λ key. ok (u ∷ Client.put (some (9 ∷ [])) ∷ []))

abbrev watcher : Update → String → Result (List Update)
watcher u key = ok (u ∷ Client.put (some (9 ∷ [])) ∷ [])

decoded : decode_workflow_event serde.events msg ≡ ok (workflow_completed done)
unfolding decode_workflow_event event_type decode_as lookup event_name
decoded = refl

get_result-value_example :
    Stores plain converter values_of
      (watchers initial_done)
      broker
      serde
      msg
      done
      (9 ∷ [])
      ""
      (initial_done ∷ [])
      []
      decoded
      refl
      (watcher initial_done, refl, refl)
      tt
    × (get_result plain converter values_of "1" "" (watchers initial_done) (some "string")
        ≡ ok (some (string "paid")))
get_result-value_example =
    get_result-value plain converter values_of (watchers initial_done) broker serde msg done
      (9 ∷ []) "" (initial_done ∷ []) [] decoded refl (watcher initial_done, refl, refl) tt
      (string "paid") (string "paid") (6 ∷ []) "string" (λ e. ground (arith, e)) refl refl refl

abbrev uuid : String
uuid = "01932f7e-7c30-7000-8000-000000000001"

-- A serializer that knows one reply.
abbrev reply_bytes : StartWorkflowReply → Result Bytes
reply_bytes r = if r.error == "" && r.workflow_id == uuid then ok (1 ∷ []) else err "unsupported"

abbrev reply_of_bytes : Bytes → Result StartWorkflowReply
reply_of_bytes [] = err "EOF"
reply_of_bytes (b ∷ bs) = ok (record { error = ""; workflow_id = uuid })

abbrev command_bytes : Command → Result Bytes
command_bytes c =
    if c.command_type == "StartWorkflow" then ok (5 ∷ c.attributes) else err "unsupported"

abbrev command_of : Bytes → Result Command
command_of [] = err "EOF"
command_of (b ∷ bs) = ok (record { command_type = "StartWorkflow"; attributes = bs })

abbrev attributes_bytes : StartWorkflowAttributes → Result Bytes
attributes_bytes a = if a.workflow_fn_name == "order" then ok (4 ∷ []) else err "unsupported"

abbrev attributes_of : Bytes → Result StartWorkflowAttributes
attributes_of [] = err "EOF"
attributes_of (b ∷ bs) = ok (record { workflow_fn_name = "order"; input = nil ∷ [] })

abbrev conv : CommandSerde
conv = record {
  deserialize_command = command_of;
  deserialize_attributes = attributes_of;
  serialize_reply = reply_bytes;
  serialize_input = λ vs. ok (2 ∷ []);
  serialize_started = λ e. ok (3 ∷ []);
}

abbrev bucket : Bucket
bucket = record { get = λ key. err "nats: key not found"; put = λ key value. none }

abbrev manager : History
manager = record { key_value = λ b. ok bucket; publish_msg = λ msg. none }

abbrev utf8 : String → Bytes
utf8 m = []

abbrev conn : StartConn
conn = record {
  serialize_attributes = attributes_bytes;
  serialize_command = command_bytes;
  deserialize_reply = reply_of_bytes;
  request = λ subject bytes. response utf8 (handle_request conv (ok manager) uuid bytes);
}

reads :
    (r : StartWorkflowReply) (bytes : Bytes)
    → reply_bytes r ≡ ok bytes
    → reply_of_bytes bytes ≡ ok r
reads r [] h = ground (arith, h)
reads r (b ∷ bs) h =
    let e : r.error ≡ "" = ground (arith, h, eq_iff r.error "") in
    let i : r.workflow_id ≡ uuid = ground (arith, h, eq_iff r.workflow_id uuid) in
    ap ok (
      ap (λ s. record { error = s; workflow_id = uuid }) (sym e)
      ∙ ap (λ s. record { error = r.error; workflow_id = s }) (sym i))

abbrev canonical : String → String
canonical id = id

-- The serializer of this example keeps of an input that it is there.
abbrev seen : List Any → List Any
seen vs = nil ∷ []

command_read : (c : Command) (bytes : Bytes) → command_bytes c ≡ ok bytes → command_of bytes ≡ ok c
command_read c [] h = ground (arith, h)
command_read c (b ∷ bs) h =
    let e : c.command_type ≡ "StartWorkflow" =
      ground (arith, h, eq_iff c.command_type "StartWorkflow") in
    let t : bs ≡ c.attributes = ground (arith, h) in
    ap ok (
      ap (λ s. record { command_type = s; attributes = bs }) (sym e)
      ∙ ap (λ s. record { command_type = c.command_type; attributes = s }) t)

attributes_read :
    (a : StartWorkflowAttributes) (bytes : Bytes)
    → attributes_bytes a ≡ ok bytes
    → attributes_of bytes
      ≡ ok (record { workflow_fn_name = a.workflow_fn_name; input = seen a.input })
attributes_read a [] h = ground (arith, h)
attributes_read a (b ∷ bs) h =
    let e : a.workflow_fn_name ≡ "order" = ground (arith, h, eq_iff a.workflow_fn_name "order") in
    ap (λ s. ok (record { workflow_fn_name = s; input = nil ∷ [] })) (sym e)

starts : execute_workflow conn canonical (ok "order") (nil ∷ []) ≡ future uuid
unfolding execute_workflow Client.start_workflow execution_of handle_request start_workflow
    with_reply with_bucket store_input publish_started
starts = refl

execute_workflow-Launched_example :
    (inner bytes : Bytes) × ((conn.serialize_attributes
          (record { workflow_fn_name = "order"; input = nil ∷ [] })
        ≡ ok inner)
      × (conn.serialize_command (record { command_type = "StartWorkflow"; attributes = inner })
          ≡ ok bytes))
    × Launched conv
        (ok manager)
        uuid
        (record { workflow_fn_name = "order"; input = nil ∷ [] })
        (handle_request conv (ok manager) uuid bytes)
    × (uuid ≡ uuid)
execute_workflow-Launched_example =
    execute_workflow-Launched conv (ok manager) uuid utf8 conn canonical reads
      (λ m. (("EOF", refl), ("EOF", refl))) (λ bytes. refl) command_read seen attributes_read
      "order" (nil ∷ []) uuid starts
