-- ===== src/Sdk/Delivery.antt =====
-- sdk/internal/protocol/nats/task_processor.go: how tasks reach a worker. `ReceiveTask` makes the
-- consumers; its goroutines, the handlers that the broker calls, and the reader of the channel take
-- turns, so they are a step relation on what they share.
pub mod Accounts
pub mod Shutdown
pub mod Drains
pub mod Start
use durablefuture.Prelude.{
  ℕ, ◌<◌, ◌+◌, ◌≡◌, String, List, [], ◌∷◌, ◌++◌, Option, none, some, Bool, true, false, not, ◌&&◌,
  Result, ok, err, length, if◌then◌else◌,
}
use durablefuture.Api.Tasks.{Bytes, Task}
use durablefuture.Sdk.Names.{
  workflow_task_stream_name, activity_task_stream_name, workflow_task_filter_subject,
  activity_task_filter_subject,
}

-- The two consumers, by the type of their tasks.
pub data TaskKind : Type 0 where
  workflow activity : TaskKind

-- The stream and the fields of `jetstream.ConsumerConfig` that the code sets. The policy is explicit
-- acknowledgement in both.
pub record ConsumerConfig : Type 0 where
  pub stream : String
  pub name : String
  pub durable : String
  pub filter_subject : String

abbrev pub workflow_task_worker_consumer : String
workflow_task_worker_consumer = "worker-workflow-tasks"

abbrev pub activity_task_worker_consumer : String
activity_task_worker_consumer = "worker-activity-tasks"

unfoldable pub consumer_config : String → TaskKind → ConsumerConfig
consumer_config ns workflow = record {
  stream = workflow_task_stream_name ns;
  name = workflow_task_worker_consumer;
  durable = workflow_task_worker_consumer;
  filter_subject = workflow_task_filter_subject ns;
}
consumer_config ns activity = record {
  stream = activity_task_stream_name ns;
  name = activity_task_worker_consumer;
  durable = activity_task_worker_consumer;
  filter_subject = activity_task_filter_subject ns;
}

-- What the call of `EnsureConsumer` for an enabled kind comes to, given those before it.
module _ (ensure : ConsumerConfig → Option String) (ns : String) where
  unfoldable pub add_consumer : Bool → TaskKind → Result (List TaskKind) → Result (List TaskKind)
  add_consumer enabled kind (err m) = err m
  add_consumer false kind (ok kinds) = ok kinds
  add_consumer true kind (ok kinds) = elim (ensure (consumer_config ns kind)) [
    | some m ↦ err m
    | none ↦ ok (kinds ++ kind ∷ [])
  ]

  -- `ReceiveTask`, up to the goroutines: the handles of the consumers, or an error.
  unfoldable pub receive_task : Bool → Bool → Result (List TaskKind)
  receive_task include_workflow include_activity =
      if not include_workflow && not include_activity
      then err "at least one task type must be enabled"
      else add_consumer include_activity activity (add_consumer include_workflow workflow (ok []))

-- A message, of the stream of one type of tasks; its sequence number tells it from others.
pub record Delivered : Type 0 where
  pub stream : TaskKind
  pub seq : ℕ
  pub bytes : Bytes

-- `TaskToken`: the task, and the message that its closures answer.
pub record TaskToken : Type 0 where
  pub task : Task
  pub msg : Delivered

-- What the goroutines share. `unadded` are the handles that the loop has not reached, `starting` the
-- goroutines before `Consume`, `consuming` those behind it; the wait group counts both. `done` is the
-- worker's context and `cancelled` the consumers', which ends with it. `blocked` are the handlers in the `select` of `enqueueTask`. The rest is a record of what was done: messages that
-- came, tokens passed to the callback, and messages refused and terminated.
pub record Receiver : Type 0 where
  pub unadded : List TaskKind
  pub starting : List TaskKind
  pub consuming : List TaskKind
  pub done : Bool
  pub cancelled : Bool
  pub closed : Bool
  pub reading : Bool
  pub crashed : Bool
  pub blocked : List TaskToken
  pub fetched : List Delivered
  pub passed : List TaskToken
  pub refused : List TaskToken
  pub terminated : List Delivered

abbrev pub initial : List TaskKind → Receiver
initial kinds = record {
  unadded = kinds;
  starting = [];
  consuming = [];
  done = false;
  cancelled = false;
  closed = false;
  reading = true;
  crashed = false;
  blocked = [];
  fetched = [];
  passed = [];
  refused = [];
  terminated = [];
}

-- The counter of the wait group.
abbrev pub wait_count : Receiver → ℕ
wait_count r = length r.starting + length r.consuming

-- The handler of a consumer: a message that does not decode is terminated, any other goes to
-- `enqueueTask`.
module _ (decode : TaskKind → Bytes → Result Task) where
  unfoldable pub handle_message : TaskKind → Delivered → Receiver → Receiver
  handle_message kind m r = elim (decode kind m.bytes) [
    | err e ↦ record r { fetched = m ∷ r.fetched; terminated = m ∷ r.terminated }
    | ok t ↦ record r {
      fetched = m ∷ r.fetched;
      blocked = record { task = t; msg = m } ∷ r.blocked;
    }
  ]

  -- One step of one of them, with the condition under which it can be taken. Nothing is taken behind
  -- a panic, which ends the process.
  pub data Step : Receiver → Receiver → Type 0 where
    -- The loop over the handles: `wg.Add(1)`, and a goroutine.
    add :
        (r : Receiver) (kind : TaskKind) (rest : List TaskKind)
        → r.unadded ≡ kind ∷ rest
        → Step r (record r { unadded = rest; starting = kind ∷ r.starting })
    -- `Consume` succeeds, or fails, which cancels and ends the goroutine.
    consume :
        (r : Receiver) (front back : List TaskKind) (kind : TaskKind)
        → r.starting ≡ front ++ kind ∷ back
        → Step r (record r { starting = front ++ back; consuming = kind ∷ r.consuming })
    consume_fails :
        (r : Receiver) (front back : List TaskKind) (kind : TaskKind)
        → r.starting ≡ front ++ kind ∷ back
        → Step r (record r { starting = front ++ back; cancelled = true })
    -- `<-consumerCtx.Done()`.
    stop :
        (r : Receiver) (front back : List TaskKind) (kind : TaskKind)
        → r.consuming ≡ front ++ kind ∷ back
        → r.cancelled ≡ true
        → Step r (record r { consuming = front ++ back })
    -- The goroutine of `wg.Wait`.
    close :
        (r : Receiver) → wait_count r ≡ 0 → r.closed ≡ false → Step r (record r { closed = true })
    -- The broker calls the handler of a consumer, with a message of the consumer's stream.
    message :
        (r : Receiver) (front back : List TaskKind) (kind : TaskKind) (m : Delivered)
        → r.consuming ≡ front ++ kind ∷ back
        → m.stream ≡ kind
        → Step r (handle_message kind m r)
    -- The three ways on from the `select` of `enqueueTask`: the reader takes the token and calls the
    -- callback; the context is done; or the channel is closed, on which a send panics.
    pass :
        (r : Receiver) (front back : List TaskToken) (t : TaskToken)
        → r.blocked ≡ front ++ t ∷ back
        → r.reading ≡ true
        → r.closed ≡ false
        → Step r (record r { blocked = front ++ back; passed = t ∷ r.passed })
    refuse :
        (r : Receiver) (front back : List TaskToken) (t : TaskToken)
        → r.blocked ≡ front ++ t ∷ back
        → r.cancelled ≡ true
        → Step r (record r { blocked = front ++ back; refused = t ∷ r.refused })
    send_closed :
        (r : Receiver) (front back : List TaskToken) (t : TaskToken)
        → r.blocked ≡ front ++ t ∷ back
        → r.closed ≡ true
        → Step r (record r { crashed = true })
    -- The worker's context is done; the reader ends on that, or on the closed channel, and cancels.
    cancel : (r : Receiver) → Step r (record r { done = true; cancelled = true })
    read_end :
        (r : Receiver) → r.closed ≡ true → Step r (record r { reading = false; cancelled = true })
    read_done :
        (r : Receiver) → r.done ≡ true → Step r (record r { reading = false; cancelled = true })

  pub data Reach (start : Receiver) : Receiver → Type 0 where
    here : Reach start start
    next : {r s : Receiver} → Reach start r → r.crashed ≡ false → Step r s → Reach start s
