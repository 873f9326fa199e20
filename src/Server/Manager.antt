-- ===== src/Server/Manager.antt =====
-- What the manager keeps in JetStream across the commands of internal/server/handler/command: the
-- bucket of inputs and the history stream.
pub mod Inputs
pub mod Resumes
use Prim.Native.String.{count}
use mathlib.Core.List.{Memᴰ}
use durablefuture.Prelude.{
  ℕ, ◌≡◌, ◌≢◌, String, List, [], ◌∷◌, ◌++◌, Option, none, some, Result, ok, err,
}
use durablefuture.Prelude.Dict.{Dict, lookup, insert}
use durablefuture.Api.Tasks.{Bytes}
use durablefuture.Server.Broker.{Bucket}
use durablefuture.Server.Command.{
  HistoryMsg, History, CommandSerde, Request, terminate, respond, put, publish, handle_request,
}

pub record Durable : Type 0 where
  pub inputs : Dict Bytes
  pub history : List HistoryMsg

abbrev pub keep_input : Durable → String → Bytes → Option String → Durable
keep_input d key value none = record d { inputs = insert key value d.inputs }
keep_input d key value (some m) = d

abbrev pub put_in : Durable → String → Bytes → Result Bucket → Durable
put_in d key value (ok kv) = keep_input d key value (kv.put key value)
put_in d key value (err m) = d

abbrev pub keep_msg : Durable → HistoryMsg → Option String → Durable
keep_msg d msg none = record d { history = d.history ++ msg ∷ [] }
keep_msg d msg (some m) = d

-- The effect of a handler's requests: a write or a publication that the broker accepts is kept.
unfoldable pub perform : History → List Request → Durable → Durable
perform js [] d = d
perform js (put bucket key value ∷ rs) d = perform js rs (put_in d key value (js.key_value bucket))
perform js (publish msg ∷ rs) d = perform js rs (keep_msg d msg (js.publish_msg msg))
perform js (respond payload ∷ rs) d = perform js rs d
perform js (terminate ∷ rs) d = perform js rs d

-- A UUID's text has 36 characters.
abbrev pub IsUuid : String → Type 0
IsUuid i = count i ≡ 36

-- The states that commands lead to, with the ids that they were given; a new id is a UUID that was
-- not given before. Each command meets a broker of its own, which may refuse any request.
pub data Reachable (conv : CommandSerde) : Durable → List String → Type 0 where
  initial : Reachable conv (record { inputs = []; history = [] }) []
  command :
      {d : Durable} {ids : List String} (js : History) (workflow_id : String) (payload : Bytes)
      → ¬ Memᴰ workflow_id ids
      → IsUuid workflow_id
      → Reachable conv d ids
      → Reachable conv
          (perform js (handle_request conv (ok js) workflow_id payload) d)
          (workflow_id ∷ ids)

-- The bucket of inputs, as a later reader meets it.
abbrev pub found : String → Option Bytes → Result Bytes
found key none = err "nats: key not found"
found key (some value) = ok value

abbrev pub stored_bucket : Dict Bytes → Bucket
stored_bucket inputs = record {
  get = λ key. found key (lookup key inputs);
  put = λ key value. none;
}
