-- ===== src/Server/Setup.antt =====
-- `EnsureStream` of internal/server/infra/jetstream/nats_conn.go and `ensureStreams` of
-- internal/server/app/bootstrap.go: the streams that the manager sets up when it starts.
pub mod Kept
pub mod Buckets
use durablefuture.Prelude.{
  ◌≡◌, ◌≢◌, String, List, [], ◌∷◌, Option, none, some, Result, ok, err, concat,
}

-- `RetentionPolicy`.
pub data Retention : Type 0 where
  limits interest work_queue : Retention

-- `StorageType`.
pub data Storage : Type 0 where
  file memory : Storage

-- The fields of `jetstream.StreamConfig` that the code sets.
pub record StreamConfig : Type 0 where
  pub name : String
  pub subjects : List String
  pub retention : Retention
  pub storage : Storage

abbrev pub history_config : StreamConfig
history_config = record {
  name = "WORKFLOW_HISTORY";
  subjects = "history.>" ∷ [];
  retention = limits;
  storage = file;
}

abbrev pub workflow_tasks_config : StreamConfig
workflow_tasks_config = record {
  name = "WORKFLOW_TASKS";
  subjects = "workflow.*.tasks" ∷ [];
  retention = work_queue;
  storage = file;
}

abbrev pub activity_tasks_config : StreamConfig
activity_tasks_config = record {
  name = "ACTIVITY_TASKS";
  subjects = "activity.*.tasks" ∷ [];
  retention = work_queue;
  storage = file;
}

-- What `js.Stream` and `js.KeyValue` come to: the resource, the error that it is not there, or
-- another error.
pub data Found (A : Type 0) : Type 0 where
  found : A → Found A
  not_found : Found A
  unknown : String → Found A

-- JetStream's administration of streams over a state of the server. An operation that fails leaves the
-- state; `info` is the configuration that `stream.Info` reads.
pub record Streams (S : Type 0) : Type 0 where
  pub stream : String → S → Found StreamConfig
  pub info : String → S → Result StreamConfig
  pub create_stream : StreamConfig → S → Result S
  pub update_stream : StreamConfig → S → Result S

abbrev pub kept_retention : Retention → Retention
kept_retention work_queue = work_queue
kept_retention r = r

-- How a call that changes the server ends, and how `ensureStreams` words an error of a call.
module _ {S : Type 0} where
  abbrev pub changed : String → S → Result S → Option String × S
  changed what s (ok s') = (none, s')
  changed what s (err m) = (some (concat (what ∷ m ∷ [])), s)

  abbrev pub prefixed : String → Option String × S → Option String × S
  prefixed what (none, s) = (none, s)
  prefixed what (some m, s) = (some (concat (what ∷ m ∷ [])), s)

module _ {S : Type 0} (js : Streams S) where
  -- The part of an existing stream: its retention stays.
  unfoldable pub update_existing : StreamConfig → S → Option String × S
  update_existing cfg s = elim (js.info cfg.name s) [
    | err m ↦ (some (concat ("failed to get stream info " ∷ cfg.name ∷ ": " ∷ m ∷ [])), s)
    | ok old ↦
        changed (concat ("failed to update stream " ∷ cfg.name ∷ ": " ∷ [])) s
          (js.update_stream (record cfg { retention = kept_retention old.retention }) s)
  ]

  -- The error, if there is one, and the state behind the call.
  unfoldable pub ensure_stream : StreamConfig → S → Option String × S
  ensure_stream cfg s = elim (js.stream cfg.name s) [
    | unknown m ↦ (some (concat ("failed to get stream " ∷ cfg.name ∷ " info: " ∷ m ∷ [])), s)
    | not_found ↦
        changed (concat ("failed to create stream " ∷ cfg.name ∷ ": " ∷ [])) s
          (js.create_stream cfg s)
    | found old ↦ update_existing cfg s
  ]

  -- One step of `ensureStreams`, which is taken only if those before it succeeded.
  abbrev pub then_ensure : String → StreamConfig → Option String × S → Option String × S
  then_ensure what cfg (some m, s) = (some m, s)
  then_ensure what cfg (none, s) = prefixed what (ensure_stream cfg s)

  unfoldable pub ensure_streams : S → Option String × S
  ensure_streams s = then_ensure "failed to ensure activity tasks stream: " activity_tasks_config (
      then_ensure "failed to ensure workflow tasks stream: " workflow_tasks_config
        (then_ensure "failed to ensure workflow history stream: " history_config (none, s)))
