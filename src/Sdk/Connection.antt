-- ===== src/Sdk/Connection.antt =====
-- How the SDK comes to a connection: `from`, `Connect`, `WrapExisting` and `EnsureConsumer` of
-- sdk/internal/protocol/nats/nats.go, and `NewClient` of sdk/internal/client.go.
use durablefuture.Prelude.{
  String, [], ◌∷◌, Option, none, some, Bool, true, false, Result, ok, err, concat, ◌==◌,
  if◌then◌else◌,
}
use durablefuture.Prelude.Int.{ℤ}
use durablefuture.Prelude.Words.{trim_space}
use durablefuture.Sdk.Delivery.{ConsumerConfig}

-- `Conn`, by the namespace of its identifier manager. Its serializer is not nil, without which `from`
-- panics.
pub record Conn : Type 0 where
  pub ns : String

-- A connection of NATS behind a call: the result, and whether it is left open.
pub record Opened (A : Type 0) : Type 0 where
  pub outcome : Result A
  pub left_open : Bool

-- What `nats.Connect` is given: the URL, and the options that are values.
pub record ConnectOptions : Type 0 where
  pub endpoint : String
  pub name : String
  pub max_reconnects : ℤ
  pub reconnect_wait : ℤ
  pub drain_timeout : ℤ
  pub ping_interval : ℤ
  pub max_pings_outstanding : ℤ

-- The name of a client that the configuration gives none.
abbrev pub with_client_name : ConnectOptions → ConnectOptions
with_client_name o = if o.name == "" then record o { name = "durablefuture-sdk" } else o

-- `jetstream_error` is the error of `jetstream.New`, if there is one.
module _ (jetstream_error : Option String) where
  unfoldable pub conn_from : String → Opened Conn
  conn_from namespace = elim jetstream_error [
    | none ↦ record { outcome = ok (record { ns = trim_space namespace }); left_open = true }
    | some m ↦ record {
      outcome = err (concat ("failed to create JetStream context: " ∷ m ∷ []));
      left_open = false;
    }
  ]

  -- `dial` is the error of `nats.Connect`, if there is one. A nil configuration is `none`.
  unfoldable pub connect :
      (ConnectOptions → Option String) → Option ConnectOptions → String → Opened Conn
  unfolding conn_from
  connect dial none namespace = record {
    outcome = err "natz: nil config provided";
    left_open = false;
  }
  connect dial (some o) namespace = elim (dial (with_client_name o)) [
    | some m ↦ record {
      outcome = err (concat ("failed to connect to NATS at " ∷ o.endpoint ∷ ": " ∷ m ∷ []));
      left_open = false;
    }
    | none ↦ conn_from namespace
  ]

  -- `given` tells that there are options, with a connection that is not nil.
  unfoldable pub wrap_existing : Bool → String → Opened Conn
  unfolding conn_from
  wrap_existing false namespace = record {
    outcome = err "natz: nil connection provided";
    left_open = false;
  }
  wrap_existing true namespace = conn_from namespace

  unfoldable pub new_client : Bool → String → Opened Conn
  unfolding wrap_existing
  new_client false namespace = record {
    outcome = err "client options must include an established NATS connection";
    left_open = false;
  }
  new_client true namespace = wrap_existing true namespace

-- JetStream's administration of consumers: `stream` and `consumer` are the errors of finding a stream
-- and a consumer of it, `create_or_update` that of making one.
pub record Consumers : Type 0 where
  pub stream : String → Option String
  pub consumer : String → String → Option String
  pub create_or_update : ConsumerConfig → Option String

module _ (js : Consumers) where
  abbrev created : ConsumerConfig → Option String → Option String
  created cfg none = none
  created cfg (some m) = some (
      concat (
        "failed to create/update consumer " ∷ cfg.name ∷ " on stream " ∷ cfg.stream ∷ ": " ∷ m
        ∷ []))

  -- The error, if there is one: a consumer that is there is taken as it is.
  unfoldable pub ensure_consumer : ConsumerConfig → Option String
  ensure_consumer cfg = elim (js.stream cfg.stream) [
    | some m ↦
        some (concat ("failed to get stream " ∷ cfg.stream ∷ " for consumer creation: " ∷ m ∷ []))
    | none ↦ elim (js.consumer cfg.stream cfg.name) [
      | none ↦ none
      | some missing ↦ created cfg (js.create_or_update cfg)
    ]
  ]
