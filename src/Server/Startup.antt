-- ===== src/Server/Startup.antt =====
-- How the manager starts: `Connect` of internal/server/infra/jetstream/nats_conn.go and `NewManager` of
-- internal/server/app/manager.go.
pub mod Outcomes
use durablefuture.Prelude.{
  String, List, [], ◌∷◌, Option, none, some, Bool, true, false, Result, ok, err, concat, ◌==◌,
  if◌then◌else◌,
}
use durablefuture.Prelude.Int.{ℤ}
use durablefuture.Server.Config.{NatsConfig}
use durablefuture.Server.Setup.{Streams, ensure_streams}
use durablefuture.Server.Setup.Buckets.{Buckets, ensure_buckets}

-- What `nats.Connect` is given: the URL, and the options that are values.
pub record ConnectOptions : Type 0 where
  pub endpoint : String
  pub name : String
  pub max_reconnects : ℤ
  pub reconnect_wait : ℤ
  pub drain_timeout : ℤ
  pub ping_interval : ℤ
  pub max_pings_outstanding : ℤ

abbrev pub connect_options : NatsConfig → ConnectOptions
connect_options cfg = record {
  endpoint = cfg.url;
  name = if cfg.client_name == "" then "durablefuture" else cfg.client_name;
  max_reconnects = cfg.max_reconnects;
  reconnect_wait = cfg.reconnect_wait;
  drain_timeout = cfg.drain_timeout;
  ping_interval = cfg.ping_interval;
  max_pings_outstanding = cfg.max_pings_out;
}

-- The NATS client. `dial` is `nats.Connect`, with what `IsConnected` tells of the connection;
-- `jetstream_error` is the error of `jetstream.New`, if there is one. `streams` and `buckets` administer
-- a server with the states S.
pub record Nats (S : Type 0) : Type 0 where
  pub dial : ConnectOptions → Result Bool
  pub jetstream_error : Option String
  pub streams : Streams S
  pub buckets : Buckets S

-- How a start ends: the manager, of which the HTTP port is kept here, or an error; whether a connection
-- is left open; and the server.
pub record Launch (S : Type 0) : Type 0 where
  pub outcome : Result String
  pub left_open : Bool
  pub server : S

module _ {S : Type 0} (nats : Nats S) where
  -- `Connect`: whether the connection is connected, or an error, with no connection left open.
  unfoldable pub connect : NatsConfig → Result Bool
  connect cfg = elim (nats.dial (connect_options cfg)) [
    | err m ↦ err (concat ("failed to connect to NATS at " ∷ cfg.url ∷ ": " ∷ m ∷ []))
    | ok connected ↦ elim nats.jetstream_error [
      | none ↦ ok connected
      | some m ↦ err (concat ("failed to create JetStream context: " ∷ m ∷ []))
    ]
  ]

  abbrev fails : Bool → String → String → S → Launch S
  fails left_open what m s = record {
    outcome = err (concat (what ∷ m ∷ []));
    left_open = left_open;
    server = s;
  }

  -- `NewManager`, from its calls backwards. `Close` closes the connection where a call fails.
  abbrev pub with_buckets : String → Option String × S → Launch S
  with_buckets http_port (some m, s) = fails false "failed to ensure NATS KV buckets: " m s
  with_buckets http_port (none, s) = record { outcome = ok http_port; left_open = true; server = s }

  abbrev pub with_streams : String → Option String × S → Launch S
  with_streams http_port (some m, s) = fails false "failed to ensure NATS streams: " m s
  with_streams http_port (none, s) = with_buckets http_port (ensure_buckets nats.buckets s)

  abbrev pub with_connection : String → S → Result Bool → Launch S
  with_connection http_port s (err m) = fails false "failed to connect to NATS: " m s
  with_connection http_port s (ok false) = fails true "cannot connect to NATS instance" "" s
  with_connection http_port s (ok true) = with_streams http_port (ensure_streams nats.streams s)

  unfoldable pub new_manager : NatsConfig → String → S → Launch S
  new_manager cfg http_port s = with_connection http_port s (connect cfg)
