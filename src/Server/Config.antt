-- ===== src/Server/Config.antt =====
-- internal/server/config/config.go and nats.go, and the part of `Run` of internal/server/app/run.go that
-- settles the configuration.
pub mod Validity
use durablefuture.Prelude.{
  ℕ, String, List, [], ◌∷◌, Option, none, some, Bool, true, false, Result, ok, err, concat, ◌==◌,
  with_prefix, ◌>>=◌, if◌then◌else◌,
}
use durablefuture.Prelude.Int.{ℤ, pos, negsuc, ltb_ℤ, leb_ℤ}
use durablefuture.Prelude.Words.{atoi}

-- Durations are int64 numbers of nanoseconds.
pub record NatsConfig : Type 0 where
  pub url : String
  pub host : String
  pub port : String
  pub max_reconnects : ℤ
  pub reconnect_wait : ℤ
  pub drain_timeout : ℤ
  pub ping_interval : ℤ
  pub max_pings_out : ℤ
  pub client_name : String

pub record ServerConfig : Type 0 where
  pub host : String
  pub port : String

-- The configuration but for the logger's part, which is in Server/Logging.
pub record Config : Type 0 where
  pub service : String
  pub version : String
  pub mode : String
  pub nats : NatsConfig
  pub server : ServerConfig
  pub request_timeout : ℤ

-- What `LoadConfig` sets before it reads the environment; the rest is Go's zero values.
abbrev pub default_nats : NatsConfig
default_nats = record {
  url = "";
  host = "localhost";
  port = "4222";
  max_reconnects = negsuc 0;
  reconnect_wait = pos 2000000000;
  drain_timeout = pos 30000000000;
  ping_interval = pos 120000000000;
  max_pings_out = pos 2;
  client_name = "durablefuture";
}

abbrev pub default_config : Config
default_config = record {
  service = "";
  version = "";
  mode = "";
  nats = default_nats;
  server = record { host = ""; port = "" };
  request_timeout = pos 10000000000;
}

abbrev pub is_none {ℓ} : {A : Type ℓ} → Option A → Bool
is_none none = true
is_none (some a) = false

-- A row of tests, each of which ends the validation with its error.
abbrev pub first_error : List (Bool × String) → Option String
first_error [] = none
first_error ((fails, m) ∷ checks) =
    let later = first_error checks in if fails then some m else later

abbrev pub checks : Config → List (Bool × String)
checks c =
    (c.service == "", "service name is required")
    ∷ (c.version == "", "version is required")
    ∷ (c.nats.host == "", "NATS host is required")
    ∷ (c.nats.port == "", "NATS port is required")
    ∷ (
      is_none (atoi c.nats.port),
      concat ("invalid NATS port '" ∷ c.nats.port ∷ "': must be a number" ∷ []),
    )
    ∷ (c.nats.url == "", "NATS URL is required")
    ∷ (ltb_ℤ c.nats.max_reconnects (negsuc 0), "NATS max reconnects must be >= -1")
    ∷ (leb_ℤ c.nats.reconnect_wait (pos 0), "NATS reconnect wait must be positive")
    ∷ (leb_ℤ c.nats.drain_timeout (pos 0), "NATS drain timeout must be positive")
    ∷ (c.server.host == "", "server host is required")
    ∷ (c.server.port == "", "server port is required")
    ∷ (
      is_none (atoi c.server.port),
      concat ("invalid server port '" ∷ c.server.port ∷ "': must be a number" ∷ []),
    )
    ∷ []

-- `Validate`: the error, if there is one.
unfoldable pub validate : Config → Option String
validate c = first_error (checks c)

abbrev pub nats_url : String → String → String
nats_url host port = concat ("nats://" ∷ host ∷ ":" ∷ port ∷ [])

abbrev pub with_url : NatsConfig → NatsConfig
with_url n = if n.url == "" then record n { url = nats_url n.host n.port } else n

abbrev validated : Config → Option String → Result Config
validated c none = ok c
validated c (some m) = err (concat ("invalid configuration: " ∷ m ∷ []))

-- `Options`: the flags of the command line, which replace the host and the port. The URL is made from
-- them.
module _ (nats_host nats_port : String) where
  abbrev overridden : String → String → String
  overridden flag value = if flag == "" then value else flag

  unfoldable pub with_options : Config → Config
  with_options c =
      let host = overridden nats_host c.nats.host in
      let port = overridden nats_port c.nats.port in
      record c { nats = record c.nats { host = host; port = port; url = nats_url host port } }

-- `parse` is package env's `Parse`, which reads the environment into a configuration.
module _ (parse : Config → Result Config) where
  unfoldable pub load_config : Result Config
  load_config = with_prefix "failed to parse config: " (parse default_config) >>= λ c.
      let c' = record c { nats = with_url c.nats } in validated c' (validate c')

  -- The configuration that `Run` starts the manager with.
  unfoldable pub run_config : String → String → Result Config
  run_config nats_host nats_port = load_config >>= λ c. ok (with_options nats_host nats_port c)
