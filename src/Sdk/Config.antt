-- ===== src/Sdk/Config.antt =====
-- sdk/config/config.go: the configuration of a program that uses the SDK.
use durablefuture.Prelude.{Result, ok, ◌>>=◌}
use durablefuture.Prelude.Int.{ℤ, pos}
use durablefuture.Server.Config.{NatsConfig, default_nats, with_url}
use durablefuture.Sdk.Connection.{ConnectOptions}

-- `NATSConfig` has the fields, the defaults and the URL of the server's, but for the client's name.
pub record SdkConfig : Type 0 where
  pub nats : NatsConfig
  pub request_timeout : ℤ

abbrev pub default_sdk_config : SdkConfig
default_sdk_config = record {
  nats = record default_nats { client_name = "durablefuture-sdk" };
  request_timeout = pos 10000000000;
}

-- `Load`; `parse` is package env's `Parse`, whose error is returned as it is. Nothing is validated.
unfoldable pub load_sdk_config : (SdkConfig → Result SdkConfig) → Result SdkConfig
load_sdk_config parse = parse default_sdk_config >>= λ c. ok (record c { nats = with_url c.nats })

-- The methods by which the connection reads it.
abbrev pub options_of : SdkConfig → ConnectOptions
options_of c = record {
  endpoint = c.nats.url;
  name = c.nats.client_name;
  max_reconnects = c.nats.max_reconnects;
  reconnect_wait = c.nats.reconnect_wait;
  drain_timeout = c.nats.drain_timeout;
  ping_interval = c.nats.ping_interval;
  max_pings_outstanding = c.nats.max_pings_out;
}
