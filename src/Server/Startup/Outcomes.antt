-- ===== src/Server/Startup/Outcomes.antt =====
-- What a start of the manager comes to.
use durablefuture.Prelude.{◌≡◌, ◌≢◌, String, Option, none, some, Bool, true, false, ok, err}
use durablefuture.Server.Broker.{workflow_input_bucket, workflow_result_bucket}
use durablefuture.Server.Config.{NatsConfig}
use durablefuture.Server.Setup.{
  StreamConfig, history_config, workflow_tasks_config, activity_tasks_config,
}
use durablefuture.Server.Setup.Kept.{Documented, settled_config}
use durablefuture.Server.Setup.Buckets.{DocumentedBuckets, ensure_buckets, ensure_buckets-none}
use durablefuture.Server.Startup.{Nats, Launch, connect_options}

module _ {S : Type 0} (nats : Nats S) (config : String → S → Option StreamConfig)
    (holds : String → S → Bool) where
  -- The server has what a manager needs; `s` is how it was.
  pub record Ready (s s' : S) : Type 0 where
    pub history :
        config history_config.name s'
        ≡ some (settled_config history_config (config history_config.name s))
    pub workflow_tasks :
        config workflow_tasks_config.name s'
        ≡ some (settled_config workflow_tasks_config (config workflow_tasks_config.name s))
    pub activity_tasks :
        config activity_tasks_config.name s'
        ≡ some (settled_config activity_tasks_config (config activity_tasks_config.name s))
    pub results : holds workflow_result_bucket s' ≡ true
    pub inputs : holds workflow_input_bucket s' ≡ true

  -- The four ways in which a start ends.
  pub data Ends (cfg : NatsConfig) (http_port : String) (s : S) : Launch S → Type 0 where
    running :
        (s' : S)
        → nats.dial (connect_options cfg) ≡ ok true
        → Ready s s'
        → Ends cfg http_port s (record { outcome = ok http_port; left_open = true; server = s' })
    unreachable :
        (m : String)
        → Ends cfg http_port s (record { outcome = err m; left_open = false; server = s })
    disconnected :
        nats.dial (connect_options cfg) ≡ ok false
        → Ends cfg http_port s (record {
          outcome = err "cannot connect to NATS instance";
          left_open = true;
          server = s;
        })
    undone :
        (m : String) (s' : S)
        → nats.dial (connect_options cfg) ≡ ok true
        → Ends cfg http_port s (record { outcome = err m; left_open = false; server = s' })

  module _ (stream_law : Documented nats.streams config)
      (bucket_law : DocumentedBuckets nats.buckets config holds) (cfg : NatsConfig)
      (http_port : String) (s : S) where
    not_bucket :
        (name : String)
        → name ≢ "KV_workflow-result"
        → name ≢ "KV_workflow-input"
        → (t s' : S) → ensure_buckets nats.buckets t ≡ (none, s')
        → config name s' ≡ config name t
    not_bucket name ne ne' t s' e =
        (ensure_buckets-none nats.buckets bucket_law t s' e).2 name ne ne'
