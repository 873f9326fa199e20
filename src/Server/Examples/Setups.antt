-- ===== src/Server/Examples/Setups.antt =====
-- The theorems on the set-up of streams, on a server that is a map of configurations.
use durablefuture.Prelude.{
  ◌≡◌, ◌≢◌, refl, sym, ap, subst, String, [], ◌∷◌, Option, none, some, Result, ok, err,
  ok-injective, arith, concat, Bool, true, false,
}
use durablefuture.Prelude.Dict.{Dict, lookup, insert, lookup-insert_same, lookup-insert_other}
use durablefuture.Server.Setup.{
  StreamConfig, limits, file, interest, memory, Found, found, not_found, Streams, update_existing,
  ensure_stream, ensure_streams, history_config, workflow_tasks_config, activity_tasks_config,
}
use durablefuture.Server.Setup.Buckets.{KeyValueConfig, Buckets, ensure_kv, ensure_buckets}
use durablefuture.Server.Config.{NatsConfig, default_nats, with_url}
use durablefuture.Server.Startup.{Nats, connect, new_manager}
use durablefuture.Server.Setup.Kept.{Documented, settled_config, ensure_streams-Ensured}

abbrev found_of : Option StreamConfig → Found StreamConfig
found_of none = not_found
found_of (some c) = found c

abbrev info_of : Option StreamConfig → Result StreamConfig
info_of none = err "nats: stream not found"
info_of (some c) = ok c

abbrev streams : Streams (Dict StreamConfig)
streams = record {
  stream = λ name s. found_of (lookup name s);
  info = λ name s. info_of (lookup name s);
  create_stream = λ cfg s. ok (insert cfg.name cfg s);
  update_stream = λ cfg s. ok (insert cfg.name cfg s);
}

abbrev config : String → Dict StreamConfig → Option StreamConfig
config name s = lookup name s

found_of-some : (o : Option StreamConfig) (c : StreamConfig) → found_of o ≡ found c → o ≡ some c
found_of-some none c h = ground (arith, h)
found_of-some (some d) c h = ground (arith, h)

found_of-none : (o : Option StreamConfig) → found_of o ≡ not_found → o ≡ none
found_of-none none h = refl
found_of-none (some d) h = ground (arith, h)

info_of-some : (o : Option StreamConfig) (c : StreamConfig) → info_of o ≡ ok c → o ≡ some c
info_of-some none c h = ground (arith, h)
info_of-some (some d) c h = ap some (ok-injective h)

written :
    (cfg : StreamConfig) (s s' : Dict StreamConfig)
    → ok (insert cfg.name cfg s) ≡ ok s'
    → lookup cfg.name s' ≡ some cfg
written cfg s s' h =
    subst (λ t. lookup cfg.name t ≡ some cfg) (ok-injective h) (lookup-insert_same cfg.name cfg s)

written_only :
    (cfg : StreamConfig) (s s' : Dict StreamConfig) (other : String)
    → other ≢ cfg.name
    → ok (insert cfg.name cfg s) ≡ ok s'
    → lookup other s' ≡ lookup other s
written_only cfg s s' other ne h =
    subst (λ t. lookup other t ≡ lookup other s) (ok-injective h)
      (lookup-insert_other cfg.name other cfg s (lookup other s) (λ e. ne (sym e)) refl)

documented : Documented streams config
documented = record {
  present = λ name s c h. found_of-some (lookup name s) c h;
  absent = λ name s h. found_of-none (lookup name s) h;
  informed = λ name s c h. info_of-some (lookup name s) c h;
  created = written;
  updated = written;
  created_only = written_only;
  updated_only = written_only;
}

-- The history stream is there already, with another retention.
abbrev old_history : StreamConfig
old_history = record {
  name = "WORKFLOW_HISTORY";
  subjects = [];
  retention = interest;
  storage = memory;
}

abbrev server : Dict StreamConfig
server = ("WORKFLOW_HISTORY", old_history) ∷ []

abbrev ready : Dict StreamConfig
ready =
    ("WORKFLOW_HISTORY", record history_config { retention = interest })
    ∷ ("WORKFLOW_TASKS", workflow_tasks_config)
    ∷ ("ACTIVITY_TASKS", activity_tasks_config)
    ∷ []

starts : ensure_streams streams server ≡ (none, ready)
unfolding ensure_streams ensure_stream update_existing lookup insert
starts = refl

ensure_streams-Ensured_example :
    (config history_config.name ready
      ≡ some (settled_config history_config (config history_config.name server)))
    × (config workflow_tasks_config.name ready
        ≡ some (settled_config workflow_tasks_config (config workflow_tasks_config.name server)))
    × (config activity_tasks_config.name ready
        ≡ some (settled_config activity_tasks_config (config activity_tasks_config.name server)))
ensure_streams-Ensured_example = ensure_streams-Ensured documented server ready starts

-- A bucket is a stream of its own, as in JetStream.
abbrev bucket_stream : KeyValueConfig → StreamConfig
bucket_stream cfg = record {
  name = concat ("KV_" ∷ cfg.bucket ∷ []);
  subjects = concat ("$KV." ∷ cfg.bucket ∷ ".>" ∷ []) ∷ [];
  retention = limits;
  storage = file;
}

abbrev kv_of : String → Option StreamConfig → Found KeyValueConfig
kv_of bucket none = not_found
kv_of bucket (some c) = found (record { bucket = bucket })

abbrev is_some : Option StreamConfig → Bool
is_some none = false
is_some (some c) = true

abbrev holds : String → Dict StreamConfig → Bool
holds bucket s = is_some (lookup (concat ("KV_" ∷ bucket ∷ [])) s)

abbrev buckets : Buckets (Dict StreamConfig)
buckets = record {
  key_value = λ bucket s. kv_of bucket (lookup (concat ("KV_" ∷ bucket ∷ [])) s);
  create_key_value = λ cfg s. streams.create_stream (bucket_stream cfg) s;
  update_key_value = λ cfg s. streams.update_stream (bucket_stream cfg) s;
}

abbrev nats : Nats (Dict StreamConfig)
nats = record { dial = λ o. ok true; jetstream_error = none; streams = streams; buckets = buckets }

abbrev nats_config : NatsConfig
nats_config = with_url default_nats

-- The start reaches the manager.
launches : (new_manager nats nats_config "8080" server).outcome ≡ ok "8080"
unfolding new_manager connect ensure_streams ensure_stream update_existing ensure_buckets ensure_kv
    lookup insert
launches = refl
