-- ===== src/Server/Examples/Startups.antt =====
-- The theorems on the manager's start-up and its demo page, at a concrete environment.
use durablefuture.Prelude.{
  ◌≡◌, ◌≢◌, ◌⊎◌, ◌↔◌, refl, String, List, [], ◌∷◌, none, some, Bool, true, Result, ok, err, arith,
  eq_iff, length,
}
use durablefuture.Prelude.Dict.{lookup, insert}
use durablefuture.Prelude.Int.{ℤ, pos, leb_ℤ}
use durablefuture.Prelude.Words.{atoi, trim_space, to_lower, strip_prefix, split, cut}
use durablefuture.Api.Values.{nil}
use durablefuture.Server.Config.{Config, default_config, default_nats, load_config, validate}
use durablefuture.Server.Config.Validity.{IsValid, load_config_iff, with_default_url}
use durablefuture.Server.Logging.{
  stdout, stderr, file, LoggerConfig, writers, parse_extra_fields, log_level, add_fields, add_field,
  parse_level, add_entries, add_entry, add_named, add_file, add_writer, open_file,
}
use durablefuture.Server.Logger.{Handler, LoggerOptions, new_logger, format_of, multi_enabled}
use durablefuture.Server.Logger.Levels.{least_level, new_logger-enabled}
use durablefuture.Server.Demo.{WorkflowState, DemoSerde, EventMsg, handle_event}
use durablefuture.Server.Demo.Steps.{WellFormed}
use durablefuture.Server.Demo.Page.{
  Page, new_page, Commands, no_workflow, state, get_status, start_workflow, Reachable, fresh, next,
  start, event,
}
use durablefuture.Server.Demo.Page.Consistent.{get_status-Consistent}

-- An environment that names the service and the address of the HTTP server.
abbrev parsed : Config
parsed = record default_config {
  service = "durablefuture";
  version = "v1";
  mode = "debug";
  server = record { host = "0.0.0.0"; port = "8080" };
}

abbrev parse : Config → Result Config
parse c = ok parsed

abbrev loaded : Config
loaded = record parsed { nats = record default_nats { url = "nats://localhost:4222" } }

loads : load_config parse ≡ ok loaded
unfolding load_config validate atoi
loads = refl

loaded-IsValid : IsValid loaded
loaded-IsValid = let (raw, parses, same, v) = (load_config_iff parse loaded).0 loads in v

-- Without a service the environment is refused.
refuses :
    load_config (λ c. ok default_config) ≡ err "invalid configuration: service name is required"
unfolding load_config validate
refuses = refl

load_config_iff_example : (load_config parse ≡ ok loaded) ↔ (
    (raw : Config) × (parse default_config ≡ ok raw)
    × (with_default_url raw ≡ loaded)
    × IsValid loaded)
load_config_iff_example = load_config_iff parse loaded

abbrev logging : LoggerConfig
logging = record {
  level = "WARN";
  format = "pretty";
  output = "stderr, file:/var/log/df.log,stderr";
  file_path = "";
  extra_fields_raw = "region=eu, =x,team = core";
  otel_exporter = "";
  otel_endpoint = "";
  held = none;
}

abbrev opens : String → Bool
opens path = true

logs_to : (writers opens logging).0 ≡ stderr ∷ file "/var/log/df.log" ∷ []
unfolding writers add_entries add_entry add_named add_file add_writer open_file trim_space to_lower
    strip_prefix split
logs_to = refl

fields : parse_extra_fields logging ≡ ("region", "eu") ∷ ("team", "core") ∷ []
unfolding parse_extra_fields add_fields add_field split cut trim_space insert
fields = refl

warns : log_level logging ≡ pos 4
unfolding log_level parse_level trim_space to_lower
warns = refl

abbrev no_exporter : String → String → Result (ℤ → Bool)
no_exporter protocol endpoint = err "no exporter"

abbrev options : LoggerOptions
options = record {
  service_name = "durablefuture";
  version = "v1";
  mode = "debug";
  writers = stdout ∷ file "/var/log/df.log" ∷ [];
  level = pos 8;
  format = "auto";
  otel_exporter = "";
  otel_endpoint = "";
}

not_release : ◌≢◌ {A = String} "debug" "release"
not_release = ground (arith, eq_iff "debug" "release")

-- The level Error is configured, and Info is taken.
new_logger-enabled_example :
    (hs : List Handler) × (new_logger no_exporter true options ≡ ok hs)
    × (length hs ≡ length options.writers)
    × ((level : ℤ) → multi_enabled level hs ≡ leb_ℤ (least_level options) level)
new_logger-enabled_example =
    new_logger-enabled no_exporter true options stdout (file "/var/log/df.log" ∷ []) not_release
      refl

takes_info : leb_ℤ (least_level options) (pos 0) ≡ true
unfolding format_of to_lower
takes_info = refl

-- A manager that answers every request with workflow 1.
abbrev commands : Commands
commands = record {
  serialize_attributes = λ a. ok (1 ∷ []);
  serialize_command = λ c. ok (2 ∷ []);
  request = λ subject b. ok (3 ∷ []);
  deserialize_reply = λ b. ok (record { error = ""; workflow_id = "1" });
  amount = nil;
}

abbrev serde : DemoSerde
serde = record {
  base_id = λ b. ok "1";
  scheduled = λ b. err "EOF";
  completed = λ b. err "EOF";
  failed = λ b. err "EOF";
  retried = λ b. err "EOF";
  workflow_completed = λ b. err "EOF";
  workflow_failed = λ b. err "EOF";
  to_json = λ v. [];
}

abbrev starting : EventMsg
starting = record { event_header = "workflow/started"; payload = 1 ∷ [] }

abbrev shown : Page
shown = (start_workflow commands (pos 5) "POST" "order-5" new_page).1

shown-Reachable : Reachable shown
shown-Reachable = next fresh (start commands (pos 5) "POST" "order-5" new_page)

abbrev running : Page
running = record shown { states = handle_event serde (pos 6) starting shown.states }

get_status-Consistent_example :
    (get_status running ≡ no_workflow × running.states ≡ [])
    ⊎ ((s : WorkflowState) × ((get_status running ≡ state s)
          × (lookup running.current_workflow running.states ≡ some s)
          × WellFormed s))
get_status-Consistent_example =
    get_status-Consistent (next shown-Reachable (event serde (pos 6) starting shown))

answers : get_status new_page ≡ no_workflow
unfolding get_status lookup
answers = refl
