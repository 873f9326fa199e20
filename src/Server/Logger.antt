-- ===== src/Server/Logger.antt =====
-- internal/server/logger/logger.go: the handlers that a record goes to, and the levels that they take.
-- The text that `DebugHandler` writes is not modelled.
pub mod Levels
use durablefuture.Prelude.{
  String, List, [], ◌∷◌, ◌++◌, map, Option, none, some, Bool, true, false, Result, ok, err, concat,
  ◌==◌, ◌&&◌, ◌||◌, if◌then◌else◌,
}
use durablefuture.Prelude.Int.{ℤ, pos, leb_ℤ}
use durablefuture.Prelude.Words.{to_lower}
use durablefuture.Server.Logging.{Writer}

-- `slog.Attr`, of which the code sets texts.
pub record Attr : Type 0 where
  pub key : String
  pub value : String

-- The handlers: `DebugHandler`, package slog's JSON handler, and the one of OpenTelemetry, which takes
-- the levels that its provider does.
pub data Handler : Type 0 where
  debug : Writer → List Attr → ℤ → Handler
  json : Writer → List Attr → ℤ → Handler
  otel : (ℤ → Bool) → List Attr → Handler

-- `Enabled` at a level.
unfoldable pub handler_enabled : ℤ → Handler → Bool
handler_enabled level (debug out attrs least) = leb_ℤ least level
handler_enabled level (json out attrs least) = leb_ℤ least level
handler_enabled level (otel takes attrs) = takes level

-- `WithAttrs`. The new `DebugHandler` has no level of the old one, so Go's zero, which is Info.
unfoldable pub handler_with_attrs : List Attr → Handler → Handler
handler_with_attrs more (debug out attrs least) = debug out (attrs ++ more) (pos 0)
handler_with_attrs more (json out attrs least) = json out (attrs ++ more) least
handler_with_attrs more (otel takes attrs) = otel takes (attrs ++ more)

-- `MultiHandler` is its list of handlers.
unfoldable pub multi_enabled : ℤ → List Handler → Bool
multi_enabled level [] = false
multi_enabled level (h ∷ hs) = handler_enabled level h || multi_enabled level hs

unfoldable pub multi_with_attrs : List Attr → List Handler → List Handler
multi_with_attrs more hs = map (handler_with_attrs more) hs

-- `LoggerOptions`
pub record LoggerOptions : Type 0 where
  pub service_name : String
  pub version : String
  pub mode : String
  pub writers : List Writer
  pub level : ℤ
  pub format : String
  pub otel_exporter : String
  pub otel_endpoint : String

-- The format, with `auto` resolved.
unfoldable pub format_of : LoggerOptions → String
format_of o =
    let format = to_lower o.format in
    if format == "auto" then (if o.mode == "debug" then "pretty" else "json") else format

unfoldable pub base_handler : LoggerOptions → Writer → Handler
base_handler o w =
    let format = format_of o in
    if format == "pretty" || format == "text" then debug w [] o.level else json w [] o.level

abbrev kept : Result (ℤ → Bool) → List Handler
kept (ok takes) = otel takes [] ∷ []
kept (err m) = []

-- `exporter` is OpenTelemetry's: the levels that the handler of a new exporter of a protocol and an
-- endpoint takes, or an error; `merged` tells whether the resource was made.
module _ (exporter : String → String → Result (ℤ → Bool)) (merged : Bool) where
  unfoldable pub otel_handlers : LoggerOptions → List Handler
  otel_handlers o =
      if o.mode == "release" && merged
      then kept (
          if o.otel_exporter == "otlp-http" || o.otel_exporter == "otlp-grpc"
          then exporter o.otel_exporter o.otel_endpoint
          else err (concat ("unsupported otel exporter: " ∷ o.otel_exporter ∷ [])))
      else []

  abbrev pub root_attrs : LoggerOptions → List Attr
  root_attrs o =
      record { key = "service.name"; value = o.service_name }
      ∷ record { key = "service.version"; value = o.version }
      ∷ record { key = "env"; value = o.mode }
      ∷ []

  -- The handler of the root logger, or an error. `With` gives the attributes to the handler.
  unfoldable pub new_logger : LoggerOptions → Result (List Handler)
  new_logger o = elim o.writers [
    | [] ↦ err "no log writer"
    | w ∷ ws ↦
        ok (multi_with_attrs (root_attrs o) (otel_handlers o ++ map (base_handler o) (w ∷ ws)))
  ]
