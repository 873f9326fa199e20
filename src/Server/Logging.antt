-- ===== src/Server/Logging.antt =====
-- internal/server/config/logging.go: where the manager logs to, and how much.
pub mod Writers
use durablefuture.Prelude.{
  ℕ, String, List, [], ◌∷◌, ◌++◌, Option, none, some, Bool, true, false, contains, concat, ◌==◌,
  if◌then◌else◌,
}
use durablefuture.Prelude.Dict.{Dict, insert}
use durablefuture.Prelude.Int.{ℤ, pos, negsuc}
use durablefuture.Prelude.Words.{trim_space, to_lower, strip_prefix, split, cut}

-- An `io.Writer` that the code makes: a standard stream, or the file of a path.
pub data Writer : Type 0 where
  stdout stderr : Writer
  file : String → Writer

-- `LoggerConfig`; the sample rate, which the manager does not use, is left out. `held` is the field
-- `file`, none for nil.
pub record LoggerConfig : Type 0 where
  pub level : String
  pub format : String
  pub output : String
  pub file_path : String
  pub extra_fields_raw : String
  pub otel_exporter : String
  pub otel_endpoint : String
  pub held : Option Writer

-- The key under which the code tells writers apart.
abbrev pub key_of : Writer → String
key_of stdout = "stdout"
key_of stderr = "stderr"
key_of (file path) = concat ("file:" ∷ path ∷ [])

-- The writers found so far, the keys seen, and the configuration, of which a file that is opened changes
-- the path and the handle.
pub record Gathered : Type 0 where
  pub writers : List Writer
  pub seen : List String
  pub config : LoggerConfig

abbrev held_for : String → LoggerConfig → Option Writer
held_for path c = if c.file_path == path then c.held else none

abbrev text_or : String → Option String → String
text_or s none = s
text_or s (some t) = t

abbrev or_stdout : List Writer → List Writer
or_stdout [] = stdout ∷ []
or_stdout (w ∷ ws) = w ∷ ws

-- `opens` tells which files the system lets the manager open.
module _ (opens : String → Bool) where
  -- `openFile`: no writer for an empty path or where the file cannot be opened. The lock keeps others
  -- out, so the second test is the first.
  unfoldable pub open_file : String → LoggerConfig → Option Writer × LoggerConfig
  open_file path c = if path == "" then (none, c) else elim (held_for path c) [
    | some w ↦ (some w, c)
    | none ↦
        if opens path
        then (some (file path), record c { file_path = path; held = some (file path) })
        else (none, c)
  ]

  -- `addWriter`
  unfoldable pub add_writer : String → Option Writer → Gathered → Gathered
  add_writer key none out = out
  add_writer key (some w) out =
      if contains out.seen key
      then out
      else record out { seen = out.seen ++ key ∷ []; writers = out.writers ++ w ∷ [] }

  unfoldable pub add_file : String → Gathered → Gathered
  add_file path out =
      let (w, c) = open_file path out.config in
      add_writer (concat ("file:" ∷ path ∷ [])) w (record out { config = c })

  -- An entry that is not of the form `file:path`.
  unfoldable pub add_named : String → Gathered → Gathered
  add_named name out =
      if name == "stdout"
      then add_writer "stdout" (some stdout) out
      else if name == "stderr"
      then add_writer "stderr" (some stderr) out
      else if name == "file"
      then (if out.config.file_path == "" then out else add_file out.config.file_path out)
      else out

  -- One round of the loop over the entries. The prefix is tested on the lowered entry and trimmed from
  -- the entry itself.
  unfoldable pub add_entry : String → Gathered → Gathered
  add_entry raw out =
      let name = trim_space raw in
      if name == "" then out else elim (strip_prefix "file:" (to_lower name)) [
        | some rest ↦ add_file (text_or name (strip_prefix "file:" name)) out
        | none ↦ add_named (to_lower name) out
      ]

  unfoldable pub add_entries : List String → Gathered → Gathered
  add_entries [] out = out
  add_entries (raw ∷ entries) out = add_entries entries (add_entry raw out)

  -- `Writers`, with the configuration that it leaves.
  unfoldable pub writers : LoggerConfig → List Writer × LoggerConfig
  writers c =
      let outputs = trim_space c.output in
      if outputs == ""
      then (stdout ∷ [], c)
      else let out =
          add_entries (split b',' outputs) (record { writers = []; seen = []; config = c }) in
        (or_stdout out.writers, out.config)

-- One round of the loop of `ParseExtraFields`.
unfoldable pub add_field : String → Dict String → Dict String
add_field pair fields = elim (cut b'=' (trim_space pair)) [
  | none ↦ fields
  | some (k, v) ↦ if trim_space k == "" then fields else insert (trim_space k) (trim_space v) fields
]

unfoldable pub add_fields : List String → Dict String → Dict String
add_fields [] fields = fields
add_fields (pair ∷ pairs) fields = add_fields pairs (add_field pair fields)

unfoldable pub parse_extra_fields : LoggerConfig → Dict String
parse_extra_fields c =
    if c.extra_fields_raw == "" then [] else add_fields (split b',' c.extra_fields_raw) []

abbrev levels : List String
levels = "trace" ∷ "debug" ∷ "info" ∷ "warn" ∷ "error" ∷ []

unfoldable pub parse_level : LoggerConfig → String
parse_level c =
    let level = to_lower (trim_space c.level) in if contains levels level then level else "info"

-- `LogLevel`, of package slog's levels.
unfoldable pub log_level : LoggerConfig → ℤ
log_level c =
    let level = parse_level c in
    if level == "trace"
    then negsuc 7
    else if level == "debug"
    then negsuc 3
    else if level == "info"
    then pos 0
    else if level == "warn"
    then pos 4
    else if level == "error"
    then pos 8
    else pos 0
