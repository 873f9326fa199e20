-- ===== src/Server/ActivityTasks.antt =====
-- internal/server/projection/activity_tasks.go: the activity tasks that follow from a history.
use Prim.Native.Char.{Char, code}
use durablefuture.Prelude.{
  ◌≡◌, refl, String, List, [], ◌∷◌, none, some, Bool-cases, inl, inr, ok, err, arith, concat,
  decimal, get_elem?, nat_beq, if◌then◌else◌,
}
use durablefuture.Prelude.Int.{ℤ, pos}
use durablefuture.Api.Tasks.{Bytes, ActivityTask}
use durablefuture.Api.Events.{WorkflowEvent, ActivityScheduled, activity_scheduled}
use durablefuture.Server.Decode.{Msg, Metadata, decode_workflow_event}
use durablefuture.Server.Broker.{JetStream, Serde, Action, ack, term, crash, publish_and_answer}

abbrev split_char : Char → List String → List String
split_char c [] = []
split_char c (part ∷ parts) =
    if nat_beq (code c) b'.' then "" ∷ part ∷ parts else String.◌∷◌ c part ∷ parts

-- `strings.Split(s, ".")`.
unfoldable pub split_dots : String → List String
split_dots String.[] = "" ∷ []
split_dots (String.◌∷◌ c s) = split_char c (split_dots s)

split_char-first :
    (c : Char) (parts : List String) (part : String)
    → get_elem? parts 0 ≡ some part
    → (first : String) × (get_elem? (split_char c parts) 0 ≡ some first)
split_char-first c [] part h = ground (arith, h)
split_char-first c (x ∷ xs) part h = elim (Bool-cases (nat_beq (code c) b'.')) [
  | inl e ↦ ("", rw e refl)
  | inr e ↦ (String.◌∷◌ c x, rw e refl)
]

-- A split text has a first part.
pub split_dots-first : (s : String) → (part : String) × (get_elem? (split_dots s) 0 ≡ some part)
unfolding split_dots
split_dots-first String.[] = ("", refl)
split_dots-first (String.◌∷◌ c s) =
    let (part, e) = split_dots-first s in split_char-first c (split_dots s) part e

-- The first attempt of an activity, at the time `now_ms`.
unfoldable pub first_attempt : ℤ → ActivityScheduled → ActivityTask
first_attempt now_ms e = record {
  workflow_fn = e.workflow_fn_name;
  workflow_id = e.id;
  activity_fn = e.activity_fn_name;
  input = e.input;
  last_seq = pos 0;
  attempt = pos 1;
  schedule_to_close_timeout_unix = e.schedule_to_close_timeout_unix;
  start_to_close_timeout_unix = e.start_to_close_timeout_unix;
  retry_policy = e.retry_policy;
  scheduled_at_ms = now_ms;
}

module _ (js : JetStream) (conv : Serde) (now_ms : ℤ) where
  unfoldable pub publish_activity_task : Msg → Metadata → String → Bytes → List Action
  publish_activity_task msg meta id bytes = elim (get_elem? (split_dots msg.subject) 1) [
    | none ↦ crash ∷ []
    | some part ↦
        publish_and_answer js (concat ("activity." ∷ part ∷ ".tasks" ∷ [])) bytes
          (concat ("actask-" ∷ id ∷ "-" ∷ decimal meta.consumer_sequence ∷ []))
  ]

  unfoldable pub project_activity_task : Msg → Metadata → WorkflowEvent → List Action
  unfolding publish_activity_task
  project_activity_task msg meta (activity_scheduled e) =
      elim (conv.serialize_activity_task (first_attempt now_ms e)) [
        | err m ↦ term ∷ []
        | ok bytes ↦ publish_activity_task msg meta e.id bytes
      ]
  project_activity_task msg meta _ = ack ∷ []

  -- The consumer's handler.
  unfoldable pub handle_activity_tasks : Msg → List Action
  handle_activity_tasks msg = elim (decode_workflow_event conv.events msg) [
    | err m ↦ term ∷ []
    | ok event ↦ elim msg.metadata [
      | err m ↦ term ∷ []
      | ok meta ↦ project_activity_task msg meta event
    ]
  ]
