-- ===== src/Server/Manager/Inputs.antt =====
-- Every history begins after its workflow's input was stored, and the input stays stored.
use durablefuture.Prelude.{
  Each, Each-snoc, ◌≡◌, refl, ap, sym, ◌∙◌, subst, String, List, [], ◌∷◌, Option, none, some, inl,
  inr, Result, Result-cases, ok-injective, ok, err,
}
use durablefuture.Prelude.Dict.{Dict, lookup, insert, lookup-insert_same, lookup-insert_other}
use durablefuture.Api.Tasks.{Bytes, StartWorkflowAttributes}
use durablefuture.Api.Keys.{workflow_input_key}
use durablefuture.Api.Keys.Separate.{workflow_input_key-injective}
use durablefuture.Server.Broker.{Bucket, workflow_input_bucket}
use durablefuture.Server.Command.{
  HistoryMsg, History, CommandSerde, Request, started_msg, send_error_reply, handle_request,
}
use durablefuture.Server.Command.Starts.{
  Outcome, ignored, refused, garbled, unstored, unpublished, launched, handle_request-Outcome,
}
use durablefuture.Server.Manager.{
  Durable, keep_input, put_in, perform, IsUuid, Reachable, initial, command,
}
use mathlib.Core.List.{Memᴰ}

Each-map {ℓ κ} :
    {A : Type ℓ} (P Q : A → Type κ) → ((x : A) → P x → Q x) → (xs : List A) → Each P xs → Each Q xs
Each-map P Q f [] h = tt
Each-map P Q f (x ∷ xs) h = (f x h.0, Each-map P Q f xs h.1)

module _ (conv : CommandSerde) where
  -- The message starts a history, and the bucket has the serialized input under the workflow's key.
  pub record Held (ids : List String) (inputs : Dict Bytes) (msg : HistoryMsg) : Type 0 where
    pub workflow_id : String
    pub attributes : StartWorkflowAttributes
    pub input : Bytes
    pub given : Memᴰ workflow_id ids
    pub uuid : IsUuid workflow_id
    pub starts : msg ≡ started_msg conv workflow_id attributes
    pub serialized_as : conv.serialize_input attributes.input ≡ ok input
    pub kept :
        lookup (workflow_input_key attributes.workflow_fn_name workflow_id) inputs ≡ some input

  abbrev pub Holds : List String → Durable → Type 0
  Holds ids d = Each (Held ids d.inputs) d.history

  -- What was held is still held when a new workflow's input is written under its key.
  Held-insert :
      {ids : List String} {inputs : Dict Bytes} (i fn : String) (input : Bytes) (msg : HistoryMsg)
      → ¬ Memᴰ i ids
      → IsUuid i
      → Held ids inputs msg
      → Held (i ∷ ids) (insert (workflow_input_key fn i) input inputs) msg
  Held-insert {ids} {inputs} i fn input msg fresh uuid h = record {
    workflow_id = h.workflow_id;
    attributes = h.attributes;
    input = h.input;
    given = Memᴰ.tail h.given;
    uuid = h.uuid;
    starts = h.starts;
    serialized_as = h.serialized_as;
    kept =
        lookup-insert_other (workflow_input_key fn i)
          (workflow_input_key h.attributes.workflow_fn_name h.workflow_id) input inputs
          (some h.input)
          (λ e. fresh (
            subst (λ j. Memᴰ j ids)
              (sym
                (workflow_input_key-injective fn h.attributes.workflow_fn_name i h.workflow_id
                  (uuid ∙ sym h.uuid) e).1)
              h.given))
          h.kept;
  }

  Held-weaken :
      {ids : List String} {inputs : Dict Bytes} (i : String) (msg : HistoryMsg)
      → Held ids inputs msg
      → Held (i ∷ ids) inputs msg
  Held-weaken i msg h = record {
    workflow_id = h.workflow_id;
    attributes = h.attributes;
    input = h.input;
    given = Memᴰ.tail h.given;
    uuid = h.uuid;
    starts = h.starts;
    serialized_as = h.serialized_as;
    kept = h.kept;
  }

  module _ {ids : List String} (i : String) (fresh : ¬ Memᴰ i ids) (uuid : IsUuid i) where
    Holds-weaken : (d : Durable) → Holds ids d → Holds (i ∷ ids) d
    Holds-weaken d =
        Each-map (Held ids d.inputs) (Held (i ∷ ids) d.inputs) (Held-weaken i) d.history

    keep_input-Holds :
        (fn : String) (input : Bytes) (d : Durable) (o : Option String)
        → Holds ids d
        → Holds (i ∷ ids) (keep_input d (workflow_input_key fn i) input o)
    keep_input-Holds fn input d (some m) h = Holds-weaken d h
    keep_input-Holds fn input d none h =
        Each-map (Held ids d.inputs)
          (Held (i ∷ ids) (insert (workflow_input_key fn i) input d.inputs))
          (λ msg. Held-insert i fn input msg fresh uuid) d.history h

    put_in-Holds :
        (fn : String) (input : Bytes) (d : Durable) (r : Result Bucket)
        → Holds ids d
        → Holds (i ∷ ids) (put_in d (workflow_input_key fn i) input r)
    put_in-Holds fn input d (ok kv) h =
        keep_input-Holds fn input d (kv.put (workflow_input_key fn i) input) h
    put_in-Holds fn input d (err m) h = Holds-weaken d h

    perform-error :
        (js : History) (m : String) (d : Durable) → perform js (send_error_reply conv "" m) d ≡ d
    unfolding perform send_error_reply
    perform-error js m d =
        elim (Result-cases (conv.serialize_reply (record { error = m; workflow_id = "" }))) [
          | inl (reply, e) ↦ rw (e, send_error_reply) refl
          | inr (why, e) ↦ rw (e, send_error_reply) refl
        ]

    perform-Holds :
        (js : History) (payload : Bytes) (rs : List Request) (d : Durable)
        → Outcome conv (ok js) i payload rs
        → Holds ids d
        → Holds (i ∷ ids) (perform js rs d)
    unfolding perform
    perform-Holds js payload rs d (ignored w) h = Holds-weaken d h
    perform-Holds js payload rs d (refused m w) h = rw (perform-error js m d) (Holds-weaken d h)
    perform-Holds js payload rs d (garbled attributes why ha hr) h = Holds-weaken d h
    perform-Holds js payload rs d (unstored attributes js' kv input why ha hc hk hi hp) h =
        rw (perform-error js _)
          (put_in-Holds attributes.workflow_fn_name input d (js.key_value workflow_input_bucket) h)
    perform-Holds js payload rs d (unpublished attributes js' kv input why ha hc hk hi hp hm) h =
        rw
          (
            perform-error js _,
            ap (λ x. x.publish_msg (started_msg conv i attributes)) (ok-injective hc) ∙ hm,
          )
          (put_in-Holds attributes.workflow_fn_name input d (js.key_value workflow_input_bucket) h)
    perform-Holds js payload rs d (launched attributes js' kv input reply ha hc hk hi hr hp hm) h =
        let key = workflow_input_key attributes.workflow_fn_name i in
        let msg = started_msg conv i attributes in
        rw
          (
            ap (λ x. x.key_value workflow_input_bucket) (ok-injective hc) ∙ hk,
            hp,
            ap (λ x. x.publish_msg msg) (ok-injective hc) ∙ hm,
          )
          (Each-snoc (Held (i ∷ ids) (insert key input d.inputs)) d.history msg
            (keep_input-Holds attributes.workflow_fn_name input d none h)
            (record {
              workflow_id = i;
              attributes = attributes;
              input = input;
              given = Memᴰ.head refl;
              uuid = uuid;
              starts = refl;
              serialized_as = hi;
              kept = lookup-insert_same key input d.inputs;
            }))

  -- In every state that commands lead to, whatever their brokers refuse: each message of the history
  -- starts the workflow of an id that was given, and the bucket still has that workflow's serialized
  -- input under its key.
  pub Reachable-Holds : {d : Durable} {ids : List String} → Reachable conv d ids → Holds ids d
  Reachable-Holds initial = tt
  Reachable-Holds (command {d} {ids} js i payload fresh uuid r) =
      perform-Holds i fresh uuid js payload (handle_request conv (ok js) i payload) d
        (handle_request-Outcome conv i payload (ok js)) (Reachable-Holds r)
