-- ===== src/Sdk/Client/Starts.antt =====
-- A client's start request, answered by the manager's handler.
use durablefuture.Prelude.{
  ◌≡◌, refl, ap, sym, subst, ◌∙◌, String, List, [], ◌∷◌, none, Bool-cases, inl, inr, Result,
  Result-cases, ok, err, ok-injective, arith, ◌==◌,
}
use durablefuture.Api.Values.{Any}
use durablefuture.Api.Keys.{workflow_input_key}
use durablefuture.Api.Tasks.{
  Bytes, Command, StartWorkflowAttributes, StartWorkflowReply, start_workflow_command,
}
use durablefuture.Server.Broker.{Bucket, workflow_input_bucket}
use durablefuture.Server.Command.{
  serialization_failed, reply_failed, History, CommandSerde, Payload, serialized, text, Request,
  terminate, respond, put, publish, send_error_reply, started_msg, handle_request,
}
use durablefuture.Server.Command.Starts.{
  Asks, Outcome, ignored, refused, garbled, unstored, unpublished, launched, handle_request-Outcome,
}
use durablefuture.Sdk.Client.{
  Requested, answered, unanswered, StartConn, Execution, future, reply_of, start_workflow,
  execution_of, execute_workflow, command_request_start,
}

-- What the client gets for the manager's requests: the payload of the response, if there is one.
abbrev pub payload_bytes : (String → Bytes) → Payload → Bytes
payload_bytes utf8 (serialized bytes) = bytes
payload_bytes utf8 (text m) = utf8 m

abbrev pub response : (String → Bytes) → List Request → Requested
response utf8 [] = unanswered "nats: timeout"
response utf8 (respond payload ∷ rs) = answered (payload_bytes utf8 payload)
response utf8 (terminate ∷ rs) = response utf8 rs
response utf8 (put bucket key value ∷ rs) = response utf8 rs
response utf8 (publish msg ∷ rs) = response utf8 rs

-- The manager stored the input of these attributes under the workflow's key, then published the
-- workflow's start with them, and both succeeded.
abbrev pub Launched :
    CommandSerde → Result History → String → StartWorkflowAttributes → List Request → Type 0
Launched conv manager id attributes rs =
    (input reply : Bytes) × (js : History) × (kv : Bucket) × (manager ≡ ok js)
    × (js.key_value workflow_input_bucket ≡ ok kv)
    × (conv.serialize_input attributes.input ≡ ok input)
    × (kv.put (workflow_input_key attributes.workflow_fn_name id) input ≡ none)
    × (js.publish_msg (started_msg conv id attributes) ≡ none)
    × (rs
        ≡ put workflow_input_bucket (workflow_input_key attributes.workflow_fn_name id) input
          ∷ publish (started_msg conv id attributes)
          ∷ respond (serialized reply)
          ∷ [])

module _ (conv : CommandSerde) (manager : Result History) (id : String) (utf8 : String → Bytes)
    (conn : StartConn) (canonical : String → String)
    (reads : (r : StartWorkflowReply) (bytes : Bytes)
      → conv.serialize_reply r ≡ ok bytes
      → conn.deserialize_reply bytes ≡ ok r)
    (texts : (m : String)
      → ((why : String) × (conn.deserialize_reply (utf8 (serialization_failed m)) ≡ err why))
        × ((why : String) × (conn.deserialize_reply (utf8 (reply_failed m)) ≡ err why))) where
  no_future :
      (m i : String)
      → ¬ (execution_of conn canonical (record { error = m; workflow_id = "" }) ≡ future i)
  unfolding execution_of
  no_future m i h = ground arith

  abbrev future_of : Execution → String
  future_of (future i) = i
  future_of _ = ""

  failed :
      (m : String) (reply : StartWorkflowReply) (i : String)
      → reply_of conn (response utf8 (send_error_reply conv "" m)) ≡ ok reply
      → ¬ (execution_of conn canonical reply ≡ future i)
  unfolding send_error_reply
  failed m reply i h f =
      elim (Result-cases (conv.serialize_reply (record { error = m; workflow_id = "" }))) [
        | inr (why, e) ↦
            let (other, t) = (texts why).0 in
            let p = rw (e, send_error_reply, t) at h in ground (arith, p)
        | inl (bytes, e) ↦
            let r = reads (record { error = m; workflow_id = "" }) bytes e in
            let p = ok-injective (rw (e, send_error_reply, r) at h) in
            absurd (no_future m i (ap (execution_of conn canonical) p ∙ f))
      ]

  named :
      (i : String)
      → execution_of conn canonical (record { error = ""; workflow_id = id }) ≡ future i
      → i ≡ canonical id
  unfolding execution_of
  named i f = elim (Bool-cases (id == "")) [
    | inl e ↦ let p = rw e at f in ground (arith, p)
    | inr e ↦ ap future_of (sym (rw e at f))
  ]

  Outcome-Launched :
      (payload : Bytes) (rs : List Request) (reply : StartWorkflowReply) (i : String)
      → Outcome conv manager id payload rs
      → reply_of conn (response utf8 rs) ≡ ok reply
      → execution_of conn canonical reply ≡ future i
      → (attributes : StartWorkflowAttributes) × Asks conv payload attributes
        × Launched conv manager id attributes rs
        × (i ≡ canonical id)
  Outcome-Launched payload rs reply i (ignored w) h f = ground (arith, h)
  Outcome-Launched payload rs reply i (refused m w) h f = absurd (failed m reply i h f)
  Outcome-Launched payload rs reply i (garbled attributes why ha e) h f =
      let (other, t) = (texts why).1 in let p = rw t at h in ground (arith, p)
  Outcome-Launched payload rs reply i (unstored attributes js kv input why ha hc hk hi hp) h f =
      absurd (failed _ reply i h f)
  Outcome-Launched payload rs reply i (unpublished attributes js kv input why ha hc hk hi hp hm) h
        f =
      absurd (failed _ reply i h f)
  Outcome-Launched payload rs reply i (launched attributes js kv input bytes ha hc hk hi hr hp hm) h
        f =
      let r = reads (record { error = ""; workflow_id = id }) bytes hr in
      let same = ok-injective (sym (rw r at h)) in
      (
        attributes,
        ha,
        (input, bytes, js, kv, hc, hk, hi, hp, hm, refl),
        named i (ap (execution_of conn canonical) (sym same) ∙ f),
      )

  Asks-given :
      (payload : Bytes) (cmd : Command) (a a' : StartWorkflowAttributes)
      → conv.deserialize_command payload ≡ ok cmd
      → conv.deserialize_attributes cmd.attributes ≡ ok a
      → Asks conv payload a'
      → a' ≡ a
  Asks-given payload cmd a a' hd ha asks =
      let same : asks.cmd ≡ cmd = ok-injective (sym asks.decoded ∙ hd) in
      ok-injective (sym asks.given ∙ ap (λ c. conv.deserialize_attributes c.attributes) same ∙ ha)

  module _
      (request : (bytes : Bytes)
        → conn.request command_request_start bytes
          ≡ response utf8 (handle_request conv manager id bytes))
      (command_read : (cmd : Command) (bytes : Bytes)
        → conn.serialize_command cmd ≡ ok bytes
        → conv.deserialize_command bytes ≡ ok cmd)
      (seen : List Any → List Any)
      (attributes_read : (a : StartWorkflowAttributes) (bytes : Bytes)
        → conn.serialize_attributes a ≡ ok bytes
        → conv.deserialize_attributes bytes
          ≡ ok (record { workflow_fn_name = a.workflow_fn_name; input = seen a.input })) where
    abbrev seen_attributes : StartWorkflowAttributes → StartWorkflowAttributes
    seen_attributes a = record { workflow_fn_name = a.workflow_fn_name; input = seen a.input }

    abbrev start_command : Bytes → Command
    start_command inner = record { command_type = start_workflow_command; attributes = inner }

    -- The bytes of the client's request for these attributes.
    abbrev pub Sent : StartWorkflowAttributes → Bytes → Bytes → Type 0
    Sent a inner bytes =
        (conn.serialize_attributes a ≡ ok inner)
        × (conn.serialize_command (start_command inner) ≡ ok bytes)

    start_workflow-request :
        (attributes : StartWorkflowAttributes) (reply : StartWorkflowReply)
        → start_workflow conn attributes ≡ ok reply
        → (inner bytes : Bytes) × Sent attributes inner bytes
          × (conv.deserialize_command bytes ≡ ok (start_command inner))
          × (conv.deserialize_attributes inner ≡ ok (seen_attributes attributes))
          × (reply_of conn (response utf8 (handle_request conv manager id bytes)) ≡ ok reply)
    unfolding start_workflow
    start_workflow-request attributes reply h =
        elim (Result-cases (conn.serialize_attributes attributes)) [
          | inr (m, e) ↦ let p = rw e at h in ground (arith, p)
          | inl (bytes, e) ↦ elim (Result-cases (conn.serialize_command (start_command bytes))) [
            | inr (m, e') ↦ let p = rw (e, e') at h in ground (arith, p)
            | inl (command, e') ↦ (
              bytes,
              command,
              (e, e'),
              command_read (start_command bytes) command e',
              attributes_read attributes bytes e,
              rw (e, e', request command) at h,
            )
          ]
        ]

    -- A client gets a future only for the workflow it asked for. Let its request be answered by the
    -- manager's handler, the manager read commands, and the client replies, as they were serialized,
    -- let the manager read a workflow's name as it was and an input as the serializer keeps it
    -- (`seen`), and let a fallback text not be read as a reply. If `ExecuteWorkflow` of a name and an
    -- input returns a future, then the handler, on the client's bytes, stored that input under the key of that name and the
    -- new id, and then published that workflow's start with them, both without an error, and the
    -- future is of that id.
    pub execute_workflow-Launched :
        (name : String) (input : List Any) (i : String)
        → execute_workflow conn canonical (ok name) input ≡ future i
        → (inner bytes : Bytes) × Sent
            (record { workflow_fn_name = name; input = input })
            inner
            bytes
          × Launched conv manager id
              (record { workflow_fn_name = name; input = seen input })
              (handle_request conv manager id bytes)
          × (i ≡ canonical id)
    unfolding execute_workflow
    execute_workflow-Launched name input i h =
        let asked : StartWorkflowAttributes = record { workflow_fn_name = name; input = input } in
        elim (Result-cases (start_workflow conn asked)) [
          | inr (m, e) ↦ let p = rw (e, execute_workflow) at h in ground (arith, p)
          | inl (reply, e) ↦
              let (inner, bytes, sent, hd, ha, r) = start_workflow-request asked reply e in
              let rs = handle_request conv manager id bytes in
              let (attributes, asks, launch, same) =
                Outcome-Launched bytes rs reply i (handle_request-Outcome conv id bytes manager) r
                  (rw (e, execute_workflow) at h) in
              (
                inner,
                bytes,
                sent,
                subst (λ a. Launched conv manager id a rs)
                    (Asks-given bytes (start_command inner) (seen_attributes asked) attributes hd ha
                      asks)
                    launch,
                same,
              )
        ]
