-- ===== src/Server/Setup/Kept.antt =====
-- What a successful start leaves of the streams.
use durablefuture.Prelude.{
  ◌≡◌, ◌≢◌, refl, ap, sym, ◌∙◌, subst, String, Option, none, some, Result-cases, inl, inr, ok,
  arith, eq_iff,
}
use durablefuture.Server.Setup.{
  Retention, limits, interest, work_queue, StreamConfig, Found, found, not_found, unknown, Streams,
  kept_retention, update_existing, ensure_stream, prefixed, then_ensure, ensure_streams,
  history_config, workflow_tasks_config, activity_tasks_config,
}

-- What JetStream documents: the operations read and write the configuration of the named stream, and
-- touch no other.
pub record Documented {S : Type 0} (js : Streams S) (config : String → S → Option StreamConfig)
    : Type 0 where
  pub present :
      (name : String) (s : S) (c : StreamConfig)
      → js.stream name s ≡ found c
      → config name s ≡ some c
  pub absent : (name : String) (s : S) → js.stream name s ≡ not_found → config name s ≡ none
  pub informed :
      (name : String) (s : S) (c : StreamConfig) → js.info name s ≡ ok c → config name s ≡ some c
  pub created :
      (cfg : StreamConfig) (s s' : S)
      → js.create_stream cfg s ≡ ok s'
      → config cfg.name s' ≡ some cfg
  pub updated :
      (cfg : StreamConfig) (s s' : S)
      → js.update_stream cfg s ≡ ok s'
      → config cfg.name s' ≡ some cfg
  pub created_only :
      (cfg : StreamConfig) (s s' : S) (other : String)
      → other ≢ cfg.name
      → js.create_stream cfg s ≡ ok s'
      → config other s' ≡ config other s
  pub updated_only :
      (cfg : StreamConfig) (s s' : S) (other : String)
      → other ≢ cfg.name
      → js.update_stream cfg s ≡ ok s'
      → config other s' ≡ config other s

-- The configuration that a stream gets: the one asked for, with the retention that it had.
abbrev pub settled_config : StreamConfig → Option StreamConfig → StreamConfig
settled_config cfg none = cfg
settled_config cfg (some old) = record cfg { retention = old.retention }

history_differs : workflow_tasks_config.name ≢ history_config.name
history_differs = ground (arith, eq_iff workflow_tasks_config.name history_config.name)

activities_differ : activity_tasks_config.name ≢ history_config.name
activities_differ = ground (arith, eq_iff activity_tasks_config.name history_config.name)

tasks_differ : activity_tasks_config.name ≢ workflow_tasks_config.name
tasks_differ = ground (arith, eq_iff activity_tasks_config.name workflow_tasks_config.name)

pub prefixed-none :
    {S : Type 0} (what : String) (out : Option String × S) (s' : S)
    → prefixed what out ≡ (none, s')
    → out ≡ (none, s')
prefixed-none what (none, s) s' h = h
prefixed-none what (some m, s) s' h = let p = ap (λ x. x.0) h in ground (arith, p)

module _ {S : Type 0} {js : Streams S} {config : String → S → Option StreamConfig}
    (law : Documented js config) where
  abbrev pub Ensured : StreamConfig → String → S → S → Type 0
  Ensured cfg other s s' =
      (config cfg.name s' ≡ some (settled_config cfg (config cfg.name s)))
      × (config other s' ≡ config other s)

  kept_retention-same : (r : Retention) → kept_retention r ≡ r
  kept_retention-same limits = refl
  kept_retention-same interest = refl
  kept_retention-same work_queue = refl

  module _ (cfg : StreamConfig) (other : String) (ne : other ≢ cfg.name) (s s' : S) where
    update_existing-Ensured : update_existing js cfg s ≡ (none, s') → Ensured cfg other s s'
    unfolding update_existing
    update_existing-Ensured h = elim (Result-cases (js.info cfg.name s)) [
      | inr (m, e) ↦ let p = ap (λ x. x.0) (rw (e, update_existing) at h) in ground (arith, p)
      | inl (old, e) ↦
          let cfg' = record cfg { retention = kept_retention old.retention } in
          elim (Result-cases (js.update_stream cfg' s)) [
            | inr (m, u) ↦
                let p = ap (λ x. x.0) (rw (e, update_existing, u) at h) in ground (arith, p)
            | inl (t, u) ↦
                let same = ap (λ x. x.1) (rw (e, update_existing, u) at h) in
                subst (Ensured cfg other s) same (
                  rw (law.informed cfg.name s old e) (
                      law.updated cfg' s t u
                      ∙ ap (λ r. some (record cfg { retention = r }))
                          (kept_retention-same old.retention)),
                  law.updated_only cfg' s t other ne u,
                )
          ]
    ]

    created-Ensured :
        js.stream cfg.name s ≡ not_found
        → ensure_stream js cfg s ≡ (none, s')
        → Ensured cfg other s s'
    unfolding ensure_stream
    created-Ensured e h = elim (Result-cases (js.create_stream cfg s)) [
      | inr (m, u) ↦ let p = ap (λ x. x.0) (rw (e, ensure_stream, u) at h) in ground (arith, p)
      | inl (t, u) ↦
          let same = ap (λ x. x.1) (rw (e, ensure_stream, u) at h) in
          subst (Ensured cfg other s) same (
            rw (law.absent cfg.name s e) (law.created cfg s t u),
            law.created_only cfg s t other ne u,
          )
    ]

    ensure_stream-by :
        (f : Found StreamConfig)
        → js.stream cfg.name s ≡ f
        → ensure_stream js cfg s ≡ (none, s')
        → Ensured cfg other s s'
    unfolding ensure_stream
    ensure_stream-by (found old) e h = update_existing-Ensured (rw (e, ensure_stream) at h)
    ensure_stream-by not_found e h = created-Ensured e h
    ensure_stream-by (unknown m) e h =
        let p = ap (λ x. x.0) (rw (e, ensure_stream) at h) in ground (arith, p)

    -- A successful `EnsureStream` leaves its stream with the configuration asked for, but with the
    -- retention that the stream had if it was there, and every other stream as it was; provided that
    -- JetStream's operations do what is documented of them.
    pub ensure_stream-Ensured : ensure_stream js cfg s ≡ (none, s') → Ensured cfg other s s'
    ensure_stream-Ensured h = ensure_stream-by (js.stream cfg.name s) refl h

  then_ensure-none :
      (what : String) (cfg : StreamConfig) (out : Option String × S) (s' : S)
      → then_ensure js what cfg out ≡ (none, s')
      → (s : S) × (out ≡ (none, s)) × (ensure_stream js cfg s ≡ (none, s'))
  then_ensure-none what cfg (none, s) s' h =
      (s, refl, prefixed-none what (ensure_stream js cfg s) s' h)
  then_ensure-none what cfg (some m, s) s' h = let p = ap (λ x. x.0) h in ground (arith, p)

  -- On a JetStream that creates, updates and reports streams as documented, a manager that starts
  -- without error has its three streams: the history and both kinds of tasks,
  -- each with the subjects and the storage that the manager asks for, and with the retention that the
  -- stream had before, or else the one asked for.
  pub ensure_streams-Ensured :
      (s s' : S)
      → ensure_streams js s ≡ (none, s')
      → (config history_config.name s'
          ≡ some (settled_config history_config (config history_config.name s)))
        × (config workflow_tasks_config.name s'
            ≡ some (settled_config workflow_tasks_config (config workflow_tasks_config.name s)))
        × (config activity_tasks_config.name s'
            ≡ some (settled_config activity_tasks_config (config activity_tasks_config.name s)))
  unfolding ensure_streams
  ensure_streams-Ensured s s' h =
      let (s2, h2, e3) = then_ensure-none _ activity_tasks_config _ s' h in
      let (s1, h1, e2) = then_ensure-none _ workflow_tasks_config _ s2 h2 in
      let e1 = prefixed-none _ (ensure_stream js history_config s) s1 h1 in
      let history = history_config in
      let workflows = workflow_tasks_config in
      let activities = activity_tasks_config in
      let a = ensure_stream-Ensured history workflows.name history_differs s s1 e1 in
      let a' = ensure_stream-Ensured history activities.name activities_differ s s1 e1 in
      let b =
        ensure_stream-Ensured workflows history.name (λ e. history_differs (sym e)) s1 s2 e2 in
      let b' = ensure_stream-Ensured workflows activities.name tasks_differ s1 s2 e2 in
      let c =
        ensure_stream-Ensured activities history.name (λ e. activities_differ (sym e)) s2 s' e3 in
      let c' =
        ensure_stream-Ensured activities workflows.name (λ e. tasks_differ (sym e)) s2 s' e3 in
      (
        c.1 ∙ b.1 ∙ a.0,
        c'.1 ∙ b.0 ∙ ap (λ o. some (settled_config workflows o)) a.1,
        c.0 ∙ ap (λ o. some (settled_config activities o)) (b'.1 ∙ a'.1),
      )
