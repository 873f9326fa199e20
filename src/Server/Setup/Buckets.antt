-- ===== src/Server/Setup/Buckets.antt =====
-- `EnsureKV` of internal/server/infra/jetstream/nats_conn.go and `ensureKV` of
-- internal/server/app/bootstrap.go: the buckets that the manager sets up when it starts.
use durablefuture.Prelude.{
  ◌≡◌, ◌≢◌, ◌⊎◌, refl, ap, sym, ◌∙◌, Bool, true, String, [], ◌∷◌, Option, none, some, Result, ok,
  err, inl, inr, arith, concat,
}
use durablefuture.Server.Broker.{workflow_input_bucket, workflow_result_bucket}
use durablefuture.Server.Setup.{StreamConfig, Found, found, not_found, unknown, changed, prefixed}
use durablefuture.Server.Setup.Kept.{prefixed-none}

-- The field of `jetstream.KeyValueConfig` that the code sets.
pub record KeyValueConfig : Type 0 where
  pub bucket : String

-- JetStream's administration of buckets. `key_value` finds the bucket of a name.
pub record Buckets (S : Type 0) : Type 0 where
  pub key_value : String → S → Found KeyValueConfig
  pub create_key_value : KeyValueConfig → S → Result S
  pub update_key_value : KeyValueConfig → S → Result S

module _ {S : Type 0} (kvs : Buckets S) where
  abbrev about : String → KeyValueConfig → String
  about what cfg = concat (what ∷ cfg.bucket ∷ ", " ∷ [])

  -- The error, if there is one, and the state behind the call.
  unfoldable pub ensure_kv : KeyValueConfig → S → Option String × S
  ensure_kv cfg s = elim (kvs.key_value cfg.bucket s) [
    | unknown m ↦ (some (concat (about "failed to ensure KV: " cfg ∷ m ∷ [])), s)
    | not_found ↦ changed (about "failed to create new KV: " cfg) s (kvs.create_key_value cfg s)
    | found old ↦ changed (about "failed to update KV: " cfg) s (kvs.update_key_value cfg s)
  ]

  abbrev pub then_ensure_kv : String → String → Option String × S → Option String × S
  then_ensure_kv what bucket (some m, s) = (some m, s)
  then_ensure_kv what bucket (none, s) = prefixed what (ensure_kv (record { bucket = bucket }) s)

  unfoldable pub ensure_buckets : S → Option String × S
  ensure_buckets s =
      then_ensure_kv "failed to ensure workflow input KV bucket: " workflow_input_bucket (
        then_ensure_kv "failed to ensure workflow result KV bucket: " workflow_result_bucket
          (none, s))

-- What JetStream documents of a bucket's creation and its update, either of which can be the one that
-- succeeded: the bucket is there, others stay, and of the streams only the bucket's own is touched.
module _ {S : Type 0} (kvs : Buckets S) where
  abbrev pub Writes : KeyValueConfig → S → S → Type 0
  Writes cfg s s' = (kvs.create_key_value cfg s ≡ ok s') ⊎ (kvs.update_key_value cfg s ≡ ok s')

  pub record DocumentedBuckets (config : String → S → Option StreamConfig)
      (holds : String → S → Bool) : Type 0 where
    pub written : (cfg : KeyValueConfig) (s s' : S) → Writes cfg s s' → holds cfg.bucket s' ≡ true
    pub keeps :
        (cfg : KeyValueConfig) (s s' : S) (other : String)
        → Writes cfg s s'
        → holds other s ≡ true
        → holds other s' ≡ true
    pub own_stream :
        (cfg : KeyValueConfig) (s s' : S) (name : String)
        → Writes cfg s s'
        → name ≢ concat ("KV_" ∷ cfg.bucket ∷ [])
        → config name s' ≡ config name s

  changed-none :
      (what : String) (s s' : S) (r : Result S) → changed what s r ≡ (none, s') → r ≡ ok s'
  changed-none what s s' (ok t) h = ap (λ x. ok x.1) h
  changed-none what s s' (err m) h = let p = ap (λ x. x.0) h in ground (arith, p)

  ensure_kv-by :
      (cfg : KeyValueConfig) (s s' : S) (f : Found KeyValueConfig)
      → kvs.key_value cfg.bucket s ≡ f
      → ensure_kv kvs cfg s ≡ (none, s')
      → Writes cfg s s'
  unfolding ensure_kv
  ensure_kv-by cfg s s' (found old) e h =
      inr (changed-none _ s s' (kvs.update_key_value cfg s) (rw (e, ensure_kv) at h))
  ensure_kv-by cfg s s' not_found e h =
      inl (changed-none _ s s' (kvs.create_key_value cfg s) (rw (e, ensure_kv) at h))
  ensure_kv-by cfg s s' (unknown m) e h =
      let p = ap (λ x. x.0) (rw (e, ensure_kv) at h) in ground (arith, p)

  then_ensure_kv-none :
      (what bucket : String) (out : Option String × S) (s' : S)
      → then_ensure_kv kvs what bucket out ≡ (none, s')
      → (s : S) × (out ≡ (none, s)) × Writes (record { bucket = bucket }) s s'
  then_ensure_kv-none what bucket (none, s) s' h =
      let cfg : KeyValueConfig = record { bucket = bucket } in
      (
        s,
        refl,
        ensure_kv-by cfg s s' (kvs.key_value bucket s) refl
            (prefixed-none what (ensure_kv kvs cfg s) s' h),
      )
  then_ensure_kv-none what bucket (some m, s) s' h = let p = ap (λ x. x.0) h in ground (arith, p)

  -- Without an error both buckets are there, and each stream that is not a bucket's is as it was.
  pub ensure_buckets-none :
      {config : String → S → Option StreamConfig} {holds : String → S → Bool}
      → DocumentedBuckets config holds
      → (s s' : S) → ensure_buckets kvs s ≡ (none, s')
      → (holds workflow_result_bucket s' ≡ true)
        × (holds workflow_input_bucket s' ≡ true)
        × ((name : String)
            → name ≢ "KV_workflow-result"
            → name ≢ "KV_workflow-input"
            → config name s' ≡ config name s)
  unfolding ensure_buckets
  ensure_buckets-none {config = config} law s s' h =
      let (s1, h1, second) =
        then_ensure_kv-none "failed to ensure workflow input KV bucket: " workflow_input_bucket
          (then_ensure_kv kvs "failed to ensure workflow result KV bucket: " workflow_result_bucket
            (none, s))
          s' h in
      let (s0, h0, first) =
        then_ensure_kv-none "failed to ensure workflow result KV bucket: " workflow_result_bucket
          (none, s) s1 h1 in
      let result : KeyValueConfig = record { bucket = workflow_result_bucket } in
      let input : KeyValueConfig = record { bucket = workflow_input_bucket } in
      let same : s ≡ s0 = ap (λ x. x.1) h0 in
      (
        law.keeps input s1 s' workflow_result_bucket second (law.written result s0 s1 first),
        law.written input s1 s' second,
        λ name ne ne'.
            law.own_stream input s1 s' name second ne'
            ∙ law.own_stream result s0 s1 name first ne
            ∙ ap (λ t. config name t) (sym same),
      )
