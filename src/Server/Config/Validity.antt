-- ===== src/Server/Config/Validity.antt =====
-- What a configuration that loads is known to satisfy.
use durablefuture.Prelude.{
  ◌>>=◌, List, Each, subst, sym, ◌≡◌, ◌≢◌, refl, ap, ◌∙◌, ◌↔◌, String, ◌∷◌, [], Option, none, some,
  Option-cases, Bool, Bool-cases, true, false, inl, inr, Result, Result-cases, ok, ok-injective,
  arith, ◌==◌, eq_iff,
}
use durablefuture.Prelude.Int.{ℤ, pos, negsuc, ◌≤ℤ◌}
use durablefuture.Prelude.Words.{atoi}
use durablefuture.Server.Config.{
  Config, default_config, first_error, checks, is_none, validate, with_url, validated, load_config,
  with_options, run_config,
}

abbrev IsNumber : String → Type 0
IsNumber s = (n : ℤ) × (atoi s ≡ some n)

-- What the validation promises of the configuration.
pub record IsValid (c : Config) : Type 0 where
  pub service : c.service ≢ ""
  pub version : c.version ≢ ""
  pub nats_host : c.nats.host ≢ ""
  pub nats_port : IsNumber c.nats.port
  pub url : c.nats.url ≢ ""
  pub max_reconnects : negsuc 0 ≤ℤ c.nats.max_reconnects
  pub reconnect_wait : pos 1 ≤ℤ c.nats.reconnect_wait
  pub drain_timeout : pos 1 ≤ℤ c.nats.drain_timeout
  pub server_host : c.server.host ≢ ""
  pub server_port : IsNumber c.server.port

abbrev Passes : Bool × String → Type 0
Passes (fails, m) = fails ≡ false

first_error-none : (rows : List (Bool × String)) → first_error rows ≡ none → Each Passes rows
first_error-none [] h = tt
first_error-none ((true, m) ∷ rows) h = ground (arith, h)
first_error-none ((false, m) ∷ rows) h = (refl, first_error-none rows h)

Passes-first_error : (rows : List (Bool × String)) → Each Passes rows → first_error rows ≡ none
Passes-first_error [] h = refl
Passes-first_error ((fails, m) ∷ rows) h = rw h.0 (Passes-first_error rows h.1)

not_empty : (s : String) → (s == "") ≡ false → s ≢ ""
not_empty s h e = ground (arith, eq_iff s "", h, e)

is_number : (s : String) → is_none (atoi s) ≡ false → IsNumber s
is_number s h = elim (Option-cases (atoi s)) [ inl e ↦ ground (arith, e, h) | inr p ↦ p ]

is_none-number : (s : String) → IsNumber s → is_none (atoi s) ≡ false
is_none-number s (n, e) = rw e refl

number-not_empty : (s : String) → IsNumber s → s ≢ ""
unfolding atoi
number-not_empty s (n, e) h = let none_read = rw h at e in ground (arith, none_read)

is_empty : (s : String) → s ≢ "" → (s == "") ≡ false
is_empty s ne = elim (Bool-cases (s == "")) [ inl e ↦ absurd (ne ((eq_iff s "").0 e)) | inr e ↦ e ]

validate-IsValid : (c : Config) → validate c ≡ none → IsValid c
unfolding validate
validate-IsValid c h =
    let passed = first_error-none (checks c) h in
    let nats = passed.1.1 in
    let times = nats.1.1.1.1 in
    let server = times.1.1.1 in
    record {
      service = not_empty c.service passed.0;
      version = not_empty c.version passed.1.0;
      nats_host = not_empty c.nats.host nats.0;
      nats_port = is_number c.nats.port nats.1.1.0;
      url = not_empty c.nats.url nats.1.1.1.0;
      max_reconnects = ground (arith, times.0);
      reconnect_wait = ground (arith, times.1.0);
      drain_timeout = ground (arith, times.1.1.0);
      server_host = not_empty c.server.host server.0;
      server_port = is_number c.server.port server.1.1.0;
    }

IsValid-validate : (c : Config) → IsValid c → validate c ≡ none
unfolding validate
IsValid-validate c v = Passes-first_error (checks c) (
  is_empty c.service v.service,
  (
    is_empty c.version v.version,
    (
      is_empty c.nats.host v.nats_host,
      (
        is_empty c.nats.port (number-not_empty c.nats.port v.nats_port),
        (
          is_none-number c.nats.port v.nats_port,
          (
            is_empty c.nats.url v.url,
            (
              ground (arith, v.max_reconnects),
              (
                ground (arith, v.reconnect_wait),
                (
                  ground (arith, v.drain_timeout),
                  (
                    is_empty c.server.host v.server_host,
                    (
                      is_empty c.server.port (number-not_empty c.server.port v.server_port),
                      (is_none-number c.server.port v.server_port, tt),
                    ),
                  ),
                ),
              ),
            ),
          ),
        ),
      ),
    ),
  ),
)

abbrev pub with_default_url : Config → Config
with_default_url c = record c { nats = with_url c.nats }

validated-ok : (c c' : Config) (m : Option String) → validated c m ≡ ok c' → (m ≡ none) × (c ≡ c')
validated-ok c c' none h = (refl, ok-injective h)
validated-ok c c' (some m) h = ground (arith, h)

module _ (parse : Config → Result Config) where
  load_config-IsValid :
      (c : Config)
      → load_config parse ≡ ok c
      → (raw : Config) × (parse default_config ≡ ok raw) × (with_default_url raw ≡ c) × IsValid c
  unfolding load_config
  load_config-IsValid c h = elim (Result-cases (parse default_config)) [
    | inr (m, e) ↦ let failed = rw e at h in ground (arith, failed)
    | inl (raw, e) ↦
        let loaded = rw e at h in
        let (valid, same) =
          validated-ok (with_default_url raw) c (validate (with_default_url raw)) loaded in
        (raw, e, same, subst IsValid same (validate-IsValid (with_default_url raw) valid))
  ]

  IsValid-load_config :
      (c : Config)
      → (raw : Config) × (parse default_config ≡ ok raw) × (with_default_url raw ≡ c) × IsValid c
      → load_config parse ≡ ok c
  unfolding load_config
  IsValid-load_config c (raw, e, same, v) = rw e (
      ap (λ m. validated (with_default_url raw) m)
        (IsValid-validate (with_default_url raw) (subst IsValid (sym same) v))
      ∙ ap ok same)

  -- A configuration is loaded exactly if the environment parses and gives, with the URL made from the
  -- host and the port where none is set, a configuration with every required part, ports that are
  -- numbers, at least -1 reconnects, and positive times for reconnecting and draining. It is then that
  -- configuration.
  pub load_config_iff :
      (c : Config)
      → (load_config parse ≡ ok c) ↔ (
          (raw : Config) × (parse default_config ≡ ok raw) × (with_default_url raw ≡ c) × IsValid c)
  unfolding load_config
  load_config_iff c = (load_config-IsValid c, IsValid-load_config c)

-- The environment sets one more thing: a URL of the broker.
abbrev pub given_url : String → Config → Config
given_url url c = record c { nats = record c.nats { url = url } }

with_default_url-given_url : (c : Config) → with_default_url c ≡ given_url (with_url c.nats).url c
with_default_url-given_url c = elim (Bool-cases (c.nats.url == "")) [
  | inl e ↦ rw e refl
  | inr e ↦ rw e refl
]

IsValid-given_url :
    (url url' : String) (c : Config)
    → IsValid (given_url url c)
    → url' ≢ ""
    → IsValid (given_url url' c)
IsValid-given_url url url' c v ne = record {
  service = v.service;
  version = v.version;
  nats_host = v.nats_host;
  nats_port = v.nats_port;
  url = ne;
  max_reconnects = v.max_reconnects;
  reconnect_wait = v.reconnect_wait;
  drain_timeout = v.drain_timeout;
  server_host = v.server_host;
  server_port = v.server_port;
}

-- A URL from the environment has no effect on a manager: it runs with the host and the port of its
-- flags or of the environment, as it does where no URL is set.
pub run_config-ignores_url :
    (parse parse' : Config → Result Config) (host port url : String) (raw : Config)
    → parse default_config ≡ ok raw
    → parse' default_config ≡ ok (given_url url raw)
    → IsValid (with_default_url raw)
    → url ≢ ""
    → run_config parse' host port ≡ run_config parse host port
unfolding run_config with_options
run_config-ignores_url parse parse' host port url raw e e' v ne =
    let same = with_default_url-given_url raw in
    let v' = IsValid-given_url (with_url raw.nats).url url raw (subst IsValid same v) ne in
    let kept : with_default_url (given_url url raw) ≡ given_url url raw =
      rw (is_empty url ne) refl in
    let loads' = (load_config_iff parse' (given_url url raw)).1 (given_url url raw, e', kept, v') in
    let loads = (load_config_iff parse (with_default_url raw)).1 (raw, e, refl, v) in
    ap (λ r. r >>= λ c. ok (with_options host port c)) loads'
    ∙ ap (λ c. ok (with_options host port c)) (sym same)
    ∙ sym (ap (λ r. r >>= λ c. ok (with_options host port c)) loads)
