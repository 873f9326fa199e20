-- ===== src/Server/Logger/Levels.antt =====
-- The levels that the manager's root logger takes.
use durablefuture.Prelude.{
  ◌≡◌, ◌≢◌, refl, ap, String, List, [], ◌∷◌, ◌++◌, map, Bool, Bool-cases, inl, inr, Result, ok,
  arith, ◌==◌, eq_iff, ◌||◌, if◌then◌else◌, length, suc,
}
use durablefuture.Prelude.Int.{ℤ, pos, leb_ℤ}
use durablefuture.Server.Logging.{Writer}
use durablefuture.Server.Logger.{
  Attr, Handler, handler_enabled, handler_with_attrs, multi_enabled, multi_with_attrs,
  LoggerOptions, format_of, base_handler, otel_handlers, root_attrs, new_logger,
}

-- The options ask for the format of `DebugHandler`.
abbrev pub is_pretty : LoggerOptions → Bool
is_pretty o = format_of o == "pretty" || format_of o == "text"

-- The least level that a base handler takes once it has attributes.
abbrev pub least_level : LoggerOptions → ℤ
least_level o = if is_pretty o then pos 0 else o.level

module _ (o : LoggerOptions) (more : List Attr) (level : ℤ) where
  base_handler-enabled :
      (w : Writer)
      → handler_enabled level (handler_with_attrs more (base_handler o w))
        ≡ leb_ℤ (least_level o) level
  unfolding handler_enabled handler_with_attrs base_handler
  base_handler-enabled w = elim (Bool-cases (is_pretty o)) [ inl e ↦ rw e refl | inr e ↦ rw e refl ]

  base_handlers-enabled :
      (w : Writer) (ws : List Writer)
      → multi_enabled level (multi_with_attrs more (map (base_handler o) (w ∷ ws)))
        ≡ leb_ℤ (least_level o) level
  unfolding multi_enabled multi_with_attrs
  base_handlers-enabled w [] = ground (arith, base_handler-enabled w)
  base_handlers-enabled w (v ∷ ws) =
      ground (arith, base_handler-enabled w, base_handlers-enabled v ws)

  otel_enabled :
      (hs ks : List Handler)
      → multi_enabled level (multi_with_attrs more (hs ++ ks)) ≡ (
          multi_enabled level (multi_with_attrs more hs)
          || multi_enabled level (multi_with_attrs more ks))
  unfolding multi_enabled multi_with_attrs
  otel_enabled [] ks = refl
  otel_enabled (h ∷ hs) ks = ground (arith, otel_enabled hs ks)

module _ (exporter : String → String → Result (ℤ → Bool)) (merged : Bool) where
  otel_handlers-none :
      (o : LoggerOptions) → o.mode ≢ "release" → otel_handlers exporter merged o ≡ []
  unfolding otel_handlers
  otel_handlers-none o ne = elim (Bool-cases (o.mode == "release")) [
    | inl e ↦ absurd (ne ((eq_iff o.mode "release").0 e))
    | inr e ↦ rw e refl
  ]

  -- Outside of release mode the root logger has a handler for each writer, and takes a level exactly
  -- if that is Info or more where the format is pretty or text, whatever level is configured, and the
  -- configured level or more in every other format.
  pub new_logger-enabled :
      (o : LoggerOptions) (w : Writer) (ws : List Writer)
      → o.mode ≢ "release"
      → o.writers ≡ w ∷ ws
      → (hs : List Handler) × (new_logger exporter merged o ≡ ok hs)
        × (length hs ≡ length o.writers)
        × ((level : ℤ) → multi_enabled level hs ≡ leb_ℤ (least_level o) level)
  unfolding new_logger multi_with_attrs base_handler format_of
  new_logger-enabled o w ws ne e =
      let attrs = root_attrs exporter merged o in
      let hs = multi_with_attrs attrs (map (base_handler o) (w ∷ ws)) in
      (
        hs,
        rw (e, new_logger) (rw (otel_handlers-none o ne) refl),
        rw e (ap suc (length-map2 ws)),
        λ level. base_handlers-enabled o attrs level w ws,
      )
    where
      length-map2 :
          (vs : List Writer)
          → length
              (map (handler_with_attrs (root_attrs exporter merged o)) (map (base_handler o) vs))
            ≡ length vs
      length-map2 [] = refl
      length-map2 (v ∷ vs) = ap suc (length-map2 vs)
