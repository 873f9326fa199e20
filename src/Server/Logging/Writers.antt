-- ===== src/Server/Logging/Writers.antt =====
-- The writers that a configuration comes to.
use durablefuture.Prelude.{
  ◌≡◌, ◌≢◌, refl, sym, ap, ◌∙◌, String, List, [], ◌∷◌, ◌++◌, map, none, some, Option-cases, Bool,
  Bool-cases, false, inl, inr, ◌⊎◌, arith, contains, ◌==◌, eq_iff, Each, Each-append,
  some-injective,
}
use durablefuture.Prelude.Words.{trim_space, to_lower, strip_prefix, split}
use durablefuture.Server.Logging.{
  Writer, stdout, stderr, file, LoggerConfig, Gathered, key_of, or_stdout, held_for, open_file,
  add_writer, add_file, add_named, add_entry, add_entries, writers,
}

-- No writer is in the list twice.
abbrev pub Distinct : List Writer → Type 0
Distinct [] = Unit
Distinct (w ∷ ws) = Each (λ v. w ≢ v) ws × Distinct ws

-- A handle that is held is the file of the configured path.
abbrev pub Held : LoggerConfig → Type 0
Held c = (c.held ≡ none) ⊎ (c.held ≡ some (file c.file_path))

Distinct-snoc :
    (ws : List Writer) (w : Writer) → Distinct ws → Each (λ v. v ≢ w) ws → Distinct (ws ++ w ∷ [])
Distinct-snoc [] w d h = (tt, tt)
Distinct-snoc (v ∷ ws) w d h =
    (Each-append (λ x. v ≢ x) ws (w ∷ []) d.0 (h.0, tt), Distinct-snoc ws w d.1 h.1)

contains-map :
    (ws : List Writer) (w : Writer)
    → contains (map key_of ws) (key_of w) ≡ false
    → Each (λ v. v ≢ w) ws
contains-map [] w h = tt
contains-map (v ∷ ws) w h = elim (Bool-cases (key_of v == key_of w)) [
  | inl e ↦ let found = rw e at h in ground (arith, found)
  | inr e ↦ (
    (λ same.
        let again = (eq_iff (key_of v) (key_of w)).1 (ap key_of same) in ground (arith, e, again)),
    contains-map ws w (rw e at h),
  )
]

map-snoc :
    (ws : List Writer) (w : Writer) → map key_of (ws ++ w ∷ []) ≡ map key_of ws ++ key_of w ∷ []
map-snoc [] w = refl
map-snoc (v ∷ ws) w = ap (◌∷◌ (key_of v)) (map-snoc ws w)

-- The keys seen are those of the writers, which are distinct; the handle is that of the path.
pub record Tidy (out : Gathered) : Type 0 where
  pub keys : out.seen ≡ map key_of out.writers
  pub distinct : Distinct out.writers
  pub held : Held out.config

module _ (opens : String → Bool) where
  add_writer-Tidy :
      (w : Writer) (out : Gathered) → Tidy out → Tidy (add_writer opens (key_of w) (some w) out)
  unfolding add_writer
  add_writer-Tidy w out t = elim (Bool-cases (contains out.seen (key_of w))) [
    | inl e ↦ rw e t
    | inr e ↦ rw e (record {
      keys = ap (λ ks. ks ++ key_of w ∷ []) t.keys ∙ sym (map-snoc out.writers w);
      distinct =
          Distinct-snoc out.writers w t.distinct (contains-map out.writers w (rw t.keys at e));
      held = t.held;
    })
  ]

  or_stdout-ne : (ws : List Writer) → or_stdout ws ≢ []
  or_stdout-ne [] e = ground (arith, e)
  or_stdout-ne (w ∷ ws) e = ground (arith, e)

  or_stdout-Distinct : (ws : List Writer) → Distinct ws → Distinct (or_stdout ws)
  or_stdout-Distinct [] d = (tt, tt)
  or_stdout-Distinct (w ∷ ws) d = d

  held_for-file :
      (path : String) (c : LoggerConfig) (w : Writer)
      → Held c
      → held_for path c ≡ some w
      → w ≡ file path
  held_for-file path c w h e = elim (Bool-cases (c.file_path == path)) [
    | inr differs ↦ let none_held = rw differs at e in ground (arith, none_held)
    | inl same ↦
        let holds = rw same at e in
        let path_same = (eq_iff c.file_path path).0 same in
        elim h [
          | inl none_held ↦ ground (arith, none_held, holds)
          | inr held ↦ some-injective (sym holds ∙ held) ∙ ap file path_same
        ]
  ]

  -- A file that opens gives the writer of its path, and the handle stays that of the path.
  open_file-Held :
      (path : String) (c : LoggerConfig)
      → Held c
      → let out = open_file opens path c in
        ((out.0 ≡ none) ⊎ (out.0 ≡ some (file path))) × Held out.1
  unfolding open_file
  open_file-Held path c h = elim (Bool-cases (path == "")) [
    | inl e ↦ rw (e, open_file) (inl refl, h)
    | inr e ↦ elim (Option-cases (held_for path c)) [
      | inr (w, e') ↦
          rw (e, open_file) (rw (e', open_file) (inr (ap some (held_for-file path c w h e')), h))
      | inl e' ↦
          rw (e, open_file)
            (rw (e', open_file)
              (elim (Bool-cases (opens path)) [
                | inl opened ↦ rw opened (inr refl, inr refl)
                | inr refused ↦ rw refused (inl refl, h)
              ]))
    ]
  ]

  add_file-Tidy : (path : String) (out : Gathered) → Tidy out → Tidy (add_file opens path out)
  unfolding add_file add_writer
  add_file-Tidy path out t =
      let (opened, held) = open_file-Held path out.config t.held in
      let (w, c) = open_file opens path out.config in
      let t' : Tidy (record out { config = c }) = record {
        keys = t.keys;
        distinct = t.distinct;
        held = held;
      } in
      elim opened [
        | inl e ↦ rw e t'
        | inr e ↦ rw e (add_writer-Tidy (file path) (record out { config = c }) t')
      ]

  add_named-Tidy : (name : String) (out : Gathered) → Tidy out → Tidy (add_named opens name out)
  unfolding add_named
  add_named-Tidy name out t = elim (Bool-cases (name == "stdout")) [
    | inl e ↦ rw (e, add_named) (add_writer-Tidy stdout out t)
    | inr e ↦
        rw (e, add_named)
          (elim (Bool-cases (name == "stderr")) [
            | inl e ↦ rw e (add_writer-Tidy stderr out t)
            | inr e ↦ rw e (elim (Bool-cases (name == "file")) [
              | inr e ↦ rw e t
              | inl e ↦ rw e (elim (Bool-cases (out.config.file_path == "")) [
                | inl e ↦ rw e t
                | inr e ↦ rw e (add_file-Tidy out.config.file_path out t)
              ])
            ])
          ])
  ]

  add_entry-Tidy : (raw : String) (out : Gathered) → Tidy out → Tidy (add_entry opens raw out)
  unfolding add_entry
  add_entry-Tidy raw out t =
      let name = trim_space raw in
      elim (Bool-cases (name == "")) [
        | inl e ↦ rw (e, add_entry) t
        | inr e ↦
            rw (e, add_entry)
              (elim (Option-cases (strip_prefix "file:" (to_lower name))) [
                | inl e' ↦ rw (e', add_entry) (add_named-Tidy (to_lower name) out t)
                | inr (rest, e') ↦ rw (e', add_entry) (add_file-Tidy _ out t)
              ])
      ]

  add_entries-Tidy :
      (entries : List String) (out : Gathered) → Tidy out → Tidy (add_entries opens entries out)
  unfolding add_entries
  add_entries-Tidy [] out t = t
  add_entries-Tidy (raw ∷ entries) out t =
      add_entries-Tidy entries (add_entry opens raw out) (add_entry-Tidy raw out t)

  -- Whatever the output setting, there is a writer, no writer is used twice, and the handle that the
  -- configuration holds is of its path, as it was before.
  pub writers-Distinct :
      (c : LoggerConfig)
      → Held c
      → let out = writers opens c in (out.0 ≢ []) × Distinct out.0 × Held out.1
  unfolding writers
  writers-Distinct c h = elim (Bool-cases (trim_space c.output == "")) [
    | inl e ↦ rw e ((λ none_left. ground (arith, none_left)), (tt, tt), h)
    | inr e ↦
        let start : Gathered = record { writers = []; seen = []; config = c } in
        let out = add_entries opens (split b',' (trim_space c.output)) start in
        let t =
          add_entries-Tidy (split b',' (trim_space c.output)) start
            (record { keys = refl; distinct = tt; held = h }) in
        rw e (or_stdout-ne out.writers, or_stdout-Distinct out.writers t.distinct, t.held)
  ]
