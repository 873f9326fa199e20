-- ===== src/Sdk/Registry.antt =====
-- sdk/internal/registry.go: the in-memory registry of workflow and activity functions.
use durablefuture.Prelude.{
  ℕ, suc, ◌≡◌, ◌≢◌, refl, String, [], ◌∷◌, none, some, Option-cases, inl, inr, Bool, true, Result,
  ok, err, arith, concat, length, eq_iff, eq_refl, if◌then◌else◌,
}
use durablefuture.Prelude.Dict.{Dict, lookup, insert, lookup-insert}

-- `F` is the type of registered values, `is_func` is reflection's test that a value is a function,
-- and `show` prints one for the error of a second registration.
module _ {F : Type 0} where
  unfoldable pub registry_get : Dict F → String → Result F
  registry_get entries k = elim (lookup k entries) [
    | none ↦ err (concat ("key " ∷ k ∷ " have no value" ∷ []))
    | some entry ↦ ok entry
  ]

  unfoldable pub registry_size : Dict F → ℕ
  registry_size entries = length entries

  module _ (is_func : F → Bool) (show : F → String) where
    -- The new map where the value is accepted.
    unfoldable pub registry_set : String → F → Dict F → Result (Dict F)
    registry_set k v entries = elim (lookup k entries) [
      | some old ↦ err (concat ("key " ∷ k ∷ " have value: " ∷ show v ∷ []))
      | none ↦
          if is_func v
          then ok (insert k v entries)
          else err (concat ("entry '" ∷ k ∷ "' is not a function" ∷ []))
    ]

    length-insert :
        (k : String) (v : F) (m : Dict F)
        → lookup k m ≡ none
        → length (insert k v m) ≡ suc (length m)
    unfolding lookup insert
    length-insert k v [] h = refl
    length-insert k v ((j, w) ∷ m) h = ground (arith, length-insert k v m)

    -- A registration that succeeds was for a function under a new name: the name then has the
    -- function, every other name has what it had, and the registry has one more entry. A second
    -- registration of the name fails.
    pub registry_set-ok :
        (k j : String) (v w : F) (entries entries' : Dict F)
        → registry_set k v entries ≡ ok entries'
        → j ≢ k
        → (is_func v ≡ true)
          × (registry_get entries' k ≡ ok v)
          × (registry_get entries' j ≡ registry_get entries j)
          × (registry_size entries' ≡ suc (registry_size entries))
          × ((m : String) × (registry_set k w entries' ≡ err m))
    unfolding registry_get registry_set registry_size
    registry_set-ok k j v w entries entries' h ne = elim (Option-cases (lookup k entries)) [
      | inr (old, e) ↦ ground arith
      | inl e ↦
          let new : entries' ≡ insert k v entries = ground arith in
          let found = lookup-insert k k v entries in
          (
            ground arith,
            ground (arith, found, eq_refl k),
            ground (arith, lookup-insert k j v entries, eq_iff k j),
            ground (arith, length-insert k v entries e),
            (concat ("key " ∷ k ∷ " have value: " ∷ show w ∷ []), ground (arith, found, eq_refl k)),
          )
    ]
