-- ===== src/Prelude/Dict.antt =====
-- A Go map with text keys, as an association list in which the first entry of a key counts.
use Prim.Native.String.{String}
use mathlib.Core.Path.{◌≡◌, refl}
use mathlib.Core.Logic.{◌≢◌}
use mathlib.Core.Option.{Option, none, some}
use mathlib.Core.List.{List, [], ◌∷◌}
use native.Mathlib.Omega.{arith}
use text.Mathlib.Text.{◌==◌}
use text.Mathlib.TextEquality.{eq_iff}
use durablefuture.Prelude.Tests.{if◌then◌else◌}

abbrev pub Dict {ℓ} : Type ℓ → Type ℓ
Dict V = List (String × V)

module _ {ℓ} {V : Type ℓ} where
  unfoldable pub lookup : String → Dict V → Option V
  lookup key [] = none
  lookup key ((name, held) ∷ entries) =
      let later = lookup key entries in if name == key then some held else later

  unfoldable pub insert : String → V → Dict V → Dict V
  insert key new [] = (key, new) ∷ []
  insert key new ((name, held) ∷ entries) =
      let later = (name, held) ∷ insert key new entries in
      if name == key then (key, new) ∷ entries else later

  pub lookup-insert :
      (key other : String) (new : V) (entries : Dict V)
      → lookup other (insert key new entries)
        ≡ (if key == other then some new else lookup other entries)
  unfolding lookup insert
  lookup-insert key other new [] = refl
  lookup-insert key other new ((name, held) ∷ entries) = ground (
    arith,
    lookup-insert key other new entries,
    eq_iff name other,
    eq_iff name key,
    eq_iff key other,
  )

  pub lookup-insert_other :
      (k j : String) (v : V) (m : Dict V) (o : Option V)
      → k ≢ j
      → lookup j m ≡ o
      → lookup j (insert k v m) ≡ o
  lookup-insert_other k j v m o ne h = ground (arith, eq_iff k j, lookup-insert k j v m)

  pub lookup-insert_same : (k : String) (v : V) (m : Dict V) → lookup k (insert k v m) ≡ some v
  lookup-insert_same k v m = ground (arith, eq_iff k k, lookup-insert k k v m)
