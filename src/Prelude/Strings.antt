-- ===== src/Prelude/Strings.antt =====
-- Texts: concatenation of several parts, decimal numerals, and membership in a list of texts.
use Prim.Native.Nat.{ℕ, zero, suc, ◌/◌, ◌%◌}
use Prim.Native.String.{String, ◌++◌}
use mathlib.Core.Bool.{Bool, false, ◌||◌}
use mathlib.Core.List.{List, [], ◌∷◌}
use text.Mathlib.Text.{◌==◌}
use mathlib.Core.Option.{some, none}
use durablefuture.Prelude.Lists.{get_elem?}
use durablefuture.Prelude.Tests.{nat_beq, if◌then◌else◌, Result, ok, err}

-- `fmt.Sprintf` with `%s` verbs: the parts of the format and the arguments, in order.
abbrev pub concat : List String → String
concat [] = ""
concat (s ∷ ss) = s ++ concat ss

abbrev digits : List String
digits = "0" ∷ "1" ∷ "2" ∷ "3" ∷ "4" ∷ "5" ∷ "6" ∷ "7" ∷ "8" ∷ "9" ∷ []

abbrev digit : ℕ → String
digit d = elim (get_elem? digits d) [ some s ↦ s | none ↦ "" ]

-- The last argument of the first call is enough fuel: a number has no more digits than its value.
decimal_fuel : ℕ → ℕ → String
decimal_fuel zero n = ""
decimal_fuel (suc f) n =
    let higher = decimal_fuel f (n / 10) in
    if nat_beq (n / 10) 0 then digit n else higher ++ digit (n % 10)

-- `%d` of a number that is not negative.
unfoldable pub decimal : ℕ → String
unfolding decimal_fuel
decimal n = decimal_fuel (suc n) n

-- `slices.Contains` on texts.
abbrev pub contains : List String → String → Bool
contains [] s = false
contains (t ∷ ts) s = t == s || contains ts s

-- An error with the text of another behind it, as `fmt.Errorf` makes it with `%w`.
abbrev pub with_prefix {ℓ} : {A : Type ℓ} → String → Result A → Result A
with_prefix p (ok a) = ok a
with_prefix p (err m) = err (concat (p ∷ m ∷ []))
