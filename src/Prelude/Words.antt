-- ===== src/Prelude/Words.antt =====
-- Go's packages strings and strconv on texts: spaces, case, prefixes, splitting, and numerals. Case is
-- that of the letters whose lower case is ASCII: the code compares a lowered text with ASCII words.
use Prim.Native.Nat.{ℕ, zero, suc, ◌+◌, ◌-◌, ◌*◌, ◌^◌}
use Prim.Native.String.{String}
use Prim.Native.Char.{Char, code, nul}
use mathlib.Core.Bool.{Bool, ◌&&◌, ◌||◌}
use mathlib.Core.List.{List, [], ◌∷◌}
use mathlib.Core.Option.{Option, none, some}
use text.Mathlib.Text.{◌==◌}
use durablefuture.Prelude.Tests.{nat_beq, leb, ltb, if◌then◌else◌}
use durablefuture.Prelude.Int.{ℤ, pos, negsuc}

-- `unicode.IsSpace`.
unfoldable pub is_space : ℕ → Bool
is_space c =
    leb 9 c && leb c 13
    || nat_beq c 32
    || nat_beq c 0x85
    || nat_beq c 0xA0
    || nat_beq c 0x1680
    || leb 0x2000 c && leb c 0x200A
    || nat_beq c 0x2028
    || nat_beq c 0x2029
    || nat_beq c 0x202F
    || nat_beq c 0x205F
    || nat_beq c 0x3000

trim_left : String → String
trim_left String.[] = ""
trim_left (String.◌∷◌ c s) =
    let rest = trim_left s in if is_space (code c) then rest else String.◌∷◌ c s

trim_right : String → String
trim_right String.[] = ""
trim_right (String.◌∷◌ c s) =
    let rest = trim_right s in if rest == "" && is_space (code c) then "" else String.◌∷◌ c rest

-- `strings.TrimSpace`.
unfoldable pub trim_space : String → String
unfolding trim_left trim_right is_space
trim_space s = trim_right (trim_left s)

abbrev nth_char : String → ℕ → Char
nth_char String.[] n = nul
nth_char (String.◌∷◌ c s) zero = c
nth_char (String.◌∷◌ c s) (suc n) = nth_char s n

abbrev letters : String
letters = "abcdefghijklmnopqrstuvwxyz"

-- The Turkish capital I and the Kelvin sign lower to ASCII letters.
abbrev lower_char : Char → Char
lower_char c =
    if leb b'A' (code c) && leb (code c) b'Z'
    then nth_char letters (code c - b'A')
    else if nat_beq (code c) 0x130
    then nth_char letters 8
    else if nat_beq (code c) 0x212A
    then nth_char letters 10
    else c

-- `strings.ToLower`.
unfoldable pub to_lower : String → String
to_lower String.[] = ""
to_lower (String.◌∷◌ c s) = String.◌∷◌ (lower_char c) (to_lower s)

-- What is left of a text behind a prefix, if it has that: `strings.HasPrefix` and `strings.TrimPrefix`.
unfoldable pub strip_prefix : String → String → Option String
strip_prefix String.[] s = some s
strip_prefix (String.◌∷◌ p ps) String.[] = none
strip_prefix (String.◌∷◌ p ps) (String.◌∷◌ c s) =
    let rest = strip_prefix ps s in if nat_beq (code p) (code c) then rest else none

abbrev split_char : ℕ → Char → List String → List String
split_char sep c [] = []
split_char sep c (part ∷ parts) =
    if nat_beq (code c) sep then "" ∷ part ∷ parts else String.◌∷◌ c part ∷ parts

-- `strings.Split` at one character.
unfoldable pub split : ℕ → String → List String
split sep String.[] = "" ∷ []
split sep (String.◌∷◌ c s) = split_char sep c (split sep s)

abbrev cut_char : ℕ → Char → String → Option (String × String) → Option (String × String)
cut_char sep c s rest =
    if nat_beq (code c) sep
    then some ("", s)
    else elim rest [ none ↦ none | some (k, v) ↦ some (String.◌∷◌ c k, v) ]

-- `strings.SplitN(s, sep, 2)`, where it has two parts.
unfoldable pub cut : ℕ → String → Option (String × String)
cut sep String.[] = none
cut sep (String.◌∷◌ c s) = cut_char sep c s (cut sep s)

digits_from : ℕ → String → Option ℕ
digits_from n String.[] = some n
digits_from n (String.◌∷◌ c s) =
    let rest = digits_from (n * 10 + (code c - b'0')) s in
    if leb b'0' (code c) && leb (code c) b'9' then rest else none

abbrev in_range : ℕ → Option ℕ → Option ℕ
in_range bound none = none
in_range bound (some n) = if ltb n bound then some n else none

abbrev negated : ℕ → ℤ
negated zero = pos 0
negated (suc n) = negsuc n

abbrev as_positive : Option ℕ → Option ℤ
as_positive none = none
as_positive (some n) = some (pos n)

abbrev as_negative : Option ℕ → Option ℤ
as_negative none = none
as_negative (some n) = some (negated n)

-- The digits behind the sign, of which there is one at least.
unsigned : ℕ → String → Option ℕ
unfolding digits_from
unsigned bound String.[] = none
unsigned bound (String.◌∷◌ c s) = in_range bound (digits_from 0 (String.◌∷◌ c s))

abbrev atoi_sign : Char → String → Option ℤ
atoi_sign c s =
    if nat_beq (code c) b'-'
    then as_negative (unsigned (2 ^ 63 + 1) s)
    else if nat_beq (code c) b'+'
    then as_positive (unsigned (2 ^ 63) s)
    else as_positive (unsigned (2 ^ 63) (String.◌∷◌ c s))

-- `strconv.Atoi`: an int of 64 bits in base ten, or none for its error.
unfoldable pub atoi : String → Option ℤ
unfolding unsigned
atoi String.[] = none
atoi (String.◌∷◌ c s) = atoi_sign c s
