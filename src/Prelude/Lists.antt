-- ===== src/Prelude/Lists.antt =====
-- Lists measured and indexed by native numbers, under the library's names.
use Prim.Native.Nat.{ℕ, zero, suc, ◌+◌, ◌<◌}
use mathlib.Core.Path.{◌≡◌, refl, ap, subst}
use mathlib.Core.List.{List, [], ◌∷◌, ◌++◌}
use mathlib.Core.Option.{Option, none, some}
use native.Mathlib.Omega.{arith}

module _ {ℓ} {A : Type ℓ} where
  abbrev pub length : List A → ℕ
  length [] = 0
  length (x ∷ xs) = suc (length xs)

  abbrev pub get_elem? : List A → ℕ → Option A
  get_elem? [] i = none
  get_elem? (x ∷ xs) zero = some x
  get_elem? (x ∷ xs) (suc i) = get_elem? xs i

  abbrev pub take : ℕ → List A → List A
  take zero xs = []
  take (suc n) [] = []
  take (suc n) (x ∷ xs) = x ∷ take n xs

  pub length-append : (xs ys : List A) → length (xs ++ ys) ≡ length xs + length ys
  length-append [] ys = omega arith
  length-append (x ∷ xs) ys = omega (arith, length-append xs ys)

  pub get_elem?-append :
      (xs ys : List A) (i : ℕ) (a : A) → get_elem? xs i ≡ some a → get_elem? (xs ++ ys) i ≡ some a
  get_elem?-append [] ys i a h = ground arith
  get_elem?-append (x ∷ xs) ys zero a h = h
  get_elem?-append (x ∷ xs) ys (suc i) a h = get_elem?-append xs ys i a h

-- The property at each element, as one product.
abbrev pub Each {ℓ κ} : {A : Type ℓ} → (A → Type κ) → List A → Type κ
Each Holds [] = Unit
Each Holds (first ∷ rest) = Holds first × Each Holds rest

module _ {ℓ κ} {A : Type ℓ} (Holds : A → Type κ) where
  pub Each-append :
      (front back : List A) → Each Holds front → Each Holds back → Each Holds (front ++ back)
  Each-append [] back none_of them = them
  Each-append (first ∷ rest) back (one, others) them = (one, Each-append rest back others them)

  pub Each-snoc :
      (front : List A) (last : A) → Each Holds front → Holds last → Each Holds (front ++ last ∷ [])
  Each-snoc front last them holds = Each-append front (last ∷ []) them (holds, tt)

abbrev value_or {ℓ} : {A : Type ℓ} → A → Option A → A
value_or a none = a
value_or a (some b) = b

pub some-injective {ℓ} : {A : Type ℓ} {a b : A} → some a ≡ some b → a ≡ b
some-injective {A} {a} e = ap (value_or a) e

pub Each-get_elem? {ℓ κ} :
    {A : Type ℓ} (Holds : A → Type κ) (xs : List A) (i : ℕ) (x : A)
    → Each Holds xs
    → get_elem? xs i ≡ some x
    → Holds x
Each-get_elem? Holds [] i x h e = ground (arith, e)
Each-get_elem? Holds (y ∷ ys) zero x h e = subst Holds (some-injective e) h.0
Each-get_elem? Holds (y ∷ ys) (suc i) x h e = Each-get_elem? Holds ys i x h.1 e

pub length-get_elem? {ℓ} :
    {A : Type ℓ} (xs : List A) (n : ℕ) → n < length xs → (x : A) × (get_elem? xs n ≡ some x)
length-get_elem? [] n h = elim h [ ]
length-get_elem? (x ∷ xs) zero h = (x, refl)
length-get_elem? (x ∷ xs) (suc n) h = length-get_elem? xs n (omega arith)
