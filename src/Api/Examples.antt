-- ===== src/Api/Examples.antt =====
-- The theorems on conversions, at concrete values and types.
use durablefuture.Prelude.{ℕ, ◌*◌, ◌/◌, ◌≡◌, ◌↔◌, [], ◌∷◌, true, ok, err, nat_beq}
use durablefuture.Prelude.Int.{ℤ, pos}
use durablefuture.Api.Values.{Any, nil, other, Float64, FloatOps}
use durablefuture.Api.Converter.{Kind, Typ, Reflect, TypedSerde, convert_slice}
use durablefuture.Api.Converter.Slices.{Converted, convert_slice_iff}

-- Floats counted in halves: the bits 5 are 2.5.
abbrev float : ℕ → Float64
float n = record { bits = n }

abbrev halves : ℤ → Float64
halves (pos n) = float (2 * n)
halves _ = float 0

abbrev floats : FloatOps
floats = record {
  of_int64 = halves;
  to_int64 = λ x. pos (x.bits / 2);
  mul = λ x y. x;
  sub = λ x y. x;
  pow = λ x y. x;
  is_nonpositive = λ x. nat_beq x.bits 0;
  one = float 2;
  two = float 4;
}

abbrev number : ℤ → Any
number (pos n) = other n
number _ = nil

abbrev bits_of : Any → Float64
bits_of (other n) = float n
bits_of _ = float 0

abbrev float_type : Typ
float_type = record { identity = 1; name = "float64"; kind = Kind.float64 }

abbrev int_type : Typ
int_type = record { identity = 2; name = "int"; kind = Kind.int }

abbrev reflect : Reflect
reflect = record {
  type_of = λ v. float_type;
  zero = λ t. nil;
  convertible = λ s t. true;
  convert = λ v t. v;
  float = bits_of;
  of_int64 = number;
  same_float = λ x y. nat_beq x.bits y.bits;
  format = λ v. "";
  format_float = λ x. "2.5";
}

abbrev serde : TypedSerde
serde = record { serialize = λ v. ok []; deserialize = λ b t. err "EOF" }

convert_slice_iff_example :
    (convert_slice reflect floats serde (other 4 ∷ nil ∷ []) int_type ≡ ok (other 2 ∷ nil ∷ []))
    ↔ Converted reflect floats serde int_type (other 4 ∷ nil ∷ []) (other 2 ∷ nil ∷ [])
convert_slice_iff_example =
    convert_slice_iff reflect floats serde int_type (other 4 ∷ nil ∷ []) (other 2 ∷ nil ∷ [])
