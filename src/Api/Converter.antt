-- ===== src/Api/Converter.antt =====
-- api/serde/type_converter.go: an input of a task becomes a value of a parameter's type.
pub mod Slices
use durablefuture.Prelude.{
  ℕ, suc, String, List, [], ◌∷◌, Bool, true, false, ◌&&◌, ◌||◌, not, Result, ok, err, ◌>>=◌, concat,
  decimal, nat_beq, with_prefix, if◌then◌else◌,
}
use durablefuture.Prelude.Int.{ℤ}
use durablefuture.Api.Values.{Any, nil, string, other, Float64, FloatOps}
use durablefuture.Api.Tasks.{Bytes}

-- The kinds of package reflect.
pub data Kind : Type 0 where
  bool int int8 int16 int32 int64 uint uint8 uint16 uint32 uint64 uintptr float32 float64 complex64
        complex128 array chan func interface map_kind pointer slice string_kind struct
        unsafe_pointer :
      Kind

unfoldable pub is_numeric_kind : Kind → Bool
is_numeric_kind int = true
is_numeric_kind int8 = true
is_numeric_kind int16 = true
is_numeric_kind int32 = true
is_numeric_kind int64 = true
is_numeric_kind uint = true
is_numeric_kind uint8 = true
is_numeric_kind uint16 = true
is_numeric_kind uint32 = true
is_numeric_kind uint64 = true
is_numeric_kind float32 = true
is_numeric_kind float64 = true
is_numeric_kind _ = false

unfoldable pub is_integer_kind : Kind → Bool
is_integer_kind int = true
is_integer_kind int8 = true
is_integer_kind int16 = true
is_integer_kind int32 = true
is_integer_kind int64 = true
is_integer_kind uint = true
is_integer_kind uint8 = true
is_integer_kind uint16 = true
is_integer_kind uint32 = true
is_integer_kind uint64 = true
is_integer_kind _ = false

abbrev pub is_float_kind : Kind → Bool
is_float_kind float32 = true
is_float_kind float64 = true
is_float_kind _ = false

-- A type: its identity, by which types are compared, its text, and its kind.
pub record Typ : Type 0 where
  pub identity : ℕ
  pub name : String
  pub kind : Kind

-- Package reflect: the type of a value that is not nil, `Zero`, `ConvertibleTo`, `Convert`, the
-- float64 of a float, and the `any` of an int64; equality of floats; and `fmt`'s `%v`.
pub record Reflect : Type 0 where
  pub type_of : Any → Typ
  pub zero : Typ → Any
  pub convertible : Typ → Typ → Bool
  pub convert : Any → Typ → Any
  pub float : Any → Float64
  pub of_int64 : ℤ → Any
  pub same_float : Float64 → Float64 → Bool
  pub format : Any → String
  pub format_float : Float64 → String

-- `BinarySerde`: `deserialize` decodes into a new value of the type, or into what the new pointer
-- points to, and gives the value or the pointer.
pub record TypedSerde : Type 0 where
  pub serialize : Any → Result Bytes
  pub deserialize : Bytes → Typ → Result Any

module _ (rf : Reflect) (fl : FloatOps) (serde : TypedSerde) where
  abbrev pub loss_message : Any → Typ → String
  loss_message v target = concat (
      "cannot convert "
      ∷ rf.format_float (rf.float v)
      ∷ " to "
      ∷ target.name
      ∷ " without losing precision"
      ∷ [])

  unfoldable pub float_to_int : Any → Typ → Result Any
  float_to_int v target =
      let int_val = fl.to_int64 (rf.float v) in
      if not (rf.same_float (fl.of_int64 int_val) (rf.float v))
      then err (loss_message v target)
      else ok (rf.convert (rf.of_int64 int_val) target)

  -- The tests behind the float case: an int to a float, and any other convertible pair.
  unfoldable pub convert_other : Any → Typ → Typ → Result Any
  convert_other v source target =
      if is_integer_kind source.kind && is_float_kind target.kind
      then ok (rf.convert v target)
      else if rf.convertible source target
      then ok (rf.convert v target)
      else err (
          concat
            ("cannot convert " ∷ rf.format v ∷ " (" ∷ source.name ∷ ") to " ∷ target.name ∷ []))

  unfoldable pub convert_numeric : Any → Typ → Typ → Result Any
  convert_numeric v source target =
      if is_float_kind source.kind && is_integer_kind target.kind
      then float_to_int v target
      else convert_other v source target

  unfoldable pub convert_via_serializer : Any → Typ → Result Any
  convert_via_serializer v target =
      with_prefix "failed to serialize value for type conversion: " (serde.serialize v)
      >>= λ data_bytes.
          with_prefix "failed to deserialize value to target type: "
            (serde.deserialize data_bytes target)

  unfoldable pub convert_value : Any → Typ → Result Any
  convert_value v target =
      let source = rf.type_of v in
      if nat_beq source.identity target.identity
      then ok v
      else if rf.convertible source target
      then (if is_numeric_kind source.kind && is_numeric_kind target.kind
          then convert_numeric v source target
          else ok (rf.convert v target))
      else convert_via_serializer v target

  -- `ConvertToType`.
  unfoldable pub convert_to_type : Any → Typ → Result Any
  convert_to_type nil target = ok (rf.zero target)
  convert_to_type v target = convert_value v target

  unfoldable pub convert_from : ℕ → List Any → Typ → Result (List Any)
  convert_from i [] target = ok []
  convert_from i (v ∷ vs) target =
      let rest = convert_from (suc i) vs target in
      with_prefix (concat ("failed to convert element " ∷ decimal i ∷ ": " ∷ []))
        (convert_to_type v target)
      >>= λ w. rest >>= λ ws. ok (w ∷ ws)

  -- `ConvertSlice`.
  unfoldable pub convert_slice : List Any → Typ → Result (List Any)
  convert_slice values target = convert_from 0 values target
