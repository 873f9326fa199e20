-- ===== src/Sdk/Future.antt =====
-- sdk/internal/future_blocking.go and error_blocking.go: the future of an activity.
use durablefuture.Prelude.{
  String, List, [], ◌∷◌, Option, none, some, Bool, ◌==◌, Result, ok, err, concat, decimal, length,
  if◌then◌else◌,
}
use durablefuture.Api.Values.{Any, nil, string, other}
use durablefuture.Api.Tasks.{Bytes}

-- `serde.BinarySerde` at dynamic values: `deserialize data type` decodes into a pointer to `type`.
pub record BinarySerde : Type 0 where
  pub serialize : Any → Result Bytes
  pub deserialize : Bytes → String → Result Any

pub record Blocking : Type 0 where
  pub is_resolved : Bool
  pub value : Option (List Any)
  pub err : Option String

-- What a call in workflow code comes to: a value, a panic with `errorBlockingFuture`, which suspends
-- the workflow, or a panic with another value, by its text.
pub data Signal {ℓ} (A : Type ℓ) : Type ℓ where
  value : A → Signal A
  blocking_future : Signal A
  panic : String → Signal A

-- `fmt`'s `%v` of a dynamic value, and the converter of the context (`none` for nil).
module _ (format : Any → String) (converter : Option BinarySerde) where
  -- The pointer's new value is `some`; `ok none` leaves it alone.
  convert : Any → String → Result (Option Any)
  convert v target = elim converter [
    | none ↦ err "no converter available for type conversion"
    | some c ↦ elim (c.serialize v) [
      | err m ↦ err (concat ("failed to serialize result value: " ∷ m ∷ []))
      | ok bytes ↦ elim (c.deserialize bytes target) [
        | err m ↦ err (concat ("failed to deserialize result into target type: " ∷ m ∷ []))
        | ok a ↦ ok (some a)
      ]
    ]
  ]

  convert_result : Any → String → Result (Option Any)
  unfolding convert
  convert_result nil target = ok none
  convert_result v target = convert v target

  -- The error part, then the result part, of the pair that an activity returned.
  read_pair : Any → Any → String → Result (Option Any)
  unfolding convert_result
  read_pair result nil target = convert_result result target
  read_pair result (string s) target =
      if s == ""
      then err (concat ("[Activity Get] workflow execution failed: " ∷ format (string s) ∷ []))
      else err s
  read_pair result (other v) target =
      err (concat ("[Activity Get] workflow execution failed: " ∷ format (other v) ∷ []))

  read_values : List Any → String → Result (Option Any)
  unfolding read_pair
  read_values (result ∷ error ∷ []) target = read_pair result error target
  read_values vs target = err (
      concat (
        "invalid workflow result format: expected [result, error], got "
        ∷ decimal (length vs)
        ∷ " elements"
        ∷ []))

  read_resolved : Blocking → Option String → Result (Option Any)
  unfolding read_values
  read_resolved f target = elim f.err [
    | some m ↦ err m
    | none ↦ elim target [
      | none ↦ ok none
      | some t ↦ elim f.value [ none ↦ ok none | some vs ↦ read_values vs t ]
    ]
  ]

  -- `Get` with a pointer to the type `target`, or with a nil pointer.
  unfoldable pub get : Blocking → Option String → Signal (Result (Option Any))
  unfolding read_resolved
  get f target = if f.is_resolved then value (read_resolved f target) else blocking_future
