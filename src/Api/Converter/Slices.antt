-- ===== src/Api/Converter/Slices.antt =====
-- `ConvertSlice` of api/serde/type_converter.go.
use durablefuture.Prelude.{
  ℕ, suc, ◌≡◌, refl, List, [], ◌∷◌, inl, inr, Result-cases, ok, ok-injective, arith, subst, ◌↔◌,
}
use durablefuture.Api.Values.{Any, FloatOps}
use durablefuture.Api.Converter.{
  Typ, Reflect, TypedSerde, convert_to_type, convert_from, convert_slice,
}

module _ (rf : Reflect) (fl : FloatOps) (serde : TypedSerde) (target : Typ) where
  -- Each value has been converted to the one at its place.
  pub data Converted : List Any → List Any → Type 0 where
    done : Converted [] []
    more :
        {v w : Any} {vs ws : List Any}
        → convert_to_type rf fl serde v target ≡ ok w
        → Converted vs ws
        → Converted (v ∷ vs) (w ∷ ws)

  convert_from-Converted :
      (i : ℕ) (vs ws : List Any) → convert_from rf fl serde i vs target ≡ ok ws → Converted vs ws
  unfolding convert_from
  convert_from-Converted i [] [] h = done
  convert_from-Converted i [] (w ∷ ws) h = ground (arith, h)
  convert_from-Converted i (v ∷ vs) ws h =
      elim (Result-cases (convert_to_type rf fl serde v target)) [
        | inr (m, e) ↦ let p = rw e at h in ground (arith, p)
        | inl (w, e) ↦ elim (Result-cases (convert_from rf fl serde (suc i) vs target)) [
          | inr (m, r) ↦ let p = rw (e, r) at h in ground (arith, p)
          | inl (rest, r) ↦
              subst (Converted (v ∷ vs)) (ok-injective (rw (e, r) at h))
                (more e (convert_from-Converted (suc i) vs rest r))
        ]
      ]

  Converted-total :
      {vs ws : List Any} (i : ℕ) → Converted vs ws → convert_from rf fl serde i vs target ≡ ok ws
  unfolding convert_from
  Converted-total i done = refl
  Converted-total i (more e rest) = rw (e, Converted-total (suc i) rest) refl

  -- A slice is converted all or not at all: `ConvertSlice` gives the values that the conversions of
  -- the elements give, in their order, exactly if each of them succeeds.
  pub convert_slice_iff :
      (vs ws : List Any) → (convert_slice rf fl serde vs target ≡ ok ws) ↔ Converted vs ws
  unfolding convert_slice
  convert_slice_iff vs ws = (convert_from-Converted 0 vs ws, Converted-total 0)
