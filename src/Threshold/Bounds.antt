-- ===== src/Threshold/Bounds.antt =====
-- Adjust keeps the threshold between 0 and 0.99, and moves it against the escalation rate.
use llmsentinel_router.Prelude.{
  ℕ, ◌≤◌, ◌≡◌, Bool, true, false, List, [], ◌∷◌, arith, inl, inr, Bool-cases, length,
}
use llmsentinel_router.Prelude.Int.{pos, ltb_ℤ}
use llmsentinel_router.Prelude.Float.{
  Float64, IsOrdered, IsFinite, ◌≼◌, zero_num, zero-IsFinite, le_of_not-lt, add_nonneg,
}
use llmsentinel_router.Threshold.{
  Dynamic, count_strong, rate_locked, min_float, max_float, adjusted, adjust,
}

count_strong-le : (w : List Bool) → count_strong w ≤ length w
unfolding count_strong
count_strong-le [] = omega arith
count_strong-le (true ∷ w) = omega (arith, count_strong-le w)
count_strong-le (false ∷ w) = omega (arith, count_strong-le w)

module _ {F : Type 0} ⦃fl : Float64 F⦄ where
  -- A threshold that Adjust may have set.
  abbrev pub InRange : F → Type 0
  InRange t = (fl.lit 0 ≼ t) × (t ≼ fl.lit 9_900)

module _ {F : Type 0} ⦃fl : Float64 F⦄ (o : IsOrdered F) where
  lit_num : (a : ℕ) → a ≤ 10_000_000 → fl.lit a ≼ fl.lit a
  lit_num a h = o.refl_of_finite (fl.lit a) (o.lit_finite a h)

  -- The escalation rate is a number of the unit interval.
  pub rate_unit : (w : List Bool) → (fl.lit 0 ≼ rate_locked w) × (rate_locked w ≼ fl.lit 10_000)
  unfolding rate_locked
  rate_unit [] = (zero_num o, o.lit_mono 0 10_000 (omega arith))
  rate_unit (b ∷ w) = ground (
    arith,
    o.ratio_unit (count_strong (b ∷ w)) (length (b ∷ w)) (count_strong-le (b ∷ w)) (omega arith),
  )

  min-InRange : (t : F) → fl.lit 0 ≼ t → InRange (min_float (fl.lit 9_900) t)
  unfolding min_float
  min-InRange t low = elim (Bool-cases (fl.lt (fl.lit 9_900) t)) [
    | inl above ↦ rw above (o.lit_mono 0 9_900 (omega arith), lit_num 9_900 (omega arith))
    | inr below ↦ rw below (
      low,
      le_of_not-lt o (fl.lit 9_900) t (lit_num 9_900 (omega arith)) (o.refl_of_le _ t low).1 below,
    )
  ]

  max-InRange : (t : F) → t ≼ fl.lit 9_900 → InRange (max_float (fl.lit 0) t)
  unfolding max_float
  max-InRange t high = elim (Bool-cases (fl.lt t (fl.lit 0))) [
    | inl below ↦ rw below (zero_num o, o.lit_mono 0 9_900 (omega arith))
    | inr above ↦
        rw above (le_of_not-lt o t (fl.lit 0) (o.refl_of_le t _ high).0 (zero_num o) above, high)
  ]

  IsFinite-InRange : (t : F) → InRange t → IsFinite t
  IsFinite-InRange t r =
      o.finite_between (fl.lit 0) t (fl.lit 9_900) (zero-IsFinite o)
        (o.lit_finite 9_900 (omega arith)) r.0 r.1

  raised-InRange : (t : F) → InRange t → InRange (min_float (fl.lit 9_900) (fl.add t (fl.lit 100)))
  raised-InRange t r =
      min-InRange (fl.add t (fl.lit 100))
        (add_nonneg o t (fl.lit 100) (IsFinite-InRange t r) r.0 (o.lit_mono 0 100 (omega arith)))

  lowered-InRange : (t : F) → InRange t → InRange (max_float (fl.lit 0) (fl.sub t (fl.lit 200)))
  lowered-InRange t r =
      max-InRange (fl.sub t (fl.lit 200))
        (o.le_trans _ t _ (o.sub-le t 200 (IsFinite-InRange t r) (omega arith)) r.1)

  pub adjusted-InRange : (rate target t : F) → InRange t → InRange (adjusted rate target t)
  unfolding adjusted
  adjusted-InRange rate target t r = elim (Bool-cases (fl.lt target rate)) [
    | inl high ↦ rw high (raised-InRange t r)
    | inr x ↦ elim (Bool-cases (fl.lt rate (fl.sub target (fl.lit 200)))) [
      | inl low ↦ rw (x, low) (lowered-InRange t r)
      | inr y ↦ rw (x, y) r
    ]
  ]

  -- Adjust keeps a threshold of the range [0, 0.99] in it, on every branch.
  pub adjust-InRange : (d : Dynamic F) → InRange d.threshold → InRange (adjust d).0.threshold
  unfolding adjust
  adjust-InRange d r = elim (Bool-cases (ltb_ℤ (pos (length d.window)) d.window_size)) [
    | inl short ↦ rw short r
    | inr full ↦ rw full (adjusted-InRange (rate_locked d.window) d.target_rate d.threshold r)
  ]

  le-add_step : (t : F) → InRange t → t ≼ fl.add t (fl.lit 100)
  le-add_step t r =
      let f : IsFinite t = IsFinite-InRange t r in
      o.le_trans t (fl.add t (fl.lit 0)) _ (o.add_zero t f).1 (
        o.add_mono t t (fl.lit 0) (fl.lit 100) (o.add_num t (fl.lit 0) f (zero_num o))
          (o.add_num t (fl.lit 100) f (lit_num 100 (omega arith))) (o.refl_of_finite t f)
          (o.lit_mono 0 100 (omega arith)))

  adjusted-raises :
      (rate target t : F) → InRange t → fl.lt target rate ≡ true → t ≼ adjusted rate target t
  unfolding adjusted min_float
  adjusted-raises rate target t r high = ground (arith, r.1, le-add_step t r)

  adjusted-lowers :
      (rate target t : F) → InRange t → fl.lt target rate ≡ false → adjusted rate target t ≼ t
  unfolding adjusted max_float
  adjusted-lowers rate target t r low = ground (
    arith,
    r.0,
    o.sub-le t 200 (IsFinite-InRange t r) (omega arith),
    o.refl_of_finite t (IsFinite-InRange t r),
  )

  -- While the escalation rate is above its target, Adjust never lowers a threshold of the range.
  pub adjust-raises :
      (d : Dynamic F)
      → InRange d.threshold
      → fl.lt d.target_rate (rate_locked d.window) ≡ true
      → d.threshold ≼ (adjust d).0.threshold
  unfolding adjust
  adjust-raises d r high = ground (
    arith,
    o.refl_of_finite d.threshold (IsFinite-InRange d.threshold r),
    adjusted-raises (rate_locked d.window) d.target_rate d.threshold r high,
  )

  -- While the rate is not above its target, Adjust never raises it.
  pub adjust-lowers :
      (d : Dynamic F)
      → InRange d.threshold
      → fl.lt d.target_rate (rate_locked d.window) ≡ false
      → (adjust d).0.threshold ≼ d.threshold
  unfolding adjust
  adjust-lowers d r low = ground (
    arith,
    o.refl_of_finite d.threshold (IsFinite-InRange d.threshold r),
    adjusted-lowers (rate_locked d.window) d.target_rate d.threshold r low,
  )
