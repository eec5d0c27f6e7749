-- ===== src/Threshold.antt =====
-- internal/threshold/threshold.go: the rolling window of decisions and the dynamic threshold. The
-- mutex makes each method atomic; a method that mutates returns the new state.
pub mod Window
pub mod Bounds
use llmsentinel_router.Prelude.{
  ℕ, zero, suc, ◌+◌, Bool, true, false, not, ◌&&◌, Option, none, some, List, [], ◌∷◌, ◌++◌,
  if◌then◌else◌, beq, length, drop,
}
use llmsentinel_router.Prelude.Int.{ℤ, pos, ltb_ℤ, leb_ℤ, beq_ℤ}
use llmsentinel_router.Prelude.Float.{Float64}

pub record Dynamic (F : Type 0) : Type 0 where
  pub target_rate : F
  pub window_size : ℤ
  pub threshold : F
  pub window : List Bool

-- The count of `strong` of rateLocked.
unfoldable pub count_strong : List Bool → ℕ
count_strong [] = 0
count_strong (true ∷ w) = suc (count_strong w)
count_strong (false ∷ w) = count_strong w

module _ {F : Type 0} where
  -- `copy` moves the window down by one place; its last place, which is there since `New` makes the
  -- size positive, takes the decision.
  unfoldable pub add_decision : Bool → Dynamic F → Dynamic F
  add_decision strong d =
      if beq_ℤ (pos (length d.window)) d.window_size
      then record d { window = drop 1 d.window ++ strong ∷ [] }
      else record d { window = d.window ++ strong ∷ [] }

  unfoldable pub reset : Option F → Dynamic F → Dynamic F
  reset none d = record d { window = [] }
  reset (some t) d = record d { window = []; threshold = t }

module _ {F : Type 0} ⦃fl : Float64 F⦄ where
  unfoldable pub new : F → ℤ → F → Dynamic F
  new target_rate window_size initial = record {
    target_rate = if fl.le target_rate (fl.lit 0) then fl.lit 500 else target_rate;
    window_size = if leb_ℤ window_size (pos 0) then pos 20 else window_size;
    threshold = if fl.le initial (fl.lit 0) then fl.lit 7_000 else initial;
    window = [];
  }

  unfoldable pub rate_locked : List Bool → F
  rate_locked w =
      if beq (length w) 0
      then fl.lit 0
      else fl.div (fl.of_int (pos (count_strong w))) (fl.of_int (pos (length w)))

  unfoldable pub is_strict_mode : Dynamic F → Bool
  is_strict_mode d =
      leb_ℤ d.window_size (pos (length d.window)) && fl.lt d.target_rate (rate_locked d.window)

  unfoldable pub min_float : F → F → F
  min_float a b = if fl.lt a b then a else b

  unfoldable pub max_float : F → F → F
  max_float a b = if fl.lt b a then a else b

  -- The threshold that Adjust sets on a full window.
  unfoldable pub adjusted : F → F → F → F
  unfolding min_float max_float
  adjusted rate target old =
      if fl.lt target rate
      then min_float (fl.lit 9_900) (fl.add old (fl.lit 100))
      else if fl.lt rate (fl.sub target (fl.lit 200))
      then max_float (fl.lit 0) (fl.sub old (fl.lit 200))
      else old

  -- The new state, and the results: the threshold and whether it has changed.
  unfoldable pub adjust : Dynamic F → Dynamic F × F × Bool
  unfolding adjusted
  adjust d =
      if ltb_ℤ (pos (length d.window)) d.window_size
      then (d, d.threshold, false)
      else (let t = adjusted (rate_locked d.window) d.target_rate d.threshold in
          (record d { threshold = t }, t, not (fl.eq d.threshold t)))
