-- ===== src/Prelude/Float.antt =====
-- Go's `float64`. The type and its operations are parameters: a definition takes `⦃fl : Float64 F⦄`,
-- and a theorem that needs a law of IEEE arithmetic takes an `IsOrdered F`. NaN is what is not `<=`
-- itself; every law holds of IEEE doubles with rounding to nearest.
use Prim.Native.Nat.{ℕ, ◌*◌, ◌≤◌, ◌<◌}
use mathlib.Core.Path.{◌≡◌}
use mathlib.Core.Bool.{Bool, true, false, not}
use mathlib.Core.Logic.{◌⊎◌, inl, inr}
use native.Mathlib.Omega.{arith}
use llmsentinel_router.Prelude.Int.{ℤ, pos}

pub record Float64 (F : Type 0) : Type 0 where
  -- a literal of the source, in ten-thousandths: `0.05` is `lit 500`
  pub lit : ℕ → F
  -- float64(n) and int(x)
  pub of_int : ℤ → F
  pub trunc : F → ℤ
  pub add : F → F → F
  pub sub : F → F → F
  pub mul : F → F → F
  pub div : F → F → F
  pub abs : F → F
  pub lt : F → F → Bool
  pub le : F → F → Bool
  pub eq : F → F → Bool
  -- neither NaN nor an infinity; only the laws below mention it
  pub is_finite : F → Bool

infix 4 ◌≼◌
abbrev pub ◌≼◌ : {F : Type 0} ⦃fl : Float64 F⦄ → F → F → Type 0
◌≼◌ ⦃fl⦄ x y = fl.le x y ≡ true

abbrev pub IsFinite : {F : Type 0} ⦃fl : Float64 F⦄ → F → Type 0
IsFinite ⦃fl⦄ x = fl.is_finite x ≡ true

pub record IsOrdered (F : Type 0) ⦃fl : Float64 F⦄ : Type 0 where
  pub refl_of_finite : (x : F) → IsFinite x → x ≼ x
  pub refl_of_le : (x y : F) → x ≼ y → (x ≼ x) × (y ≼ y)
  pub refl_of_lt : (x y : F) → fl.lt x y ≡ true → (x ≼ x) × (y ≼ y)
  pub le_trans : (x y z : F) → x ≼ y → y ≼ z → x ≼ z
  pub lt-eq-not-le : (x y : F) → x ≼ x → y ≼ y → fl.lt x y ≡ not (fl.le y x)
  pub le_total : (x y : F) → x ≼ x → y ≼ y → (x ≼ y) ⊎ (y ≼ x)
  pub finite_between : (x y z : F) → IsFinite x → IsFinite z → x ≼ y → y ≼ z → IsFinite y
  pub lit_mono : (a b : ℕ) → a ≤ b → fl.lit a ≼ fl.lit b
  pub lit_finite : (a : ℕ) → a ≤ 10_000_000 → IsFinite (fl.lit a)
  -- a sum with a finite summand is not NaN
  pub add_num : (x y : F) → IsFinite x → y ≼ y → fl.add x y ≼ fl.add x y
  -- NaN is absorbing
  pub num_of_add_num : (x y : F) → fl.add x y ≼ fl.add x y → y ≼ y
  pub add_zero : (x : F) → IsFinite x → (fl.add x (fl.lit 0) ≼ x) × (x ≼ fl.add x (fl.lit 0))
  pub add_mono :
      (x x' y y' : F)
      → fl.add x y ≼ fl.add x y
      → fl.add x' y' ≼ fl.add x' y'
      → x ≼ x'
      → y ≼ y'
      → fl.add x y ≼ fl.add x' y'
  -- so small a summand does not reach past the largest finite number
  pub add_finite : (x : F) (a : ℕ) → IsFinite x → a ≤ 10_000_000 → IsFinite (fl.add x (fl.lit a))
  pub sub_num : (x y : F) → IsFinite x → y ≼ y → fl.sub x y ≼ fl.sub x y
  pub sub_mono :
      (x x' y : F)
      → fl.sub x y ≼ fl.sub x y
      → fl.sub x' y ≼ fl.sub x' y
      → x ≼ x'
      → fl.sub x y ≼ fl.sub x' y
  pub sub-le : (x : F) (a : ℕ) → IsFinite x → a ≤ 10_000_000 → fl.sub x (fl.lit a) ≼ x
  -- a fraction of two counts lies in the unit interval
  pub ratio_unit :
      (a b : ℕ)
      → a ≤ b
      → 0 < b
      → (fl.lit 0 ≼ fl.div (fl.of_int (pos a)) (fl.of_int (pos b)))
        × (fl.div (fl.of_int (pos a)) (fl.of_int (pos b)) ≼ fl.lit 10_000)
  -- and is at least one half where the numerator is
  pub ratio_half :
      (a b : ℕ)
      → a ≤ b
      → b ≤ 2 * a
      → 0 < b
      → fl.lit 5_000 ≼ fl.div (fl.of_int (pos a)) (fl.of_int (pos b))

module _ {F : Type 0} ⦃fl : Float64 F⦄ (o : IsOrdered F) where
  pub zero-IsFinite : IsFinite (fl.lit 0)
  zero-IsFinite = o.lit_finite 0 (omega arith)

  pub zero_num : fl.lit 0 ≼ fl.lit 0
  zero_num = o.refl_of_finite (fl.lit 0) zero-IsFinite

  -- What is not below is above, away from NaN.
  pub le_of_not-lt : (x y : F) → x ≼ x → y ≼ y → fl.lt x y ≡ false → y ≼ x
  le_of_not-lt x y hx hy h = ground (arith, o.lt-eq-not-le x y hx hy)

  pub le_of_lt : (x y : F) → fl.lt x y ≡ true → x ≼ y
  le_of_lt x y h =
      let n : (x ≼ x) × (y ≼ y) = o.refl_of_lt x y h in
      elim (o.le_total x y n.0 n.1) [
        | inl p ↦ p
        | inr p ↦ absurd (ground (arith, o.lt-eq-not-le x y n.0 n.1))
      ]

  pub not-lt_of_le : (x y : F) → y ≼ x → fl.lt x y ≡ false
  not-lt_of_le x y h =
      let n : (y ≼ y) × (x ≼ x) = o.refl_of_le y x h in ground (arith, o.lt-eq-not-le x y n.1 n.0)

  -- `c + d` stays within a finite bound on `c` where `d` is not positive.
  pub add-le_of_nonpos :
      (c d m : F) → IsFinite c → IsFinite m → c ≼ m → d ≼ fl.lit 0 → fl.add c d ≼ m
  add-le_of_nonpos c d m fc fm h hd =
      o.le_trans _ _ _
        (o.add_mono c m d (fl.lit 0) (o.add_num c d fc (o.refl_of_le d _ hd).0)
          (o.add_num m (fl.lit 0) fm zero_num) h hd)
        (o.add_zero m fm).0

  pub add_nonneg : (c d : F) → IsFinite c → fl.lit 0 ≼ c → fl.lit 0 ≼ d → fl.lit 0 ≼ fl.add c d
  add_nonneg c d fc hc hd = o.le_trans _ _ _ (o.add_zero (fl.lit 0) zero-IsFinite).1 (
      o.add_mono (fl.lit 0) c (fl.lit 0) d (o.add_num (fl.lit 0) (fl.lit 0) zero-IsFinite zero_num)
        (o.add_num c d fc (o.refl_of_le _ d hd).1) hc hd)
