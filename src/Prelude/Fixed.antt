-- ===== src/Prelude/Fixed.antt =====
-- Fixed-point numbers in millionths: a value of the `Float64` interface that computes, and that has
-- every law of `IsOrdered`. The witnesses and tests run on it.
use Prim.Native.Nat.{ℕ, suc, ◌+◌, ◌*◌, ◌/◌, ◌≤◌, ◌<◌}
use mathlib.Core.Path.{refl}
use mathlib.Core.Bool.{true}
use native.Mathlib.Omega.{arith}
use native.Mathlib.Nat.{le-div_iff_mul-le}
use llmsentinel_router.Prelude.Int.{
  ℤ, pos, negsuc, pos_part, neg_part, sub_ℕ, ◌+ℤ◌, ltb_ℤ, leb_ℤ, beq_ℤ,
}
use llmsentinel_router.Prelude.Float.{Float64, IsOrdered}

abbrev neg : ℤ → ℤ
neg a = sub_ℕ (neg_part a) (pos_part a)

-- The quotient rounded towards 0, of magnitudes and with a sign.
abbrev quot_ℤ : ℤ → ℤ → ℤ
quot_ℤ (pos a) (pos b) = pos (a / b)
quot_ℤ (pos a) (negsuc b) = sub_ℕ 0 (a / suc b)
quot_ℤ (negsuc a) (pos b) = sub_ℕ 0 (suc a / b)
quot_ℤ (negsuc a) (negsuc b) = pos (suc a / suc b)

abbrev mul_ℤ : ℤ → ℤ → ℤ
mul_ℤ a b =
    sub_ℕ (pos_part a * pos_part b + neg_part a * neg_part b)
      (pos_part a * neg_part b + neg_part a * pos_part b)

instance abbrev pub fixed : Float64 ℤ
fixed = record {
  lit = λ n. pos (n * 100);
  of_int = λ i. mul_ℤ i (pos 1_000_000);
  trunc = λ x. quot_ℤ x (pos 1_000_000);
  add = λ a b. a +ℤ b;
  sub = λ a b. a +ℤ neg b;
  mul = λ a b. quot_ℤ (mul_ℤ a b) (pos 1_000_000);
  div = λ a b. quot_ℤ (mul_ℤ a (pos 1_000_000)) b;
  abs = λ a. pos (pos_part a + neg_part a);
  lt = ltb_ℤ;
  le = leb_ℤ;
  eq = beq_ℤ;
  is_finite = λ x. true;
}

quotient_le : (a b : ℕ) → a ≤ b → 0 < b → a * 1_000_000 / b ≤ 1_000_000
quotient_le a b h p = grind (arith, le-div_iff_mul-le)

quotient_half : (a b : ℕ) → b ≤ 2 * a → 0 < b → 500_000 ≤ a * 1_000_000 / b
quotient_half a b h p = (le-div_iff_mul-le p).1 (omega arith)

pub Fixed-IsOrdered : IsOrdered ℤ
Fixed-IsOrdered = record {
  refl_of_finite = λ x h. ground arith;
  refl_of_le = λ x y h. ground arith;
  refl_of_lt = λ x y h. ground arith;
  le_trans = λ x y z h k. ground arith;
  lt-eq-not-le = λ x y h k. ground arith;
  le_total = λ x y h k. ground arith;
  finite_between = λ x y z h k p q. refl;
  lit_mono = λ a b h. ground arith;
  lit_finite = λ a h. refl;
  add_num = λ x y h k. ground arith;
  num_of_add_num = λ x y h. ground arith;
  add_zero = λ x h. ground arith;
  add_mono = λ x x' y y' h k p q. ground arith;
  add_finite = λ x a h k. refl;
  sub_num = λ x y h k. ground arith;
  sub_mono = λ x x' y h k p. ground arith;
  sub-le = λ x a h k. ground arith;
  ratio_unit = λ a b h p. ground (arith, quotient_le (a * 1_000_000) (b * 1_000_000));
  ratio_half = λ a b h k p. ground (arith, quotient_half (a * 1_000_000) (b * 1_000_000));
}
