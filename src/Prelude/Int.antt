-- ===== src/Prelude/Int.antt =====
-- Go's `int` as a signed integer. The operations go through the two parts of an integer, which are
-- native numbers. `add64` is the sum as the machine makes it, modulo 2 ^ 64.
use Prim.Native.Nat.{ℕ, suc, ◌+◌, ◌-◌, ◌*◌, ◌%◌, ◌^◌, ◌≤◌, ◌<◌}
use mathlib.Core.Path.{◌≡◌, refl}
use mathlib.Core.Bool.{Bool}
use native.Mathlib.Omega.{arith}
use llmsentinel_router.Prelude.Tests.{ltb, leb, beq, if◌then◌else◌}

-- `negsuc n` is -(n + 1).
pub data ℤ : Type 0 where
  pos : ℕ → ℤ
  negsuc : ℕ → ℤ

abbrev pub pos_part : ℤ → ℕ
pos_part (pos n) = n
pos_part (negsuc n) = 0

abbrev pub neg_part : ℤ → ℕ
neg_part (pos n) = 0
neg_part (negsuc n) = suc n

-- a - b, as an integer.
abbrev pub sub_ℕ : ℕ → ℕ → ℤ
sub_ℕ a b = if leb b a then pos (a - b) else negsuc (b - a - 1)

infixl 65 ◌+ℤ◌
infix 50 ◌≤ℤ◌ ◌<ℤ◌
abbrev pub ◌+ℤ◌ : ℤ → ℤ → ℤ
a +ℤ b = sub_ℕ (pos_part a + pos_part b) (neg_part a + neg_part b)

abbrev pub ◌≤ℤ◌ : ℤ → ℤ → Type 0
a ≤ℤ b = pos_part a + neg_part b ≤ pos_part b + neg_part a

abbrev pub ◌<ℤ◌ : ℤ → ℤ → Type 0
a <ℤ b = pos_part a + neg_part b < pos_part b + neg_part a

abbrev pub ltb_ℤ : ℤ → ℤ → Bool
ltb_ℤ a b = ltb (pos_part a + neg_part b) (pos_part b + neg_part a)

abbrev pub leb_ℤ : ℤ → ℤ → Bool
leb_ℤ a b = leb (pos_part a + neg_part b) (pos_part b + neg_part a)

abbrev pub beq_ℤ : ℤ → ℤ → Bool
beq_ℤ a b = beq (pos_part a + neg_part b) (pos_part b + neg_part a)

-- The residue of an integer modulo 2 ^ 64, read as a signed 64-bit number.
from_word : ℕ → ℤ
from_word w = if ltb w (2 ^ 63) then pos w else negsuc (2 ^ 64 - 1 - w)

to_word : ℤ → ℕ
to_word (pos n) = n % 2 ^ 64
to_word (negsuc n) = 2 ^ 64 - 1 - n % 2 ^ 64

-- Go's `+` on `int`: wraps around at 64 bits.
unfoldable pub add64 : ℤ → ℤ → ℤ
unfolding from_word to_word
add64 a b = from_word ((to_word a + to_word b) % 2 ^ 64)

-- Go's `*` on `int` and on `time.Duration`: wraps around at 64 bits.
unfoldable pub mul64 : ℤ → ℤ → ℤ
unfolding from_word to_word
mul64 a b = from_word (to_word a * to_word b % 2 ^ 64)

-- Small sums of numbers that are not negative are exact.
pub add64_exact : (a b : ℕ) → a + b < 2 ^ 63 → add64 (pos a) (pos b) ≡ pos (a + b)
unfolding add64
add64_exact a b h = ground arith

wraps : add64 (pos 9223372036854775807) (pos 1) ≡ negsuc 9223372036854775807
unfolding add64
wraps = refl

product_wraps : mul64 (pos 10_000_000_000) (pos 1_000_000_000) ≡ negsuc 8_446_744_073_709_551_615
unfolding mul64
product_wraps = refl

mixed_product : mul64 (negsuc 4) (pos 3) ≡ negsuc 14
unfolding mul64
mixed_product = refl

mixed_signs : add64 (negsuc 4) (pos 3) ≡ negsuc 1
unfolding add64
mixed_signs = refl
