-- ===== src/Semantic/Hash.antt =====
-- internal/semantic/hash.go. A 64-bit word is a natural number below 2 ^ 64.
use native.Mathlib.Nat.{pow-suc}
use llmsentinel_router.Prelude.{
  ℕ, zero, suc, ◌+◌, ◌*◌, ◌/◌, ◌%◌, ◌^◌, ◌≤◌, ◌<◌, String, ◌≡◌, refl, Bool, List, [], ◌∷◌, map,
  if◌then◌else◌, arith, beq, take,
}
use llmsentinel_router.Prelude.Int.{ℤ, pos, negsuc, ◌+ℤ◌, ltb_ℤ}

-- What hashing takes from the libraries: the tokens of a text, strings.ToLower then tokenRE, and the
-- bytes of a token's SHA-256 sum.
pub record Digest : Type 0 where
  pub tokens : String → List String
  pub sum256 : String → List ℕ

-- Bit `i` of a word.
abbrev pub test_bit : ℕ → ℕ → Bool
test_bit w i = beq (w / 2 ^ i % 2) 1

-- value = (value << 8) | uint64(b), for each of the first eight bytes. The low byte is empty before
-- the `|`, so it is a sum.
unfoldable pub big_endian : ℕ → List ℕ → ℕ
big_endian value [] = value
big_endian value (b ∷ bs) = big_endian (value * 256 % 2 ^ 64 + b) bs

-- One token's vote on one place of the vector.
unfoldable pub vote : ℕ → ℕ → ℤ → ℤ
vote value bit v = if test_bit value bit then v +ℤ pos 1 else v +ℤ negsuc 0

-- The place `bit` of the vector after all tokens.
unfoldable pub tally : ℕ → List ℕ → ℤ → ℤ
unfolding vote
tally bit [] v = v
tally bit (value ∷ values) v = tally bit values (vote value bit v)

-- out |= uint64(1) << bit for the places that are positive, from `bit` on, `left` of them. Each bit
-- is set once, so `|` is a sum.
unfoldable pub collect : ℕ → ℕ → List ℕ → ℕ
unfolding tally
collect zero bit values = 0
collect (suc left) bit values =
    (if ltb_ℤ (pos 0) (tally bit values (pos 0)) then 2 ^ bit else 0)
    + collect left (suc bit) values

unfoldable pub sim_hash : Digest → String → ℕ
unfolding big_endian collect
sim_hash d text = collect 64 0 (map (λ t. big_endian 0 (take 8 (d.sum256 t))) (d.tokens text))

-- bits.OnesCount64(a ^ b): the places, of the `left` low ones, in which the words differ.
unfoldable pub differing : ℕ → ℕ → ℕ → ℕ
differing zero a b = 0
differing (suc left) a b = (if beq (a % 2) (b % 2) then 0 else 1) + differing left (a / 2) (b / 2)

unfoldable pub hamming_distance : ℕ → ℕ → ℕ
unfolding differing
hamming_distance a b = differing 64 a b

differing-le : (n a b : ℕ) → differing n a b ≤ n
unfolding differing
differing-le zero a b = omega arith
differing-le (suc n) a b = ground (arith, differing-le n (a / 2) (b / 2))

differing_self : (n a : ℕ) → differing n a a ≡ 0
unfolding differing
differing_self zero a = refl
differing_self (suc n) a = ground (arith, differing_self n (a / 2))

differing_comm : (n a b : ℕ) → differing n a b ≡ differing n b a
unfolding differing
differing_comm zero a b = refl
differing_comm (suc n) a b = ground (arith, differing_comm n (a / 2) (b / 2))

differing_triangle : (n a b c : ℕ) → differing n a c ≤ differing n a b + differing n b c
unfolding differing
differing_triangle zero a b c = omega arith
differing_triangle (suc n) a b c = ground (arith, differing_triangle n (a / 2) (b / 2) (c / 2))

differing_zero : (n a b : ℕ) → a < 2 ^ n → b < 2 ^ n → differing n a b ≡ 0 → a ≡ b
unfolding differing
differing_zero zero a b p q h = omega arith
differing_zero (suc n) a b p q h =
    let p' : a / 2 < 2 ^ n = omega (arith, pow-suc 2 n) in
    let q' : b / 2 < 2 ^ n = omega (arith, pow-suc 2 n) in
    ground (arith, differing_zero n (a / 2) (b / 2) p' q')

pub hamming_distance_self : (a : ℕ) → hamming_distance a a ≡ 0
unfolding hamming_distance
hamming_distance_self a = differing_self 64 a

-- HammingDistance is a metric: it is 0 from a word to itself, is the same both ways, obeys the
-- triangle inequality, and is at most 64.
pub hamming_distance_metric :
    (a b c : ℕ)
    → (hamming_distance a a ≡ 0)
      × (hamming_distance a b ≡ hamming_distance b a)
      × (hamming_distance a c ≤ hamming_distance a b + hamming_distance b c)
      × (hamming_distance a b ≤ 64)
unfolding hamming_distance
hamming_distance_metric a b c =
    (differing_self 64 a, differing_comm 64 a b, differing_triangle 64 a b c, differing-le 64 a b)

-- Words of 64 bits at distance 0 are equal.
pub eq_of_hamming_distance : (a b : ℕ) → a < 2 ^ 64 → b < 2 ^ 64 → hamming_distance a b ≡ 0 → a ≡ b
unfolding hamming_distance
eq_of_hamming_distance a b = differing_zero 64 a b

four_places : hamming_distance 0xff00 0xf0f0 ≡ 8
unfolding hamming_distance
four_places = refl
