-- ===== src/Base/Bits.antt =====
-- `w & (1 << k)` and `w | (1 << k)` on machine words: testing and setting one bit.
use Prim.Native.Nat.{min, max, bit_and, bit_or, digits, bit_and-bitwise, bit_or-bitwise}
use native.Mathlib.Nat.{pow-suc}
use redis_course.Base.{
  ℕ, zero, suc, ◌+◌, ◌*◌, ◌/◌, ◌%◌, ◌^◌, ◌≤◌, ◌<◌, ◌≡◌, refl, ap, ◌∙◌, arith, ◌==◌, if◌then◌else◌,
}

-- One round of a bitwise operation, for any operation on two digits.
module _ (z : ℕ → ℕ) (f : ℕ → ℕ → ℕ) where
  digits_fuel : (n m a b : ℕ) → a ≤ n → a ≤ m → digits z f n a b ≡ digits z f m a b
  digits_fuel zero zero a b h k = refl
  digits_fuel zero (suc m) zero b h k = refl
  digits_fuel zero (suc m) (suc a) b h k = absurd (omega arith)
  digits_fuel (suc n) zero zero b h k = refl
  digits_fuel (suc n) zero (suc a) b h k = absurd (omega arith)
  digits_fuel (suc n) (suc m) zero b h k = refl
  digits_fuel (suc n) (suc m) (suc a) b h k =
      ap (λ (t : ℕ). t * 2 + f (suc a % 2) (b % 2))
        (digits_fuel n m (suc a / 2) (b / 2) (omega arith) (omega arith))

  digits_step :
      (a b : ℕ)
      → ((c : ℕ) → z c ≡ z (c / 2) * 2 + f 0 (c % 2))
      → digits z f a a b ≡ digits z f (a / 2) (a / 2) (b / 2) * 2 + f (a % 2) (b % 2)
  digits_step zero b h = h b
  digits_step (suc a) b h =
      ap (λ (t : ℕ). t * 2 + f (suc a % 2) (b % 2))
        (digits_fuel a (suc a / 2) (suc a / 2) (b / 2) (omega arith) (omega arith))

bit_and_round : (a b : ℕ) → bit_and a b ≡ bit_and (a / 2) (b / 2) * 2 + min (a % 2) (b % 2)
bit_and_round a b = omega (
  arith,
  bit_and-bitwise a b,
  bit_and-bitwise (a / 2) (b / 2),
  digits_step (λ b. 0) min a b (λ c. omega arith),
)

bit_or_round : (a b : ℕ) → bit_or a b ≡ bit_or (a / 2) (b / 2) * 2 + max (a % 2) (b % 2)
bit_or_round a b = omega (
  arith,
  bit_or-bitwise a b,
  bit_or-bitwise (a / 2) (b / 2),
  digits_step (λ b. b) max a b (λ c. omega arith),
)

-- Bit `k` of `w`.
pub bit : ℕ → ℕ → ℕ
bit w zero = w % 2
bit w (suc k) = bit (w / 2) k

bit_and-zero_below : (n a : ℕ) → a ≤ n → bit_and a 0 ≡ 0
bit_and-zero_below zero zero h = bit_and-bitwise 0 0
bit_and-zero_below zero (suc a) h = absurd (omega arith)
bit_and-zero_below (suc n) zero h = bit_and-bitwise 0 0
bit_and-zero_below (suc n) (suc a) h =
    omega (arith, bit_and_round (suc a) 0, bit_and-zero_below n (suc a / 2) (omega arith))

bit_or-zero_below : (n a : ℕ) → a ≤ n → bit_or a 0 ≡ a
bit_or-zero_below zero zero h = bit_or-bitwise 0 0
bit_or-zero_below zero (suc a) h = absurd (omega arith)
bit_or-zero_below (suc n) zero h = bit_or-bitwise 0 0
bit_or-zero_below (suc n) (suc a) h =
    omega (arith, bit_or_round (suc a) 0, bit_or-zero_below n (suc a / 2) (omega arith))

half-pow : (k : ℕ) → 2 ^ suc k / 2 ≡ 2 ^ k
half-pow k = omega (arith, pow-suc 2 k)

bit_and_shift : (w k : ℕ) → bit_and w (2 ^ suc k) ≡ bit_and (w / 2) (2 ^ k) * 2
bit_and_shift w k = bit_and_round w (2 ^ suc k) ∙ rw (half-pow k) (omega (arith, pow-suc 2 k))

bit_or_shift : (w k : ℕ) → bit_or w (2 ^ suc k) ≡ bit_or (w / 2) (2 ^ k) * 2 + w % 2
bit_or_shift w k = bit_or_round w (2 ^ suc k) ∙ rw (half-pow k) (omega (arith, pow-suc 2 k))

-- Testing a bit by a mask.
pub bit_and-pow : (k w : ℕ) → bit_and w (2 ^ k) ≡ bit w k * 2 ^ k
unfolding bit
bit_and-pow zero w =
    omega (arith, bit_and_round w 1, bit_and-zero_below (w / 2) (w / 2) (omega arith))
bit_and-pow (suc k) w = omega (
  arith,
  bit_and_shift w k,
  ap (λ (t : ℕ). t * 2) (bit_and-pow k (w / 2)),
  ap (λ (t : ℕ). bit (w / 2) k * t) (pow-suc 2 k),
)

one-le-two-pow : (k : ℕ) → 1 ≤ 2 ^ k
one-le-two-pow zero = omega arith
one-le-two-pow (suc k) = omega (arith, pow-suc 2 k, one-le-two-pow k)

bit-lt-two : (w k : ℕ) → bit w k < 2
unfolding bit
bit-lt-two w zero = omega arith
bit-lt-two w (suc k) = bit-lt-two (w / 2) k

-- The test of the source, `w & (1 << k) == 0`.
pub bit_and-pow-zero_iff : (k w : ℕ) → (bit_and w (2 ^ k) == 0) ≡ (bit w k == 0)
bit_and-pow-zero_iff k w = grind (arith, bit_and-pow k w, one-le-two-pow k, bit-lt-two w k)

-- Setting a bit sets that bit, and keeps the others.
pub bit-or_pow : (k j w : ℕ) → bit (bit_or w (2 ^ k)) j ≡ (if k == j then 1 else bit w j)
unfolding bit
bit-or_pow zero zero w = omega (arith, bit_or_round w 1)
bit-or_pow zero (suc j) w =
    let h : bit_or w (2 ^ 0) / 2 ≡ w / 2 =
      omega (arith, bit_or_round w 1, bit_or-zero_below (w / 2) (w / 2) (omega arith)) in
    rw h (ground arith)
bit-or_pow (suc k) zero w = ground (arith, bit_or_shift w k)
bit-or_pow (suc k) (suc j) w =
    let h : bit_or w (2 ^ suc k) / 2 ≡ bit_or (w / 2) (2 ^ k) = omega (arith, bit_or_shift w k) in
    rw h (rw (bit-or_pow k j (w / 2)) (ground arith))

pub bit-zero : (j : ℕ) → bit 0 j ≡ 0
unfolding bit
bit-zero zero = refl
bit-zero (suc j) = bit-zero j
