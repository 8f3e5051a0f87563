-- ===== src/Common/Bits.antt =====
-- Bit operations at variables: a byte by its table, and numbers whose bits do not meet.
use Prim.Native.Nat.{
  ℕ, zero, suc, ◌+◌, ◌*◌, ◌/◌, ◌%◌, ◌^◌, ◌≤◌, ◌<◌, max, bit_and, bit_or, digits, bit_or-bitwise,
}
use mathlib.Core.Path.{◌≡◌, refl, ap}
use mathlib.Core.Bool.{Bool, true, ◌&&◌}
use native.Mathlib.Omega.{arith}
use project_argo.Common.Tests.{◌==◌, ==→eq}

every_below : ℕ → (ℕ → Bool) → Bool
every_below zero test = true
every_below (suc n) test = test n && every_below n test

at_every : (n : ℕ) (test : ℕ → Bool) (x : ℕ) → every_below n test ≡ true → x < n → test x ≡ true
unfolding every_below
at_every zero test x h lt = absurd (omega arith)
at_every (suc n) test x h lt = ground (arith, at_every n test x)

byte_table :
    (f g : ℕ → ℕ) → every_below 256 (λ b. f b == g b) ≡ true → (b : ℕ) → b < 256 → f b ≡ g b
byte_table f g h b lt = ==→eq (f b) (g b) (at_every 256 (λ c. f c == g c) b h lt)

pub bit_and_127 : (b : ℕ) → b < 256 → bit_and b 127 ≡ b % 128
unfolding every_below
bit_and_127 = byte_table (λ b. bit_and b 127) (λ b. b % 128) refl

pub bit_and_7 : (b : ℕ) → b < 256 → bit_and b 7 ≡ b % 8
unfolding every_below
bit_and_7 = byte_table (λ b. bit_and b 7) (λ b. b % 8) refl

pub bit_or_128 : (b : ℕ) → b < 256 → bit_or b 128 ≡ b % 128 + 128
unfolding every_below
bit_or_128 = byte_table (λ b. bit_or b 128) (λ b. b % 128 + 128) refl

abbrev or_digits : ℕ → ℕ → ℕ → ℕ
or_digits count a b = digits (λ c. c) max count a b

-- The count of digits does not matter when it is large enough.
or_digits_count : (m n a b : ℕ) → a ≤ m → a ≤ n → or_digits m a b ≡ or_digits n a b
or_digits_count zero zero zero b h k = refl
or_digits_count zero (suc n) zero b h k = refl
or_digits_count (suc m) zero zero b h k = refl
or_digits_count (suc m) (suc n) zero b h k = refl
or_digits_count zero n (suc a) b h k = absurd (omega arith)
or_digits_count (suc m) zero (suc a) b h k = absurd (omega arith)
or_digits_count (suc m) (suc n) (suc a) b h k =
    omega (arith, or_digits_count m n (suc a / 2) (b / 2) (omega arith) (omega arith))

bit_or_zero_left : (b : ℕ) → bit_or 0 b ≡ b
bit_or_zero_left b = bit_or-bitwise 0 b

bit_or_step : (a b : ℕ) → bit_or a b ≡ bit_or (a / 2) (b / 2) * 2 + max (a % 2) (b % 2)
bit_or_step zero b = omega (arith, bit_or_zero_left b, bit_or_zero_left (b / 2))
bit_or_step (suc a) b = omega (
  arith,
  bit_or-bitwise (suc a) b,
  bit_or-bitwise (suc a / 2) (b / 2),
  or_digits_count a (suc a / 2) (suc a / 2) (b / 2) (omega arith) (omega arith),
)

pub double_pow : (k : ℕ) → 2 ^ (suc k) ≡ 2 * 2 ^ k
double_pow k = omega arith

-- A number below a power of two, and a multiple of that power.
pub bit_or_apart : (k a d : ℕ) → a < 2 ^ k → bit_or a (d * 2 ^ k) ≡ a + d * 2 ^ k
bit_or_apart zero zero d h = omega (arith, bit_or_zero_left (d * 1))
bit_or_apart zero (suc a) d h = absurd (omega arith)
bit_or_apart (suc k) a d h =
    let p : 2 ^ (suc k) ≡ 2 * 2 ^ k = double_pow k in
    let e : d * 2 ^ (suc k) ≡ 2 * (d * 2 ^ k) = rw p (omega arith) in
    omega (
      arith,
      bit_or_step a (d * 2 ^ (suc k)),
      bit_or_apart k (a / 2) d (omega arith),
      ap (λ (t : ℕ). bit_or (a / 2) t) (half d k e),
    )
  where
    half : (d k : ℕ) → d * 2 ^ (suc k) ≡ 2 * (d * 2 ^ k) → d * 2 ^ (suc k) / 2 ≡ d * 2 ^ k
    half d k e = omega arith

bit_or_zero_fuel : (n a : ℕ) → a ≤ n → bit_or a 0 ≡ a
bit_or_zero_fuel n zero h = bit_or_zero_left 0
bit_or_zero_fuel zero (suc a) h = absurd (omega arith)
bit_or_zero_fuel (suc n) (suc a) h =
    omega (arith, bit_or_step (suc a) 0, bit_or_zero_fuel n (suc a / 2) (omega arith))

-- A multiple of 8, and the number 2 in the three bits below.
pub bit_or_2 : (d : ℕ) → bit_or (d * 8) 2 ≡ d * 8 + 2
bit_or_2 d = omega (
  arith,
  bit_or_step (d * 8) 2,
  bit_or_step (d * 8 / 2) 1,
  bit_or_zero_fuel (d * 8 / 2 / 2) (d * 8 / 2 / 2) (omega arith),
)
