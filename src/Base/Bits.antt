-- ===== src/Base/Bits.antt =====
-- Bit operations as arithmetic: a mask is a quotient and a remainder by powers of two.
use Prim.Native.Nat.{
  ℕ, zero, suc, ◌+◌, ◌*◌, ◌/◌, ◌%◌, ◌^◌, ◌≤◌, ◌<◌, min, max, bit_and, bit_or, digits,
  bit_and-bitwise, bit_or-bitwise,
}
use mathlib.Core.Path.{◌≡◌, refl, ap}
use native.Mathlib.Nat.{pow-suc}
use native.Mathlib.Omega.{arith}

-- The count of digits is fuel: two counts that reach the number's end give the same.
pub enough_digits :
    (z : ℕ → ℕ) (f : ℕ → ℕ → ℕ) (a b k j : ℕ) → a ≤ k → a ≤ j → digits z f k a b ≡ digits z f j a b
enough_digits z f zero b zero zero h g = refl
enough_digits z f zero b zero (suc j) h g = refl
enough_digits z f zero b (suc k) zero h g = refl
enough_digits z f zero b (suc k) (suc j) h g = refl
enough_digits z f (suc a) b zero j h g = elim h [ ]
enough_digits z f (suc a) b (suc k) zero h g = elim g [ ]
enough_digits z f (suc a) b (suc k) (suc j) h g =
    rw (enough_digits z f (suc a / 2) (b / 2) k j (omega arith) (omega arith))

-- The lowest digit apart from the others.
pub and_low : (a b : ℕ) → bit_and a b ≡ bit_and (a / 2) (b / 2) * 2 + min (a % 2) (b % 2)
and_low zero b = omega (arith, bit_and-bitwise 0 b, bit_and-bitwise 0 (b / 2))
and_low (suc a) b = omega (
  arith,
  bit_and-bitwise (suc a) b,
  bit_and-bitwise (suc a / 2) (b / 2),
  enough_digits (λ n. zero) min (suc a / 2) (b / 2) a (suc a / 2) (omega arith) (omega arith),
)

pub or_low : (a b : ℕ) → bit_or a b ≡ bit_or (a / 2) (b / 2) * 2 + max (a % 2) (b % 2)
or_low zero b = omega (arith, bit_or-bitwise 0 b, bit_or-bitwise 0 (b / 2))
or_low (suc a) b = omega (
  arith,
  bit_or-bitwise (suc a) b,
  bit_or-bitwise (suc a / 2) (b / 2),
  enough_digits (λ n. n) max (suc a / 2) (b / 2) a (suc a / 2) (omega arith) (omega arith),
)

and_zero_below : (n a : ℕ) → a ≤ n → bit_and a 0 ≡ 0
and_zero_below n zero h = refl
and_zero_below zero (suc a) h = elim h [ ]
and_zero_below (suc n) (suc a) h =
    omega (arith, and_low (suc a) 0, and_zero_below n (suc a / 2) (omega arith))

pub bit_and-zero : (a : ℕ) → bit_and a 0 ≡ 0
bit_and-zero a = and_zero_below a a (omega arith)

or_zero_below : (n a : ℕ) → a ≤ n → bit_or a 0 ≡ a
or_zero_below n zero h = refl
or_zero_below zero (suc a) h = elim h [ ]
or_zero_below (suc n) (suc a) h =
    omega (arith, or_low (suc a) 0, or_zero_below n (suc a / 2) (omega arith))

pub bit_or-zero : (a : ℕ) → bit_or a 0 ≡ a
bit_or-zero a = or_zero_below a a (omega arith)

times_pow_suc : (p j : ℕ) → p * 2 ^ suc j ≡ 2 * (p * 2 ^ j)
times_pow_suc p j = omega (arith, ap (λ (t : ℕ). p * t) (pow-suc 2 j))

-- Both operations act on the digits above place `j` and on those below it, each for itself.
pub bit_and_parts :
    (j p q m r : ℕ)
    → q < 2 ^ j
    → r < 2 ^ j
    → bit_and (p * 2 ^ j + q) (m * 2 ^ j + r) ≡ bit_and p m * 2 ^ j + bit_and q r
bit_and_parts zero p zero m zero g h = ground arith
bit_and_parts zero p zero m (suc r) g h = absurd (omega arith)
bit_and_parts zero p (suc q) m r g h = absurd (omega arith)
bit_and_parts (suc j) p q m r g h = ground (
  arith,
  and_low (p * 2 ^ suc j + q) (m * 2 ^ suc j + r),
  and_low q r,
  times_pow_suc p j,
  times_pow_suc m j,
  times_pow_suc (bit_and p m) j,
  pow-suc 2 j,
  bit_and_parts j p (q / 2) m (r / 2),
)

pub bit_or_parts :
    (j p q m r : ℕ)
    → q < 2 ^ j
    → r < 2 ^ j
    → bit_or (p * 2 ^ j + q) (m * 2 ^ j + r) ≡ bit_or p m * 2 ^ j + bit_or q r
bit_or_parts zero p zero m zero g h = ground arith
bit_or_parts zero p zero m (suc r) g h = absurd (omega arith)
bit_or_parts zero p (suc q) m r g h = absurd (omega arith)
bit_or_parts (suc j) p q m r g h = ground (
  arith,
  or_low (p * 2 ^ suc j + q) (m * 2 ^ suc j + r),
  or_low q r,
  times_pow_suc p j,
  times_pow_suc m j,
  times_pow_suc (bit_or p m) j,
  pow-suc 2 j,
  bit_or_parts j p (q / 2) m (r / 2),
)
