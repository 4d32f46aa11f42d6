-- ===== src/Base/Widths.antt =====
-- The bit operations stay within a width, and the exclusive or by its digits.
use Prim.Native.Nat.{
  ℕ, zero, suc, ◌+◌, ◌*◌, ◌/◌, ◌%◌, ◌^◌, ◌<◌, bit_and, bit_or, bit_xor, differ, bit_and-bitwise,
  bit_or-bitwise, bit_xor-bitwise,
}
use mathlib.Core.Path.{◌≡◌, refl}
use native.Mathlib.Nat.{pow-suc}
use native.Mathlib.Omega.{arith}
use rust_gb_emulator.Base.Bits.{and_low, or_low, enough_digits}

differ_bit : (x y : ℕ) → x < 2 → y < 2 → differ x y ≡ (x + y) % 2
differ_bit zero zero h k = refl
differ_bit zero (suc zero) h k = refl
differ_bit (suc zero) zero h k = refl
differ_bit (suc zero) (suc zero) h k = refl
differ_bit zero (suc (suc y)) h k = absurd (omega arith)
differ_bit (suc (suc x)) y h k = absurd (omega arith)
differ_bit (suc zero) (suc (suc y)) h k = absurd (omega arith)

pub xor_low : (a b : ℕ) → bit_xor a b ≡ bit_xor (a / 2) (b / 2) * 2 + (a % 2 + b % 2) % 2
xor_low zero b = omega (arith, bit_xor-bitwise 0 b, bit_xor-bitwise 0 (b / 2))
xor_low (suc a) b = omega (
  arith,
  bit_xor-bitwise (suc a) b,
  bit_xor-bitwise (suc a / 2) (b / 2),
  differ_bit (suc a % 2) (b % 2),
  enough_digits (λ n. n) differ (suc a / 2) (b / 2) a (suc a / 2) (omega arith) (omega arith),
)

pub bit_and-lt : (j a b : ℕ) → a < 2 ^ j → bit_and a b < 2 ^ j
bit_and-lt zero zero b h = omega (arith, bit_and-bitwise 0 b)
bit_and-lt zero (suc a) b h = absurd (omega arith)
bit_and-lt (suc j) a b h =
    omega
      (arith, and_low a b, pow-suc 2 j, bit_and-lt j (a / 2) (b / 2) (omega (arith, pow-suc 2 j)))

pub bit_or-lt : (j a b : ℕ) → a < 2 ^ j → b < 2 ^ j → bit_or a b < 2 ^ j
bit_or-lt zero zero zero h k = omega (arith, bit_or-bitwise 0 0)
bit_or-lt zero (suc a) b h k = absurd (omega arith)
bit_or-lt zero zero (suc b) h k = absurd (omega arith)
bit_or-lt (suc j) a b h k = omega (
  arith,
  or_low a b,
  pow-suc 2 j,
  bit_or-lt j (a / 2) (b / 2) (omega (arith, pow-suc 2 j)) (omega (arith, pow-suc 2 j)),
)

pub bit_xor-lt : (j a b : ℕ) → a < 2 ^ j → b < 2 ^ j → bit_xor a b < 2 ^ j
bit_xor-lt zero zero zero h k = omega (arith, bit_xor-bitwise 0 0)
bit_xor-lt zero (suc a) b h k = absurd (omega arith)
bit_xor-lt zero zero (suc b) h k = absurd (omega arith)
bit_xor-lt (suc j) a b h k = omega (
  arith,
  xor_low a b,
  pow-suc 2 j,
  bit_xor-lt j (a / 2) (b / 2) (omega (arith, pow-suc 2 j)) (omega (arith, pow-suc 2 j)),
)
