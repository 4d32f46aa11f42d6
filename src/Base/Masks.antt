-- ===== src/Base/Masks.antt =====
-- The masks of the source as arithmetic. Each lemma is stated at powers of two, which compute at
-- the numerals of a call.
use Prim.Native.Nat.{
  ℕ, zero, suc, ◌+◌, ◌-◌, ◌*◌, ◌/◌, ◌%◌, ◌^◌, ◌<◌, bit_and, bit_or, bit_or-bitwise,
}
use mathlib.Core.Path.{◌≡◌, refl, ap}
use mathlib.Core.Bool.{Bool, true, ◌&&◌}
use native.Mathlib.Nat.{pow-suc, one-le-pow, div-add-mod'}
use native.Mathlib.Omega.{arith}
use rust_gb_emulator.Base.Tests.{◌==◌, ==_iff}
use rust_gb_emulator.Base.Bits.{
  bit_and-zero, bit_or-zero, and_low, or_low, bit_and_parts, bit_or_parts,
}

ones_of_below : (k q : ℕ) → q < 2 ^ k → bit_and q (2 ^ k - 1) ≡ q
ones_of_below zero zero h = refl
ones_of_below zero (suc q) h = absurd (omega arith)
ones_of_below (suc k) q h =
    ground (arith, pow-suc 2 k, one-le-pow k 2, and_low q (2 ^ suc k - 1), ones_of_below k (q / 2))

pow_pos : (k : ℕ) → 0 < 2 ^ k
pow_pos k = omega (arith, one-le-pow k 2)

-- `a & 0b1..1` with k ones.
pub bit_and_ones : (k a : ℕ) → bit_and a (2 ^ k - 1) ≡ a % 2 ^ k
bit_and_ones k a = ground (
  arith,
  pow_pos k,
  div-add-mod' a (2 ^ k),
  bit_and-zero (a / 2 ^ k),
  bit_and_parts k (a / 2 ^ k) (a % 2 ^ k) 0 (2 ^ k - 1),
  ones_of_below k (a % 2 ^ k),
)

-- `a & 0b1..10..0`: the k bits from place j on.
pub bit_and_field : (j k a : ℕ) → bit_and a ((2 ^ k - 1) * 2 ^ j) ≡ a / 2 ^ j % 2 ^ k * 2 ^ j
bit_and_field j k a = ground (
  arith,
  pow_pos j,
  div-add-mod' a (2 ^ j),
  bit_and-zero (a % 2 ^ j),
  bit_and_parts j (a / 2 ^ j) (a % 2 ^ j) (2 ^ k - 1) 0,
  bit_and_ones k (a / 2 ^ j),
)

-- `a & (1 <<< j)`
pub bit_and_bit : (j a : ℕ) → bit_and a (2 ^ j) ≡ a / 2 ^ j % 2 * 2 ^ j
bit_and_bit j a = ground (arith, bit_and_field j 1 a)

or_bit_as_sum : (j a : ℕ) → bit_or a (2 ^ j) ≡ (a / 2 ^ j / 2 * 2 + 1) * 2 ^ j + a % 2 ^ j
or_bit_as_sum j a = ground (
  arith,
  pow_pos j,
  div-add-mod' a (2 ^ j),
  bit_or-zero (a % 2 ^ j),
  bit_or-zero (a / 2 ^ j / 2),
  or_low (a / 2 ^ j) 1,
  bit_or_parts j (a / 2 ^ j) (a % 2 ^ j) 1 0,
)

or_bit_digit : (j a d : ℕ) → a / 2 ^ j % 2 ≡ d → bit_or a (2 ^ j) ≡ a + (1 - d) * 2 ^ j
or_bit_digit j a zero e =
    omega (arith, or_bit_as_sum j a, div-add-mod' a (2 ^ j), ap (λ (t : ℕ). t * 2 ^ j) (halved e))
  where
    halved : a / 2 ^ j % 2 ≡ 0 → a / 2 ^ j / 2 * 2 ≡ a / 2 ^ j
    halved h = omega arith
or_bit_digit j a (suc zero) e =
    omega (arith, or_bit_as_sum j a, div-add-mod' a (2 ^ j), ap (λ (t : ℕ). t * 2 ^ j) (halved e))
  where
    halved : a / 2 ^ j % 2 ≡ 1 → a / 2 ^ j / 2 * 2 + 1 ≡ a / 2 ^ j
    halved h = omega arith
or_bit_digit j a (suc (suc d)) e = absurd (omega arith)

-- `a | (1 <<< j)`
pub bit_or_bit : (j a : ℕ) → bit_or a (2 ^ j) ≡ a + (1 - a / 2 ^ j % 2) * 2 ^ j
bit_or_bit j a = or_bit_digit j a (a / 2 ^ j % 2) refl

-- `(hi <<< j) | lo`
pub bit_or_fields : (j hi lo : ℕ) → lo < 2 ^ j → bit_or (hi * 2 ^ j) lo ≡ hi * 2 ^ j + lo
bit_or_fields j hi lo h =
    ground (arith, pow_pos j, bit_or-zero hi, bit_or_parts j hi 0 0 lo, zero_or lo)
  where
    zero_or : (x : ℕ) → bit_or 0 x ≡ x
    zero_or x = omega (arith, bit_or-bitwise 0 x)

-- `lo | (hi <<< j)`
pub bit_or_fields' : (j hi lo : ℕ) → lo < 2 ^ j → bit_or lo (hi * 2 ^ j) ≡ hi * 2 ^ j + lo
bit_or_fields' j hi lo h =
    ground (arith, pow_pos j, zero_or hi, bit_or-zero lo, bit_or_parts j 0 lo hi 0)
  where
    zero_or : (x : ℕ) → bit_or 0 x ≡ x
    zero_or x = omega (arith, bit_or-bitwise 0 x)

-- Over a small range, a test is checked at every value.
unfoldable pub every_below : ℕ → (ℕ → Bool) → Bool
every_below zero test = true
every_below (suc n) test = test n && every_below n test

pub every_below_lem :
    (n : ℕ) (test : ℕ → Bool) (x : ℕ) → every_below n test ≡ true → x < n → test x ≡ true
unfolding every_below
every_below_lem zero test x h g = absurd (omega arith)
every_below_lem (suc n) test x h g = ground (arith, every_below_lem n test x)

-- An equation over the bytes, from its table.
pub byte_table :
    (f g : ℕ → ℕ) (x : ℕ) → every_below 256 (λ v. f v == g v) ≡ true → x < 256 → f x ≡ g x
byte_table f g x h below = (==_iff _ _).0 (every_below_lem 256 (λ v. f v == g v) x h below)
