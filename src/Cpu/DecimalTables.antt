-- ===== src/Cpu/DecimalTables.antt =====
-- DAA on every pair of numbers of two decimal digits.
use rust_gb_emulator.Base.{
  ℕ, ◌+◌, ◌*◌, ◌-◌, ◌/◌, ◌%◌, ◌<◌, Bool, true, false, ◌==◌, ◌&&◌, ltb, leb, if◌then◌else◌, u8,
  bit_and, ◌≡◌, refl, arith,
}
use rust_gb_emulator.Base.Masks.{every_below, every_below_lem}
use rust_gb_emulator.Cpu.Loads.{
  zero_flag, subtract_flag, half_carry_flag, carry_flag, set_if, clear, wrapping_sub_8,
}
use rust_gb_emulator.Cpu.Rotates.{daa_carry, daa_adjust}
use rust_gb_emulator.Cpu.Flags.{flag_bits}

-- The two decimal digits of a number below 100, one in each half of a byte.
abbrev pub bcd : ℕ → ℕ
bcd n = n / 10 % 10 * 16 + n % 10

-- The byte and the flags that DAA writes.
abbrev pub daa_value : ℕ → ℕ → ℕ
daa_value a flags =
    let adjust = daa_adjust a flags in
    if bit_and flags subtract_flag == 0 then u8 (a + adjust) else wrapping_sub_8 a adjust

abbrev pub daa_flags : ℕ → ℕ → ℕ
daa_flags a flags = set_if (daa_carry a flags) carry_flag (
    set_if (daa_value a flags == 0) zero_flag
      (clear (zero_flag + half_carry_flag + carry_flag) flags))

-- A and F after ADD and after SUB of numbers in decimal digits, and what DAA makes of them.
abbrev pub sum_flags : ℕ → ℕ → ℕ
sum_flags a v = flag_bits ((v + a) % 256 == 0) false (ltb 15 (v % 16 + a % 16)) (ltb 255 (v + a))

abbrev pub difference_flags : ℕ → ℕ → ℕ
difference_flags a v = flag_bits (a == v) true (ltb (a % 16) (v % 16)) (ltb a v)

unfoldable pub sum_test : ℕ → ℕ → Bool
sum_test x y =
    let a = (bcd y + bcd x) % 256 in
    let f = sum_flags (bcd x) (bcd y) in
    daa_value a f == bcd ((x + y) % 100)
    && daa_flags a f == flag_bits ((x + y) % 100 == 0) false false (leb 100 (x + y))

unfoldable pub difference_test : ℕ → ℕ → Bool
difference_test x y =
    let a = (bcd x + 256 - bcd y) % 256 in
    let f = difference_flags (bcd x) (bcd y) in
    daa_value a f == bcd ((x + 100 - y) % 100)
    && daa_flags a f == flag_bits (x == y) true false (ltb x y)

pub sum_table : every_below 100 (λ x. every_below 100 (λ y. sum_test x y)) ≡ true
unfolding every_below sum_test daa_adjust daa_carry
sum_table = refl

pub difference_table : every_below 100 (λ x. every_below 100 (λ y. difference_test x y)) ≡ true
unfolding every_below difference_test daa_adjust daa_carry
difference_table = refl

pub pair_table :
    (test : ℕ → ℕ → Bool) (x y : ℕ)
    → every_below 100 (λ n. every_below 100 (λ m. test n m)) ≡ true
    → x < 100
    → y < 100
    → test x y ≡ true
pair_table test x y table h k =
    every_below_lem 100 (λ m. test x m) y
      (every_below_lem 100 (λ n. every_below 100 (λ m. test n m)) x table h) k

pub bcd-lt : (n : ℕ) → bcd n < 256
bcd-lt n = omega arith

pub both : (a b c d : ℕ) → (a == b && c == d) ≡ true → (a ≡ b) × (c ≡ d)
both a b c d h = ground arith

pub flags-range : (z n h c : Bool) → (flag_bits z n h c < 256) × (flag_bits z n h c % 16 ≡ 0)
flags-range z n h c = ground arith
