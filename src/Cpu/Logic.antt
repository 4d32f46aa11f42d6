-- ===== src/Cpu/Logic.antt =====
-- AND, XOR and OR: A and the flags.
use rust_gb_emulator.Base.{
  ℕ, ◌*◌, ◌/◌, ◌%◌, ◌<◌, bit_and, bit_or, bit_xor, Bool, true, false, if◌then◌else◌, ◌==◌, ◌≡◌,
  refl, arith, ◌∙◌, ap, Build,
}
use rust_gb_emulator.Base.Masks.{byte_table, every_below}
use rust_gb_emulator.Base.Widths.{bit_and-lt, bit_or-lt, bit_xor-lt}
use rust_gb_emulator.Cpu.RegisterLaws.{IsRegisters}
use rust_gb_emulator.Cpu.Machine.{Machine, read_r8, write_r8, set_registers}
use rust_gb_emulator.Cpu.Loads.{
  zero_flag, subtract_flag, half_carry_flag, carry_flag, set_if, clear,
}
use rust_gb_emulator.Cpu.Alu.{and_flags, logic_flags, and_a, xor_a, or_a}
use rust_gb_emulator.Cpu.Flags.{
  flag_bits, Computes, writes, flags_between, flags_between-range, accumulator, a_now,
}

-- The three clears and the set of AND, and the four clears of XOR and OR, on the 16 values of F.
and_mask :
    (n : ℕ)
    → n < 256
    → clear zero_flag (clear carry_flag (clear subtract_flag (bit_or (n * 16) half_carry_flag)))
      ≡ 32
unfolding every_below
and_mask n h =
    byte_table
      (λ k.
        clear zero_flag (clear carry_flag (clear subtract_flag (bit_or (k * 16) half_carry_flag))))
      (λ k. 32) n refl h

logic_mask :
    (n : ℕ)
    → n < 256
    → clear zero_flag (clear carry_flag (clear subtract_flag (clear half_carry_flag (n * 16)))) ≡ 0
unfolding every_below
logic_mask n h =
    byte_table
      (λ k.
        clear zero_flag (clear carry_flag (clear subtract_flag (clear half_carry_flag (k * 16)))))
      (λ k. 0) n refl h

upper : (flags : ℕ) → flags % 16 ≡ 0 → flags ≡ flags / 16 * 16
upper flags h = omega arith

set_zero : (z h : Bool) → set_if z zero_flag (if h then 32 else 0) ≡ flag_bits z false h false
set_zero false false = refl
set_zero false true = refl
set_zero true false = refl
set_zero true true = refl

and_flags-bits :
    (result flags : ℕ)
    → flags < 256
    → flags % 16 ≡ 0
    → and_flags result flags ≡ flag_bits (result == 0) false true false
unfolding and_flags
and_flags-bits result flags h k =
    ap (λ (f : ℕ). and_flags result f) (upper flags k)
    ∙ ap (λ (f : ℕ). set_if (result == 0) zero_flag f) (and_mask (flags / 16) (omega arith))
    ∙ set_zero (result == 0) true

logic_flags-bits :
    (result flags : ℕ)
    → flags < 256
    → flags % 16 ≡ 0
    → logic_flags result flags ≡ flag_bits (result == 0) false false false
unfolding logic_flags
logic_flags-bits result flags h k =
    ap (λ (f : ℕ). logic_flags result f) (upper flags k)
    ∙ ap (λ (f : ℕ). set_if (result == 0) zero_flag f) (logic_mask (flags / 16) (omega arith))
    ∙ set_zero (result == 0) false

and_a-Computes :
    (b : Build) (value : ℕ) (s : Machine)
    → IsRegisters s.cpu.registers
    → value < 256
    → let a = accumulator s in
      Computes s
        (and_a value b s)
        (bit_and a value)
        (flag_bits (bit_and a value == 0) false true false)
unfolding and_a read_r8 write_r8 set_registers flags_between
and_a-Computes b value s v h =
    let a = accumulator s in
    let below = a_now s.cpu.registers v in
    let bound = bit_and-lt 8 a value below in
    let range = flags_between-range s (bit_and a value) v bound in
    writes s (and_a value b s) (bit_and a value) (bit_and a value)
      (and_flags (bit_and a value) (flags_between s (bit_and a value))) (bit_and a value == 0) false
      true false v refl bound
      (and_flags-bits (bit_and a value) (flags_between s (bit_and a value)) range.0 range.1) refl

xor_a-Computes :
    (b : Build) (value : ℕ) (s : Machine)
    → IsRegisters s.cpu.registers
    → value < 256
    → let a = accumulator s in
      Computes s
        (xor_a value b s)
        (bit_xor a value)
        (flag_bits (bit_xor a value == 0) false false false)
unfolding xor_a read_r8 write_r8 set_registers flags_between
xor_a-Computes b value s v h =
    let a = accumulator s in
    let below = a_now s.cpu.registers v in
    let bound = bit_xor-lt 8 a value below h in
    let range = flags_between-range s (bit_xor a value) v bound in
    writes s (xor_a value b s) (bit_xor a value) (bit_xor a value)
      (logic_flags (bit_xor a value) (flags_between s (bit_xor a value))) (bit_xor a value == 0)
      false false false v refl bound
      (logic_flags-bits (bit_xor a value) (flags_between s (bit_xor a value)) range.0 range.1) refl

or_a-Computes :
    (b : Build) (value : ℕ) (s : Machine)
    → IsRegisters s.cpu.registers
    → value < 256
    → let a = accumulator s in
      Computes s
        (or_a value b s)
        (bit_or a value)
        (flag_bits (bit_or a value == 0) false false false)
unfolding or_a read_r8 write_r8 set_registers flags_between
or_a-Computes b value s v h =
    let a = accumulator s in
    let below = a_now s.cpu.registers v in
    let bound = bit_or-lt 8 a value below h in
    let range = flags_between-range s (bit_or a value) v bound in
    writes s (or_a value b s) (bit_or a value) (bit_or a value)
      (logic_flags (bit_or a value) (flags_between s (bit_or a value))) (bit_or a value == 0) false
      false false v refl bound
      (logic_flags-bits (bit_or a value) (flags_between s (bit_or a value)) range.0 range.1) refl

-- On well-formed registers and a byte, AND, XOR and OR set A to the bitwise result; Z says that it is 0, N and C are clear, and H is
-- set by AND alone. They panic in neither build and change nothing else.
pub logic :
    (b : Build) (value : ℕ) (s : Machine)
    → IsRegisters s.cpu.registers
    → value < 256
    → let a = accumulator s in
      Computes s
        (and_a value b s)
        (bit_and a value)
        (flag_bits (bit_and a value == 0) false true false)
      × Computes s
          (xor_a value b s)
          (bit_xor a value)
          (flag_bits (bit_xor a value == 0) false false false)
      × Computes s
          (or_a value b s)
          (bit_or a value)
          (flag_bits (bit_or a value == 0) false false false)
logic b value s v h =
    (and_a-Computes b value s v h, xor_a-Computes b value s v h, or_a-Computes b value s v h)
