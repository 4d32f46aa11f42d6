-- ===== src/Cpu/Additions.antt =====
-- ADD and ADC, as sums and comparisons.
use rust_gb_emulator.Base.{
  ℕ, ◌+◌, ◌/◌, ◌%◌, ◌<◌, bit_and, Bool, true, false, u8, ◌>>>◌, ltb, ◌==◌, ◌≡◌, refl, arith, ◌∙◌,
  ap, Build,
}
use rust_gb_emulator.Base.Masks.{bit_and_ones, bit_and_bit}
use rust_gb_emulator.Cpu.Registers
use rust_gb_emulator.Cpu.Registers.{Reg8, reg_a, reg_f, Registers}
use rust_gb_emulator.Cpu.RegisterLaws.{IsRegisters}
use rust_gb_emulator.Cpu.Machine.{Machine, read_r8, write_r8, set_registers}
use rust_gb_emulator.Cpu.Loads.{zero_flag, half_carry_flag, carry_flag, set_if}
use rust_gb_emulator.Cpu.Alu.{add_flags, add_a, adc_a}
use rust_gb_emulator.Cpu.Flags.{
  flag_bits, Computes, writes, flags_between, flags_between-range, accumulator, carry,
}

set_flags :
    (z h c : Bool)
    → set_if z zero_flag (set_if h half_carry_flag (set_if c carry_flag 0)) ≡ flag_bits z false h c
set_flags false false false = refl
set_flags false false true = refl
set_flags false true false = refl
set_flags false true true = refl
set_flags true false false = refl
set_flags true false true = refl
set_flags true true false = refl
set_flags true true true = refl

add_flags-bits :
    (result low flags : ℕ)
    → flags < 256
    → flags % 16 ≡ 0
    → add_flags result low flags ≡ flag_bits (u8 result == 0) false (ltb 0xF low) (ltb 0xFF result)
unfolding add_flags
add_flags-bits result low flags h k =
    rw (bit_and_ones 4 flags, k) (set_flags (u8 result == 0) (ltb 0xF low) (ltb 0xFF result))

add_a-Computes :
    (b : Build) (value : ℕ) (s : Machine)
    → IsRegisters s.cpu.registers
    → value < 256
    → let a = accumulator s in
      Computes s (add_a value b s) ((value + a) % 256) (
        flag_bits
          ((value + a) % 256 == 0)
          false
          (ltb 15 (value % 16 + a % 16))
          (ltb 255 (value + a)))
unfolding add_a read_r8 write_r8 set_registers flags_between
add_a-Computes b value s v h =
    let a = accumulator s in
    let t = (value + a) % 256 in
    let range = flags_between-range s t v (omega arith) in
    writes s (add_a value b s) t t
      (add_flags (value + a) (bit_and value 0xF + bit_and a 0xF) (flags_between s t)) (t == 0) false
      (ltb 15 (value % 16 + a % 16)) (ltb 255 (value + a)) v refl (omega arith)
      (add_flags-bits (value + a) (bit_and value 0xF + bit_and a 0xF) (flags_between s t) range.0
          range.1
        ∙ rw (bit_and_ones 4 value, bit_and_ones 4 a) refl)
      refl

carry_bit : (f : ℕ) → bit_and f carry_flag >>> 4 ≡ f / 16 % 2
carry_bit f = ground (arith, bit_and_bit 4 f)

adc_a-Computes :
    (b : Build) (value : ℕ) (s : Machine)
    → IsRegisters s.cpu.registers
    → value < 256
    → let a = accumulator s in
      let c = carry s in
      Computes s (adc_a value b s) ((value + a + c) % 256) (
        flag_bits
          ((value + a + c) % 256 == 0)
          false
          (ltb 15 (value % 16 + a % 16 + c))
          (ltb 255 (value + a + c)))
unfolding adc_a read_r8 write_r8 set_registers flags_between
adc_a-Computes b value s v h =
    let a = accumulator s in
    let c = bit_and (Registers.read_r8 s.cpu.registers reg_f) carry_flag >>> 4 in
    let t = (value + a + c) % 256 in
    let range = flags_between-range s t v (omega arith) in
    let low = bit_and value 0xF + bit_and a 0xF + c in
    let same = carry_bit (Registers.read_r8 s.cpu.registers reg_f) in
    writes s (adc_a value b s) t ((value + a + carry s) % 256)
      (add_flags (value + a + c) low (flags_between s t)) ((value + a + carry s) % 256 == 0) false
      (ltb 15 (value % 16 + a % 16 + carry s)) (ltb 255 (value + a + carry s)) v
      (ap (λ (x : ℕ). (value + a + x) % 256) same) (omega arith)
      (add_flags-bits (value + a + c) low (flags_between s t) range.0 range.1
        ∙ rw (bit_and_ones 4 value, bit_and_ones 4 a, same) refl)
      refl

-- On well-formed registers and a byte, ADD and ADC set A to the sum, of the carry too for ADC, as a byte; Z says that it is 0, N is
-- clear, H says that the sum of the lower halves passes 15, C that the sum passes 255. They
-- panic in neither build and change nothing else.
pub additions :
    (b : Build) (value : ℕ) (s : Machine)
    → IsRegisters s.cpu.registers
    → value < 256
    → let a = accumulator s in
      let c = carry s in
      Computes s (add_a value b s) ((value + a) % 256) (
        flag_bits
          ((value + a) % 256 == 0)
          false
          (ltb 15 (value % 16 + a % 16))
          (ltb 255 (value + a)))
      × Computes s (adc_a value b s) ((value + a + c) % 256) (
          flag_bits
            ((value + a + c) % 256 == 0)
            false
            (ltb 15 (value % 16 + a % 16 + c))
            (ltb 255 (value + a + c)))
additions b value s v h = (add_a-Computes b value s v h, adc_a-Computes b value s v h)
