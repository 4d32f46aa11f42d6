-- ===== src/Cpu/Subtractions.antt =====
-- SUB, SBC and CP, as differences and comparisons.
use rust_gb_emulator.Base.{
  ℕ, ◌+◌, ◌-◌, ◌/◌, ◌%◌, ◌<◌, bit_and, Bool, true, false, u8, u16, if◌then◌else◌, ltb, ◌==◌, ◌!=◌,
  ◌≡◌, refl, arith, ◌∙◌, Build,
}
use rust_gb_emulator.Base.Masks.{bit_and_ones, bit_and_bit}
use rust_gb_emulator.Cpu.Registers
use rust_gb_emulator.Cpu.Registers.{Reg8, reg_a, reg_f, Registers}
use rust_gb_emulator.Cpu.RegisterLaws.{IsRegisters}
use rust_gb_emulator.Cpu.Machine.{Machine, read_r8, write_r8, set_registers}
use rust_gb_emulator.Cpu.Loads.{carry_flag}
use rust_gb_emulator.Cpu.Alu.{sub_flags, sub_a, sbc_a, cp_a}
use rust_gb_emulator.Cpu.Flags.{
  flag_bits, Computes, writes, writes_flags, accumulator, carry, a_now,
}

sub_flags-bits : (c h z : Bool) → sub_flags c h z ≡ flag_bits z true h c
unfolding sub_flags
sub_flags-bits false false false = refl
sub_flags-bits false false true = refl
sub_flags-bits false true false = refl
sub_flags-bits false true true = refl
sub_flags-bits true false false = refl
sub_flags-bits true false true = refl
sub_flags-bits true true false = refl
sub_flags-bits true true true = refl

sub_a-Computes :
    (b : Build) (value : ℕ) (s : Machine)
    → IsRegisters s.cpu.registers
    → value < 256
    → let a = accumulator s in
      Computes s
        (sub_a value b s)
        ((a + 256 - value) % 256)
        (flag_bits (a == value) true (ltb (a % 16) (value % 16)) (ltb a value))
unfolding sub_a read_r8 write_r8 set_registers
sub_a-Computes b value s v h =
    let a = accumulator s in
    let t = (a + 256 - value) % 256 in
    let below = a_now s.cpu.registers v in
    writes s (sub_a value b s) t t
      (sub_flags (ltb a value) (ltb (bit_and a 0x0F) (bit_and value 0x0F)) (t == 0)) (a == value)
      true (ltb (a % 16) (value % 16)) (ltb a value) v refl (omega arith)
      (sub_flags-bits (ltb a value) (ltb (bit_and a 0x0F) (bit_and value 0x0F)) (t == 0)
        ∙ rw (bit_and_ones 4 value, bit_and_ones 4 a, zero_exactly a value below h) refl)
      refl
  where
    zero_exactly :
        (a value : ℕ) → a < 256 → value < 256 → ((a + 256 - value) % 256 == 0) ≡ (a == value)
    zero_exactly a value g h = ground arith

-- The u16 of SBC: it passes 255 exactly if the true difference is below 0.
borrow :
    (a value c : ℕ)
    → a < 256
    → value < 256
    → c < 2
    → let t = u16 (u16 (a + 0x10000 - value) + 0x10000 - c) in
      (t % 256 ≡ (a + 512 - value - c) % 256)
      × ((t % 256 == 0) ≡ ((a + 512 - value - c) % 256 == 0))
      × (ltb 0xFF t ≡ ltb a (value + c))
borrow a value c ha hv hc = ground arith

carry_in_lem : (f : ℕ) → (if bit_and f carry_flag != 0 then 1 else 0) ≡ f / 16 % 2
carry_in_lem f = ground (arith, bit_and_bit 4 f)

sbc_a-Computes :
    (b : Build) (value : ℕ) (s : Machine)
    → IsRegisters s.cpu.registers
    → value < 256
    → let a = accumulator s in
      let c = carry s in
      Computes s (sbc_a value b s) ((a + 512 - value - c) % 256) (
        flag_bits
          ((a + 512 - value - c) % 256 == 0)
          true
          (ltb (a % 16) (value % 16 + c))
          (ltb a (value + c)))
unfolding sbc_a read_r8 write_r8 set_registers
sbc_a-Computes b value s v h =
    let a = accumulator s in
    let c : ℕ =
      if bit_and (Registers.read_r8 s.cpu.registers reg_f) carry_flag != 0 then 1 else 0 in
    let t = u16 (u16 (a + 0x10000 - value) + 0x10000 - c) in
    let same = carry_in_lem (Registers.read_r8 s.cpu.registers reg_f) in
    let below = a_now s.cpu.registers v in
    let exact = borrow a value (carry s) below h (omega arith) in
    let same_t : u8 t ≡ (a + 512 - value - carry s) % 256 = rw same exact.0 in
    writes s (sbc_a value b s) (u8 t) ((a + 512 - value - carry s) % 256)
      (sub_flags (ltb 0xFF t) (ltb (bit_and a 0x0F) (bit_and value 0x0F + c)) (u8 t == 0))
      ((a + 512 - value - carry s) % 256 == 0) true (ltb (a % 16) (value % 16 + carry s))
      (ltb a (value + carry s)) v same_t (omega arith)
      (sub_flags-bits (ltb 0xFF t) (ltb (bit_and a 0x0F) (bit_and value 0x0F + c)) (u8 t == 0)
        ∙ rw (same, bit_and_ones 4 value, bit_and_ones 4 a, exact.1, exact.2) refl)
      refl

cp_a-Computes :
    (b : Build) (value : ℕ) (s : Machine)
    → IsRegisters s.cpu.registers
    → value < 256
    → let a = accumulator s in
      Computes s
        (cp_a value b s)
        a
        (flag_bits (a == value) true (ltb (a % 16) (value % 16)) (ltb a value))
unfolding cp_a read_r8 write_r8 set_registers
cp_a-Computes b value s v h =
    let a = accumulator s in
    writes_flags s (cp_a value b s)
      (sub_flags (ltb a value) (ltb (bit_and a 0x0F) (bit_and value 0x0F)) (a == value))
      (a == value) true (ltb (a % 16) (value % 16)) (ltb a value) v
      (sub_flags-bits (ltb a value) (ltb (bit_and a 0x0F) (bit_and value 0x0F)) (a == value)
        ∙ rw (bit_and_ones 4 value, bit_and_ones 4 a) refl)
      refl

-- On well-formed registers and a byte, SUB and SBC set A to the difference, less the carry too for SBC, modulo 256; CP leaves A and
-- sets the flags of SUB. Z says that the difference is 0, N is set, H and C say that the lower
-- half and the byte had to borrow. They panic in neither build and change nothing else.
pub subtractions :
    (b : Build) (value : ℕ) (s : Machine)
    → IsRegisters s.cpu.registers
    → value < 256
    → let a = accumulator s in
      let c = carry s in
      Computes s
        (sub_a value b s)
        ((a + 256 - value) % 256)
        (flag_bits (a == value) true (ltb (a % 16) (value % 16)) (ltb a value))
      × Computes s (sbc_a value b s) ((a + 512 - value - c) % 256) (
          flag_bits
            ((a + 512 - value - c) % 256 == 0)
            true
            (ltb (a % 16) (value % 16 + c))
            (ltb a (value + c)))
      × Computes s
          (cp_a value b s)
          a
          (flag_bits (a == value) true (ltb (a % 16) (value % 16)) (ltb a value))
subtractions b value s v h =
    (sub_a-Computes b value s v h, sbc_a-Computes b value s v h, cp_a-Computes b value s v h)
