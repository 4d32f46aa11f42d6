-- ===== src/Cpu/RegisterTypes.antt =====
-- The registers keep their types.
use rust_gb_emulator.Base.{ℕ, ◌*◌, ◌/◌, ◌<◌, bit_and, bit_or, ◌≡◌, ap, arith}
use rust_gb_emulator.Base.Masks.{bit_and_field}
use rust_gb_emulator.Cpu.Registers
use rust_gb_emulator.Cpu.Registers.{
  Reg8, Reg16, Operand, reg8, reg16, mem_hl, mem_bc, mem_de, reg_a, reg_b, reg_c, reg_d, reg_e,
  reg_h, reg_l, reg_f, reg_hl, reg_bc, reg_de, reg_af, reg_sp, reg_pc, Registers,
}
use rust_gb_emulator.Cpu.RegisterLaws.{IsRegisters, read_r8-half, write_r8-IsRegisters}

pub byte_of : (r : Registers) (x : Reg8) → IsRegisters r → Registers.read_r8 r x < 256
byte_of r reg_a v = ground (arith, read_r8-half r reg_a v)
byte_of r reg_b v = ground (arith, read_r8-half r reg_b v)
byte_of r reg_c v = ground (arith, read_r8-half r reg_c v)
byte_of r reg_d v = ground (arith, read_r8-half r reg_d v)
byte_of r reg_e v = ground (arith, read_r8-half r reg_e v)
byte_of r reg_h v = ground (arith, read_r8-half r reg_h v)
byte_of r reg_l v = ground (arith, read_r8-half r reg_l v)
byte_of r reg_f v = ground (arith, read_r8-half r reg_f v)

pub word_of : (r : Registers) (x : Reg16) → IsRegisters r → Registers.read_r16 r x < 65536
unfolding Registers.read_r16
word_of r reg_af v = v.af_u16
word_of r reg_bc v = v.bc_u16
word_of r reg_de v = v.de_u16
word_of r reg_hl v = v.hl_u16
word_of r reg_sp v = v.sp_u16
word_of r reg_pc v = v.pc_u16

af_kept : (v : ℕ) → v < 65536 → bit_and v 0xFFF0 ≡ v / 16 * 16
af_kept v h = ground (arith, bit_and_field 4 12 v)

pub write_r16-IsRegisters :
    (r : Registers) (x : Reg16) (v : ℕ)
    → IsRegisters r
    → v < 65536
    → IsRegisters (Registers.write_r16 r x v)
unfolding Registers.write_r16
write_r16-IsRegisters r reg_af v k h = ground (arith, af_kept v h)
write_r16-IsRegisters r reg_bc v k h = ground arith
write_r16-IsRegisters r reg_de v k h = ground arith
write_r16-IsRegisters r reg_hl v k h = ground arith
write_r16-IsRegisters r reg_sp v k h = ground arith
write_r16-IsRegisters r reg_pc v k h = ground arith

upper : (value : ℕ) → bit_and value 0xF0 < 256
upper value = ground (arith, bit_and_field 4 4 value)

-- F keeps the upper half of any number.
pub write_f-IsRegisters :
    (r : Registers) (value : ℕ) → IsRegisters r → IsRegisters (Registers.write_r8 r reg_f value)
unfolding Registers.write_r8
write_f-IsRegisters r value v =
    rw (← same) (write_r8-IsRegisters r reg_f (bit_and value 0xF0) v (upper value))
  where
    twice : bit_and (bit_and value 0xF0) 0xF0 ≡ bit_and value 0xF0
    twice = ground (arith, bit_and_field 4 4 value, bit_and_field 4 4 (bit_and value 0xF0))

    same : Registers.write_r8 r reg_f (bit_and value 0xF0) ≡ Registers.write_r8 r reg_f value
    same = ap (λ (x : ℕ). record r { af = bit_or (bit_and r.af 0xFF00) x }) twice
