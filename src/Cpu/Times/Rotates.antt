-- ===== src/Cpu/Times/Rotates.antt =====
-- The rotates of A, the 16-bit sums, and the instructions on the flags: what they tick.
use rust_gb_emulator.Base.{ℕ, ◌+◌, ◌<◌, bit_and, bit_or, u8, u16, ◌>>>◌, ◌<<<◌, inverted, arith}
use rust_gb_emulator.Base.Masks.{bit_and_bit}
use rust_gb_emulator.Base.Widths.{bit_or-lt}
use rust_gb_emulator.Cpu.Registers.{Reg16, reg_a, reg_f, reg_hl, reg_sp}
use rust_gb_emulator.Cpu.Machine.{◌>>=◌, ◌>>◌, read_r8, write_r8, tick_internal}
use rust_gb_emulator.Cpu.Takes.{Takes, Any, bind_Takes, then_Takes}
use rust_gb_emulator.Cpu.Accesses.{
  read_r8-Takes, read_r16-Takes, write_r8-Takes, write_f-Takes, write_r16-Takes,
  tick_internal-Takes, tick_1, tick_2, immediate_byte-Takes,
}
use rust_gb_emulator.Cpu.Loads.{carry_flag, sign_extend}
use rust_gb_emulator.Cpu.Rotates.{rlca, rla, rrca, rra, add_hl, add_sp_e, daa, cpl, scf, ccf}

-- A bit of a byte, moved to an end.
low_bit : (v : ℕ) → v < 256 → bit_and v 0x80 >>> 7 < 256
low_bit v h = omega (arith, bit_and_bit 7 v)

carry_low : (f : ℕ) → f < 256 → bit_and f carry_flag >>> 4 < 256
carry_low f h = omega (arith, bit_and_bit 4 f)

-- The flags behind a write of A.
then_flags :
    (value : ℕ) (f : ℕ → ℕ)
    → value < 256
    → Takes Any 0 0 (do write_r8 reg_a value; flags ← read_r8 reg_f; write_r8 reg_f (f flags))
then_flags value f h =
    then_Takes (write_r8-Takes reg_a value h)
      (bind_Takes (read_r8-Takes reg_f) λ flags k. write_f-Takes (f flags))

-- An operation on the flags alone.
on_flags :
    (f : ℕ → ℕ)
    → Takes Any 1 1 (do tick_internal 1; flags ← read_r8 reg_f; write_r8 reg_f (f flags))
on_flags f = then_Takes tick_1 (bind_Takes (read_r8-Takes reg_f) λ flags h. write_f-Takes (f flags))

pub rlca-Takes : Takes Any 1 1 rlca
unfolding rlca
rlca-Takes = then_Takes tick_1 (
    bind_Takes (read_r8-Takes reg_a) λ value h.
      then_flags (bit_or (u8 (value <<< 1)) (bit_and value 0x80 >>> 7)) _
        (bit_or-lt 8 _ _ (omega arith) (low_bit value h)))

pub rla-Takes : Takes Any 1 1 rla
unfolding rla
rla-Takes = then_Takes tick_1 (
    bind_Takes (read_r8-Takes reg_a) λ value h. bind_Takes (read_r8-Takes reg_f) λ f k.
      then_flags (bit_or (u8 (value <<< 1)) (bit_and f carry_flag >>> 4)) _
        (bit_or-lt 8 _ _ (omega arith) (carry_low f k)))

pub rrca-Takes : Takes Any 1 1 rrca
unfolding rrca
rrca-Takes = then_Takes tick_1 (
    bind_Takes (read_r8-Takes reg_a) λ value h.
      then_flags (bit_or (value >>> 1) (u8 (bit_and value 0x01 <<< 7))) _
        (bit_or-lt 8 _ _ (omega arith) (omega arith)))

pub rra-Takes : Takes Any 1 1 rra
unfolding rra
rra-Takes = then_Takes tick_1 (
    bind_Takes (read_r8-Takes reg_a) λ value h. bind_Takes (read_r8-Takes reg_f) λ f k.
      then_flags (bit_or (value >>> 1) (u8 (bit_and f carry_flag <<< 3))) _
        (bit_or-lt 8 _ _ (omega arith) (omega arith)))

pub add_hl-Takes : (reg : Reg16) → Takes Any 2 2 (add_hl reg)
unfolding add_hl
add_hl-Takes reg = then_Takes tick_2 (
    bind_Takes (read_r16-Takes reg) λ value h. bind_Takes (read_r16-Takes reg_hl) λ hl k.
      then_Takes (write_r16-Takes reg_hl (u16 (value + hl)) (omega arith))
        (bind_Takes (read_r8-Takes reg_f) λ flags l. write_f-Takes _))

pub add_sp_e-Takes : Takes Any 4 4 add_sp_e
unfolding add_sp_e
add_sp_e-Takes = bind_Takes immediate_byte-Takes λ offset h.
    then_Takes (tick_internal-Takes 3 (omega arith)) (
      bind_Takes (read_r16-Takes reg_sp) λ sp k.
        then_Takes (write_r16-Takes reg_sp (u16 (sp + sign_extend offset)) (omega arith))
          (write_f-Takes _))

pub daa-Takes : Takes Any 1 1 daa
unfolding daa
daa-Takes = then_Takes tick_1 (
    bind_Takes (read_r8-Takes reg_a) λ a h.
      bind_Takes (read_r8-Takes reg_f)
        λ flags k. then_Takes (write_f-Takes _) (write_r8-Takes reg_a _ (ground arith)))

pub cpl-Takes : Takes Any 1 1 cpl
unfolding cpl
cpl-Takes =
    then_Takes tick_1
      (bind_Takes (read_r8-Takes reg_a) λ value h. then_flags (inverted value) _ (omega arith))

pub scf-Takes : Takes Any 1 1 scf
unfolding scf
scf-Takes = on_flags _

pub ccf-Takes : Takes Any 1 1 ccf
unfolding ccf
ccf-Takes = on_flags _
