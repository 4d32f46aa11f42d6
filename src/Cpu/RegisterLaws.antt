-- ===== src/Cpu/RegisterLaws.antt =====
-- Writing and reading the halves of the registers.
use rust_gb_emulator.Base.{
  ℕ, ◌+◌, ◌*◌, ◌/◌, ◌%◌, ◌<◌, bit_and, bit_or, Bool, true, false, if◌then◌else◌, ◌≡◌, arith, refl,
}
use rust_gb_emulator.Base.Masks.{bit_and_ones, bit_and_field, bit_or_fields, bit_or_fields'}
use rust_gb_emulator.Cpu.Registers.{
  Reg8, reg_a, reg_b, reg_c, reg_d, reg_e, reg_h, reg_l, reg_f, Registers, read_r8, write_r8,
}

-- The pairs are words, and the lower half of F is clear.
pub record IsRegisters (r : Registers) : Type 0 where
  pub af_u16 : r.af < 65536
  pub bc_u16 : r.bc < 65536
  pub de_u16 : r.de < 65536
  pub hl_u16 : r.hl < 65536
  pub sp_u16 : r.sp < 65536
  pub pc_u16 : r.pc < 65536
  pub flags_low : r.af % 16 ≡ 0

unfoldable pub same_reg : Reg8 → Reg8 → Bool
same_reg reg_a reg_a = true
same_reg reg_b reg_b = true
same_reg reg_c reg_c = true
same_reg reg_d reg_d = true
same_reg reg_e reg_e = true
same_reg reg_h reg_h = true
same_reg reg_l reg_l = true
same_reg reg_f reg_f = true
same_reg _ _ = false

-- What a register keeps of a byte: F has no lower half.
unfoldable pub kept : Reg8 → ℕ → ℕ
kept reg_f value = value / 16 * 16
kept _ value = value

high_half : (w v : ℕ) → v < 256 → bit_or (bit_and w 0xFF) (v * 256) ≡ v * 256 + w % 256
high_half w v h = ground (arith, bit_and_ones 8 w, bit_or_fields' 8 v (w % 256))

low_half : (w v : ℕ) → w < 65536 → v < 256 → bit_or (bit_and w 0xFF00) v ≡ w / 256 * 256 + v
low_half w v h k = ground (arith, bit_and_field 8 8 w, bit_or_fields 8 (w / 256) v)

upper_nibble : (v : ℕ) → v < 256 → bit_and v 0xF0 ≡ v / 16 * 16
upper_nibble v h = ground (arith, bit_and_field 4 4 v)

-- A half as a quotient or a remainder.
abbrev half : Registers → Reg8 → ℕ
half r reg_a = r.af / 256
half r reg_b = r.bc / 256
half r reg_c = r.bc % 256
half r reg_d = r.de / 256
half r reg_e = r.de % 256
half r reg_h = r.hl / 256
half r reg_l = r.hl % 256
half r reg_f = r.af % 256

pub read_r8-half : (r : Registers) (x : Reg8) → IsRegisters r → read_r8 r x ≡ half r x
unfolding read_r8
read_r8-half r reg_a v = omega arith
read_r8-half r reg_b v = omega arith
read_r8-half r reg_c v = bit_and_ones 8 r.bc
read_r8-half r reg_d v = omega arith
read_r8-half r reg_e v = bit_and_ones 8 r.de
read_r8-half r reg_h v = omega arith
read_r8-half r reg_l v = bit_and_ones 8 r.hl
read_r8-half r reg_f v = bit_and_ones 8 r.af

pub write_r8-IsRegisters :
    (r : Registers) (x : Reg8) (value : ℕ)
    → IsRegisters r
    → value < 256
    → IsRegisters (write_r8 r x value)
unfolding write_r8
write_r8-IsRegisters r reg_a value v h = ground (arith, high_half r.af value)
write_r8-IsRegisters r reg_b value v h = ground (arith, high_half r.bc value)
write_r8-IsRegisters r reg_c value v h = ground (arith, low_half r.bc value)
write_r8-IsRegisters r reg_d value v h = ground (arith, high_half r.de value)
write_r8-IsRegisters r reg_e value v h = ground (arith, low_half r.de value)
write_r8-IsRegisters r reg_h value v h = ground (arith, high_half r.hl value)
write_r8-IsRegisters r reg_l value v h = ground (arith, low_half r.hl value)
write_r8-IsRegisters r reg_f value v h =
    ground (arith, upper_nibble value, low_half r.af (value / 16 * 16))

half-write_r8 :
    (r : Registers) (x y : Reg8) (value : ℕ)
    → IsRegisters r
    → value < 256
    → half (write_r8 r x value) y ≡ (if same_reg x y then kept x value else half r y)
unfolding write_r8 same_reg kept
half-write_r8 r reg_a reg_a value v h = ground (arith, high_half r.af value)
half-write_r8 r reg_a reg_b value v h = refl
half-write_r8 r reg_a reg_c value v h = refl
half-write_r8 r reg_a reg_d value v h = refl
half-write_r8 r reg_a reg_e value v h = refl
half-write_r8 r reg_a reg_h value v h = refl
half-write_r8 r reg_a reg_l value v h = refl
half-write_r8 r reg_a reg_f value v h = ground (arith, high_half r.af value)
half-write_r8 r reg_b reg_a value v h = refl
half-write_r8 r reg_b reg_b value v h = ground (arith, high_half r.bc value)
half-write_r8 r reg_b reg_c value v h = ground (arith, high_half r.bc value)
half-write_r8 r reg_b reg_d value v h = refl
half-write_r8 r reg_b reg_e value v h = refl
half-write_r8 r reg_b reg_h value v h = refl
half-write_r8 r reg_b reg_l value v h = refl
half-write_r8 r reg_b reg_f value v h = refl
half-write_r8 r reg_c reg_a value v h = refl
half-write_r8 r reg_c reg_b value v h = ground (arith, low_half r.bc value)
half-write_r8 r reg_c reg_c value v h = ground (arith, low_half r.bc value)
half-write_r8 r reg_c reg_d value v h = refl
half-write_r8 r reg_c reg_e value v h = refl
half-write_r8 r reg_c reg_h value v h = refl
half-write_r8 r reg_c reg_l value v h = refl
half-write_r8 r reg_c reg_f value v h = refl
half-write_r8 r reg_d reg_a value v h = refl
half-write_r8 r reg_d reg_b value v h = refl
half-write_r8 r reg_d reg_c value v h = refl
half-write_r8 r reg_d reg_d value v h = ground (arith, high_half r.de value)
half-write_r8 r reg_d reg_e value v h = ground (arith, high_half r.de value)
half-write_r8 r reg_d reg_h value v h = refl
half-write_r8 r reg_d reg_l value v h = refl
half-write_r8 r reg_d reg_f value v h = refl
half-write_r8 r reg_e reg_a value v h = refl
half-write_r8 r reg_e reg_b value v h = refl
half-write_r8 r reg_e reg_c value v h = refl
half-write_r8 r reg_e reg_d value v h = ground (arith, low_half r.de value)
half-write_r8 r reg_e reg_e value v h = ground (arith, low_half r.de value)
half-write_r8 r reg_e reg_h value v h = refl
half-write_r8 r reg_e reg_l value v h = refl
half-write_r8 r reg_e reg_f value v h = refl
half-write_r8 r reg_h reg_a value v h = refl
half-write_r8 r reg_h reg_b value v h = refl
half-write_r8 r reg_h reg_c value v h = refl
half-write_r8 r reg_h reg_d value v h = refl
half-write_r8 r reg_h reg_e value v h = refl
half-write_r8 r reg_h reg_h value v h = ground (arith, high_half r.hl value)
half-write_r8 r reg_h reg_l value v h = ground (arith, high_half r.hl value)
half-write_r8 r reg_h reg_f value v h = refl
half-write_r8 r reg_l reg_a value v h = refl
half-write_r8 r reg_l reg_b value v h = refl
half-write_r8 r reg_l reg_c value v h = refl
half-write_r8 r reg_l reg_d value v h = refl
half-write_r8 r reg_l reg_e value v h = refl
half-write_r8 r reg_l reg_h value v h = ground (arith, low_half r.hl value)
half-write_r8 r reg_l reg_l value v h = ground (arith, low_half r.hl value)
half-write_r8 r reg_l reg_f value v h = refl
half-write_r8 r reg_f reg_a value v h =
    ground (arith, upper_nibble value, low_half r.af (value / 16 * 16))
half-write_r8 r reg_f reg_b value v h = refl
half-write_r8 r reg_f reg_c value v h = refl
half-write_r8 r reg_f reg_d value v h = refl
half-write_r8 r reg_f reg_e value v h = refl
half-write_r8 r reg_f reg_h value v h = refl
half-write_r8 r reg_f reg_l value v h = refl
half-write_r8 r reg_f reg_f value v h =
    ground (arith, upper_nibble value, low_half r.af (value / 16 * 16))

-- In a well-formed register file a byte written to a register is read back, but for the lower half of F; every other 8-bit
-- register reads as before, and the register file stays well formed.
pub read_r8-write_r8 :
    (r : Registers) (x y : Reg8) (value : ℕ)
    → IsRegisters r
    → value < 256
    → (read_r8 (write_r8 r x value) y ≡ (if same_reg x y then kept x value else read_r8 r y))
      × IsRegisters (write_r8 r x value)
read_r8-write_r8 r x y value v h =
    let v' = write_r8-IsRegisters r x value v h in
    (
      rw (read_r8-half (write_r8 r x value) y v', read_r8-half r y v)
          (half-write_r8 r x y value v h),
      v',
    )
