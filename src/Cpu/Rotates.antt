-- ===== src/Cpu/Rotates.antt =====
-- src/cpu.rs: the rotates of A, the 16-bit sums, and the instructions on the flags.
use rust_gb_emulator.Base.{
  ℕ, ◌+◌, bit_and, bit_or, bit_xor, Bool, if◌then◌else◌, u8, u16, ◌>>>◌, ◌<<<◌, ltb, ◌==◌, ◌!=◌,
  ◌||◌, ◌&&◌, inverted,
}
use rust_gb_emulator.Cpu.Registers.{Reg16, reg_a, reg_f, reg_hl, reg_sp}
use rust_gb_emulator.Cpu.Machine.{
  Exec, ◌>>=◌, ◌>>◌, read_r8, read_r16, write_r8, write_r16, tick_internal,
}
use rust_gb_emulator.Cpu.Loads.{
  zero_flag, subtract_flag, half_carry_flag, carry_flag, set_if, clear, sign_extend, wrapping_sub_8,
  immediate_byte, offset_flags,
}

-- The flags after a rotate of A: C is the bit that left.
unfoldable pub rotate_flags : ℕ → ℕ → ℕ
rotate_flags out flags =
    set_if (out != 0) carry_flag
      (clear (half_carry_flag + subtract_flag + zero_flag + carry_flag) flags)

-- RLCA clears three flags, and then sets or clears C.
unfoldable pub rlca : Exec (Unit {0})
rlca = do
  tick_internal 1
  value ← read_r8 reg_a
  let msb = bit_and value 0x80
  write_r8 reg_a (bit_or (u8 (value <<< 1)) (msb >>> 7))
  f ← read_r8 reg_f
  let flags = clear (half_carry_flag + subtract_flag + zero_flag) f
  write_r8 reg_f (if msb != 0 then bit_or flags carry_flag else clear carry_flag flags)

unfoldable pub rla : Exec (Unit {0})
rla = do
  tick_internal 1
  value ← read_r8 reg_a
  f ← read_r8 reg_f
  write_r8 reg_a (bit_or (u8 (value <<< 1)) (bit_and f carry_flag >>> 4))
  flags ← read_r8 reg_f
  write_r8 reg_f (rotate_flags (bit_and value 0x80) flags)

unfoldable pub rrca : Exec (Unit {0})
rrca = do
  tick_internal 1
  value ← read_r8 reg_a
  let lsb = bit_and value 0x01
  write_r8 reg_a (bit_or (value >>> 1) (u8 (lsb <<< 7)))
  flags ← read_r8 reg_f
  write_r8 reg_f (rotate_flags lsb flags)

unfoldable pub rra : Exec (Unit {0})
rra = do
  tick_internal 1
  value ← read_r8 reg_a
  f ← read_r8 reg_f
  write_r8 reg_a (bit_or (value >>> 1) (u8 (bit_and f carry_flag <<< 3)))
  flags ← read_r8 reg_f
  write_r8 reg_f (rotate_flags (bit_and value 0x01) flags)

unfoldable pub add_hl : Reg16 → Exec (Unit {0})
add_hl reg = do
  tick_internal 2
  value ← read_r16 reg
  hl ← read_r16 reg_hl
  let result = value + hl
  write_r16 reg_hl (u16 result)
  flags ← read_r8 reg_f
  write_r8 reg_f (
      set_if (ltb 0xFFF (bit_and value 0xFFF + bit_and hl 0xFFF)) half_carry_flag (
        set_if (ltb 0xFFFF result) carry_flag
          (clear (subtract_flag + carry_flag + half_carry_flag) flags)))

-- `flags` is set in the order H, C; `offset_flags` has the same two tests.
unfoldable pub add_sp_e : Exec (Unit {0})
add_sp_e = do
  offset ← immediate_byte
  tick_internal 3
  sp ← read_r16 reg_sp
  write_r16 reg_sp (u16 (sp + sign_extend offset))
  write_r8 reg_f (offset_flags sp offset)

-- `adjust` and `set_carry`, after an addition and after a subtraction.
unfoldable pub daa_carry : ℕ → ℕ → Bool
daa_carry value flags =
    (bit_and flags carry_flag != 0) || ((bit_and flags subtract_flag == 0) && ltb 0x99 value)

unfoldable pub daa_adjust : ℕ → ℕ → ℕ
daa_adjust value flags =
    let half =
      (bit_and flags half_carry_flag != 0)
      || ((bit_and flags subtract_flag == 0) && ltb 0x09 (bit_and value 0x0F)) in
    set_if half 0x06 (set_if (daa_carry value flags) 0x60 0)

unfoldable pub daa : Exec (Unit {0})
daa = do
  tick_internal 1
  a ← read_r8 reg_a
  flags ← read_r8 reg_f
  let adjust = daa_adjust a flags
  let value = if bit_and flags subtract_flag == 0 then u8 (a + adjust) else wrapping_sub_8 a adjust
  write_r8 reg_f (
      set_if (daa_carry a flags) carry_flag
        (set_if (value == 0) zero_flag (clear (zero_flag + half_carry_flag + carry_flag) flags)))
  write_r8 reg_a value

unfoldable pub cpl : Exec (Unit {0})
cpl = do
  tick_internal 1
  value ← read_r8 reg_a
  write_r8 reg_a (inverted value)
  flags ← read_r8 reg_f
  write_r8 reg_f (bit_or flags (subtract_flag + half_carry_flag))

unfoldable pub scf : Exec (Unit {0})
scf = do
  tick_internal 1
  flags ← read_r8 reg_f
  write_r8 reg_f (clear subtract_flag (clear half_carry_flag (bit_or flags carry_flag)))

unfoldable pub ccf : Exec (Unit {0})
ccf = do
  tick_internal 1
  flags ← read_r8 reg_f
  write_r8 reg_f (clear subtract_flag (clear half_carry_flag (bit_xor flags carry_flag)))
