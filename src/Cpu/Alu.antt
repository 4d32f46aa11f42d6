-- ===== src/Cpu/Alu.antt =====
-- src/cpu.rs: the 8-bit arithmetic and logic on A.
use rust_gb_emulator.Base.{
  ℕ, ◌+◌, ◌-◌, bit_and, bit_or, bit_xor, Bool, if◌then◌else◌, u8, u16, ◌>>>◌, ltb, ◌==◌, ◌!=◌,
}
use rust_gb_emulator.Cpu.Registers.{Operand, mem_hl, reg_a, reg_f, reg_hl}
use rust_gb_emulator.Cpu.Machine.{
  Exec, ◌>>=◌, ◌>>◌, return, read_r8, read_r16, write_r8, tick_internal, read_byte_tick,
  read_operand,
}
use rust_gb_emulator.Cpu.Loads.{
  zero_flag, subtract_flag, half_carry_flag, carry_flag, set_if, clear, wrapping_sub_8,
  immediate_byte,
}

-- The first statement of each `..._a_r`: the operand's value, and its time.
unfoldable pub alu_operand : Operand → Exec ℕ
alu_operand mem_hl = do
  address ← read_r16 reg_hl
  v ← read_byte_tick address
  tick_internal 1
  return v
alu_operand op = do tick_internal 1; read_operand op

-- That of each `..._a_n`.
unfoldable pub alu_immediate : Exec ℕ
alu_immediate = do value ← immediate_byte; tick_internal 1; return value

-- The flags after an addition, its exact result and that of the lower halves given.
unfoldable pub add_flags : ℕ → ℕ → ℕ → ℕ
add_flags result low flags = set_if (u8 result == 0) zero_flag (
    set_if (ltb 0xF low) half_carry_flag (
      set_if (ltb 0xFF result) carry_flag
        (clear (subtract_flag + carry_flag + half_carry_flag + zero_flag) flags)))

unfoldable pub add_a : ℕ → Exec (Unit {0})
add_a value = do
  a ← read_r8 reg_a
  let result = value + a
  write_r8 reg_a (u8 result)
  flags ← read_r8 reg_f
  write_r8 reg_f (add_flags result (bit_and value 0xF + bit_and a 0xF) flags)

unfoldable pub adc_a : ℕ → Exec (Unit {0})
adc_a value = do
  a ← read_r8 reg_a
  f ← read_r8 reg_f
  let carry = bit_and f carry_flag >>> 4
  let result = value + a + carry
  write_r8 reg_a (u8 result)
  flags ← read_r8 reg_f
  write_r8 reg_f (add_flags result (bit_and value 0xF + bit_and a 0xF + carry) flags)

-- The flags after a subtraction or a comparison, from none.
unfoldable pub sub_flags : Bool → Bool → Bool → ℕ
sub_flags carry half_carry zero =
    set_if zero zero_flag
      (set_if half_carry half_carry_flag (set_if carry carry_flag (bit_or 0 subtract_flag)))

unfoldable pub sub_a : ℕ → Exec (Unit {0})
sub_a value = do
  a ← read_r8 reg_a
  let result = wrapping_sub_8 a value
  write_r8 reg_a result
  write_r8 reg_f (sub_flags (ltb a value) (ltb (bit_and a 0x0F) (bit_and value 0x0F)) (result == 0))

-- `temp_result` is a u16 that wraps below 0.
unfoldable pub sbc_a : ℕ → Exec (Unit {0})
sbc_a value = do
  a ← read_r8 reg_a
  f ← read_r8 reg_f
  let carry_in : ℕ = if bit_and f carry_flag != 0 then 1 else 0
  let temp_result = u16 (u16 (a + 0x10000 - value) + 0x10000 - carry_in)
  let result = u8 temp_result
  write_r8 reg_a result
  write_r8 reg_f (
      sub_flags (ltb 0xFF temp_result) (ltb (bit_and a 0x0F) (bit_and value 0x0F + carry_in))
        (result == 0))

unfoldable pub cp_a : ℕ → Exec (Unit {0})
cp_a value = do
  a ← read_r8 reg_a
  write_r8 reg_f (sub_flags (ltb a value) (ltb (bit_and a 0x0F) (bit_and value 0x0F)) (a == value))

unfoldable pub and_flags : ℕ → ℕ → ℕ
and_flags result flags =
    set_if (result == 0) zero_flag
      (clear zero_flag (clear carry_flag (clear subtract_flag (bit_or flags half_carry_flag))))

unfoldable pub logic_flags : ℕ → ℕ → ℕ
logic_flags result flags =
    set_if (result == 0) zero_flag
      (clear zero_flag (clear carry_flag (clear subtract_flag (clear half_carry_flag flags))))

unfoldable pub and_a : ℕ → Exec (Unit {0})
and_a value = do
  a ← read_r8 reg_a
  let result = bit_and a value
  write_r8 reg_a result
  flags ← read_r8 reg_f
  write_r8 reg_f (and_flags result flags)

unfoldable pub xor_a : ℕ → Exec (Unit {0})
xor_a value = do
  a ← read_r8 reg_a
  let result = bit_xor a value
  write_r8 reg_a result
  flags ← read_r8 reg_f
  write_r8 reg_f (logic_flags result flags)

unfoldable pub or_a : ℕ → Exec (Unit {0})
or_a value = do
  a ← read_r8 reg_a
  let result = bit_or a value
  write_r8 reg_a result
  flags ← read_r8 reg_f
  write_r8 reg_f (logic_flags result flags)

unfoldable pub add_a_r : Operand → Exec (Unit {0})
add_a_r op = do value ← alu_operand op; add_a value

unfoldable pub add_a_n : Exec (Unit {0})
add_a_n = do value ← alu_immediate; add_a value

unfoldable pub adc_a_r : Operand → Exec (Unit {0})
adc_a_r op = do value ← alu_operand op; adc_a value

unfoldable pub adc_a_n : Exec (Unit {0})
adc_a_n = do value ← alu_immediate; adc_a value

unfoldable pub sub_a_r : Operand → Exec (Unit {0})
sub_a_r op = do value ← alu_operand op; sub_a value

unfoldable pub sub_a_n : Exec (Unit {0})
sub_a_n = do value ← alu_immediate; sub_a value

unfoldable pub sbc_a_r : Operand → Exec (Unit {0})
sbc_a_r op = do value ← alu_operand op; sbc_a value

unfoldable pub sbc_a_n : Exec (Unit {0})
sbc_a_n = do value ← alu_immediate; sbc_a value

unfoldable pub and_a_r : Operand → Exec (Unit {0})
and_a_r op = do value ← alu_operand op; and_a value

unfoldable pub and_a_n : Exec (Unit {0})
and_a_n = do value ← alu_immediate; and_a value

unfoldable pub xor_a_r : Operand → Exec (Unit {0})
xor_a_r op = do value ← alu_operand op; xor_a value

unfoldable pub xor_a_n : Exec (Unit {0})
xor_a_n = do value ← alu_immediate; xor_a value

unfoldable pub or_a_r : Operand → Exec (Unit {0})
or_a_r op = do value ← alu_operand op; or_a value

unfoldable pub or_a_n : Exec (Unit {0})
or_a_n = do value ← alu_immediate; or_a value

unfoldable pub cp_a_r : Operand → Exec (Unit {0})
cp_a_r op = do value ← alu_operand op; cp_a value

unfoldable pub cp_a_n : Exec (Unit {0})
cp_a_n = do value ← alu_immediate; cp_a value
