-- ===== src/Cpu/Cb.antt =====
-- src/cpu.rs: the instructions behind the prefix 0xCB.
use rust_gb_emulator.Base.{
  ℕ, ◌+◌, bit_and, bit_or, if◌then◌else◌, u8, ◌>>>◌, ◌<<<◌, ltb, ◌==◌, ◌!=◌, inverted, ok, panic,
}
use rust_gb_emulator.Cpu.Registers.{Operand, mem_hl, from_index, reg_f, reg_hl, reg_pc}
use rust_gb_emulator.Cpu.Machine.{
  Exec, ◌>>=◌, ◌>>◌, read_r8, read_r16, write_r8, add_u16, peek, tick_internal, read_byte_tick,
  write_byte_tick, read_operand, write_operand,
}
use rust_gb_emulator.Cpu.Loads.{
  zero_flag, subtract_flag, half_carry_flag, carry_flag, set_if, clear,
}

unfoldable pub write_op_cb : Operand → ℕ → Exec (Unit {0})
write_op_cb mem_hl result = do
  address ← read_r16 reg_hl
  tick_internal 1
  write_byte_tick address result
write_op_cb op result = do tick_internal 1; write_operand op result

unfoldable pub read_op_cb : Operand → Exec ℕ
read_op_cb mem_hl = do address ← read_r16 reg_hl; tick_internal 1; read_byte_tick address
read_op_cb op = do tick_internal 1; read_operand op

-- The flags after a rotate or a shift: C is the bit that left, Z says that the result is 0.
unfoldable pub shift_flags : ℕ → ℕ → ℕ → ℕ
shift_flags out result flags = set_if (result == 0) zero_flag (
    clear zero_flag (
      clear subtract_flag
        (clear half_carry_flag (set_if (out != 0) carry_flag (clear carry_flag flags)))))

-- The results; `carry` is the C before.
unfoldable pub rotate_left_1 : ℕ → ℕ
rotate_left_1 value = bit_or (u8 (value <<< 1)) (value >>> 7)

unfoldable pub rotate_right_1 : ℕ → ℕ
rotate_right_1 value = bit_or (value >>> 1) (u8 (value <<< 7))

unfoldable pub rotate_left_4 : ℕ → ℕ
rotate_left_4 value = bit_or (u8 (value <<< 4)) (value >>> 4)

-- `value >> 1` of an `i8`.
unfoldable pub arithmetic_right_1 : ℕ → ℕ
arithmetic_right_1 value = if ltb value 128 then value >>> 1 else (value >>> 1) + 128

unfoldable pub rlc_r : Operand → Exec (Unit {0})
rlc_r op = do
  value ← read_op_cb op
  flags ← read_r8 reg_f
  let result = rotate_left_1 value
  write_r8 reg_f (shift_flags (bit_and value 0x80) result flags)
  write_op_cb op result

unfoldable pub rrc_r : Operand → Exec (Unit {0})
rrc_r op = do
  value ← read_op_cb op
  flags ← read_r8 reg_f
  let result = rotate_right_1 value
  write_r8 reg_f (shift_flags (bit_and value 0x01) result flags)
  write_op_cb op result

unfoldable pub rl_r : Operand → Exec (Unit {0})
rl_r op = do
  value ← read_op_cb op
  flags ← read_r8 reg_f
  let carry : ℕ = if bit_and flags carry_flag != 0 then 1 else 0
  let result = bit_or (u8 (value <<< 1)) carry
  write_r8 reg_f (shift_flags (bit_and value 0x80) result flags)
  write_op_cb op result

unfoldable pub rr_r : Operand → Exec (Unit {0})
rr_r op = do
  value ← read_op_cb op
  flags ← read_r8 reg_f
  let carry : ℕ = if bit_and flags carry_flag != 0 then 1 else 0
  let result = bit_or (value >>> 1) (u8 (carry <<< 7))
  write_r8 reg_f (shift_flags (bit_and value 0x01) result flags)
  write_op_cb op result

unfoldable pub sla_r : Operand → Exec (Unit {0})
sla_r op = do
  value ← read_op_cb op
  flags ← read_r8 reg_f
  let result = u8 (value <<< 1)
  write_r8 reg_f (shift_flags (bit_and value 0x80) result flags)
  write_op_cb op result

unfoldable pub sra_r : Operand → Exec (Unit {0})
sra_r op = do
  value ← read_op_cb op
  flags ← read_r8 reg_f
  let result = arithmetic_right_1 value
  write_r8 reg_f (shift_flags (bit_and value 0x01) result flags)
  write_op_cb op result

unfoldable pub swap_r : Operand → Exec (Unit {0})
swap_r op = do
  value ← read_op_cb op
  flags ← read_r8 reg_f
  let result = rotate_left_4 value
  write_r8 reg_f (
      set_if (result == 0) zero_flag
        (clear (carry_flag + half_carry_flag + subtract_flag + zero_flag) flags))
  write_op_cb op result

unfoldable pub srl_r : Operand → Exec (Unit {0})
srl_r op = do
  value ← read_op_cb op
  flags ← read_r8 reg_f
  let result = value >>> 1
  write_r8 reg_f (shift_flags (bit_and value 0x01) result flags)
  write_op_cb op result

unfoldable pub bit_n_r : Operand → ℕ → Exec (Unit {0})
bit_n_r op n = do
  value ← read_op_cb op
  tick_internal 1
  flags ← read_r8 reg_f
  write_r8 reg_f (
      set_if (bit_and value (1 <<< n) == 0) zero_flag
        (clear zero_flag (clear subtract_flag (bit_or flags half_carry_flag))))

unfoldable pub res_n_r : Operand → ℕ → Exec (Unit {0})
res_n_r op n = do value ← read_op_cb op; write_op_cb op (bit_and value (inverted (1 <<< n)))

unfoldable pub set_n_r : Operand → ℕ → Exec (Unit {0})
set_n_r op n = do value ← read_op_cb op; write_op_cb op (bit_or value (1 <<< n))

unfoldable pub operand_of : ℕ → Exec Operand
operand_of index b s = elim (from_index index) [ ok op ↦ ok (op, s) | panic ↦ panic ]

-- The match on `cb_opcode`, by its upper bits.
unfoldable pub dispatch_cb : ℕ → Operand → Exec (Unit {0})
dispatch_cb cb_opcode op =
    let n = bit_and (cb_opcode >>> 3) 0x07 in
    if ltb cb_opcode 0x08
    then rlc_r op
    else if ltb cb_opcode 0x10
    then rrc_r op
    else if ltb cb_opcode 0x18
    then rl_r op
    else if ltb cb_opcode 0x20
    then rr_r op
    else if ltb cb_opcode 0x28
    then sla_r op
    else if ltb cb_opcode 0x30
    then sra_r op
    else if ltb cb_opcode 0x38
    then swap_r op
    else if ltb cb_opcode 0x40
    then srl_r op
    else if ltb cb_opcode 0x80
    then bit_n_r op n
    else if ltb cb_opcode 0xC0
    then res_n_r op n
    else set_n_r op n

unfoldable pub call_cb : Exec (Unit {0})
call_cb = do
  pc ← read_r16 reg_pc
  next ← add_u16 pc 1
  cb_opcode ← peek next
  op ← operand_of (bit_and cb_opcode 0x07)
  dispatch_cb cb_opcode op
