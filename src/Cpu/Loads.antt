-- ===== src/Cpu/Loads.antt =====
-- src/cpu.rs: loads, the stack, and 8- and 16-bit counts.
use rust_gb_emulator.Base.{
  ℕ, ◌+◌, ◌-◌, bit_and, bit_or, Bool, true, false, if◌then◌else◌, u8, u16, ltb, ◌==◌, inverted,
}
use rust_gb_emulator.Cpu.Registers.{
  Reg8, Reg16, Operand, mem_hl, mem_bc, mem_de, reg_a, reg_c, reg_f, reg_hl, reg_bc, reg_de, reg_sp,
  reg_pc,
}
use rust_gb_emulator.Cpu.Machine.{
  Exec, ◌>>=◌, ◌>>◌, panics, read_r8, read_r16, write_r8, write_r16, add_u16, tick_internal,
  read_byte_tick, write_byte_tick, read_word_tick, write_word_tick, read_operand, write_operand,
}

abbrev pub zero_flag : ℕ
zero_flag = 0b10000000

abbrev pub subtract_flag : ℕ
subtract_flag = 0b01000000

abbrev pub half_carry_flag : ℕ
half_carry_flag = 0b00100000

abbrev pub carry_flag : ℕ
carry_flag = 0b00010000

-- `if test { flags |= flag; }`
abbrev pub set_if : Bool → ℕ → ℕ → ℕ
set_if test flag flags = if test then bit_or flags flag else flags

-- `flags &= !mask`
abbrev pub clear : ℕ → ℕ → ℕ
clear mask flags = bit_and flags (inverted mask)

-- `offset as i8 as i16 as u16` of a byte.
abbrev pub sign_extend : ℕ → ℕ
sign_extend offset = if ltb offset 128 then offset else offset + 0xFF00

-- `x.wrapping_sub(k)` at 8 and at 16 bits, for k up to the modulus.
abbrev pub wrapping_sub_8 : ℕ → ℕ → ℕ
wrapping_sub_8 x k = u8 (x + 256 - k)

abbrev pub wrapping_sub_16 : ℕ → ℕ → ℕ
wrapping_sub_16 x k = u16 (x + 0x10000 - k)

-- The byte behind the opcode, and the word.
unfoldable pub immediate_byte : Exec ℕ
immediate_byte = do pc ← read_r16 reg_pc; next ← add_u16 pc 1; read_byte_tick next

unfoldable pub immediate_word : Exec ℕ
immediate_word = do pc ← read_r16 reg_pc; next ← add_u16 pc 1; read_word_tick next

unfoldable pub ld_r16_nn : Reg16 → Exec (Unit {0})
unfolding immediate_word
ld_r16_nn reg = do value ← immediate_word; tick_internal 1; write_r16 reg value

unfoldable pub ld_r8_n : Reg8 → Exec (Unit {0})
unfolding immediate_byte
ld_r8_n reg = do value ← immediate_byte; tick_internal 1; write_r8 reg value

abbrev pub in_memory : Operand → Bool
in_memory mem_hl = true
in_memory mem_bc = true
in_memory mem_de = true
in_memory _ = false

-- The pair that addresses an operand in memory; the source reaches `unreachable!()` for others.
unfoldable pub operand_address : Operand → Exec ℕ
operand_address mem_hl = read_r16 reg_hl
operand_address mem_bc = read_r16 reg_bc
operand_address mem_de = read_r16 reg_de
operand_address _ = panics

unfoldable pub ld_source : Operand → Exec ℕ
unfolding operand_address
ld_source source =
    if in_memory source
    then (do address ← operand_address source; read_byte_tick address)
    else (do tick_internal 1; read_operand source)

unfoldable pub ld_dest : Operand → Bool → ℕ → Exec (Unit {0})
unfolding operand_address
ld_dest dest needs_mem_read value =
    if in_memory dest
    then (do address ← operand_address dest; write_byte_tick address value)
    else if needs_mem_read
    then (do tick_internal 1; write_operand dest value)
    else write_operand dest value

unfoldable pub ld_operand : Operand → Operand → Exec (Unit {0})
unfolding ld_source ld_dest
ld_operand dest source = do value ← ld_source source; ld_dest dest (in_memory source) value

unfoldable pub ld_nn_a : Exec (Unit {0})
ld_nn_a = do
  address ← immediate_word
  value ← read_r8 reg_a
  write_byte_tick address value
  tick_internal 1

unfoldable pub ld_m_n : Exec (Unit {0})
ld_m_n = do
  value ← immediate_byte
  address ← read_r16 reg_hl
  write_byte_tick address value
  tick_internal 1

-- H and C of `SP + e`, from the lower byte of SP and the offset as a byte.
unfoldable pub offset_flags : ℕ → ℕ → ℕ
offset_flags sp offset =
    let sp_low = bit_and sp 0xFF in
    set_if (ltb 0xFF (sp_low + offset)) carry_flag
      (set_if (ltb 0xF (bit_and sp_low 0xF + bit_and offset 0xF)) half_carry_flag 0)

unfoldable pub ld_sp_e : Exec (Unit {0})
ld_sp_e = do
  offset ← immediate_byte
  tick_internal 2
  sp ← read_r16 reg_sp
  write_r16 reg_hl (u16 (sp + sign_extend offset))
  write_r8 reg_f (offset_flags sp offset)

unfoldable pub ld_sp_hl : Exec (Unit {0})
ld_sp_hl = do tick_internal 2; value ← read_r16 reg_hl; write_r16 reg_sp value

unfoldable pub ld_nn_sp : Exec (Unit {0})
ld_nn_sp = do
  address ← immediate_word
  sp ← read_r16 reg_sp
  write_word_tick address sp
  tick_internal 1

unfoldable pub ldh_n_a : Exec (Unit {0})
ldh_n_a = do
  offset ← immediate_byte
  value ← read_r8 reg_a
  write_byte_tick (0xFF00 + offset) value
  tick_internal 1

unfoldable pub ldh_a_n : Exec (Unit {0})
ldh_a_n = do
  offset ← immediate_byte
  value ← read_byte_tick (0xFF00 + offset)
  tick_internal 1
  write_r8 reg_a value

unfoldable pub ldh_c_a : Exec (Unit {0})
ldh_c_a = do
  tick_internal 1
  value ← read_r8 reg_a
  offset ← read_r8 reg_c
  write_byte_tick (0xFF00 + offset) value

unfoldable pub ldh_a_c : Exec (Unit {0})
ldh_a_c = do
  tick_internal 1
  offset ← read_r8 reg_c
  value ← read_byte_tick (0xFF00 + offset)
  write_r8 reg_a value

unfoldable pub pop : Reg16 → Exec (Unit {0})
pop reg = do
  sp ← read_r16 reg_sp
  value ← read_word_tick sp
  tick_internal 1
  write_r16 reg value
  write_r16 reg_sp (u16 (sp + 2))

unfoldable pub push : Reg16 → Exec (Unit {0})
push reg = do
  value ← read_r16 reg
  tick_internal 2
  sp ← read_r16 reg_sp
  write_r16 reg_sp (wrapping_sub_16 sp 2)
  write_word_tick (wrapping_sub_16 sp 2) value

-- The flags after an increment and after a decrement; C is as it was.
unfoldable pub inc_flags : ℕ → ℕ → ℕ
inc_flags value flags = set_if (bit_and value 0x0F == 0x0F) half_carry_flag (
    set_if (u8 (value + 1) == 0) zero_flag
      (clear (zero_flag + subtract_flag + half_carry_flag) flags))

unfoldable pub dec_flags : ℕ → ℕ → ℕ
dec_flags value flags = set_if (bit_and value 0x0F == 0) half_carry_flag (
    set_if (wrapping_sub_8 value 1 == 0) zero_flag
      (bit_or (clear (zero_flag + half_carry_flag) flags) subtract_flag))

unfoldable pub inc_r8 : Reg8 → Exec (Unit {0})
inc_r8 reg = do
  tick_internal 1
  value ← read_r8 reg
  write_r8 reg (u8 (value + 1))
  flags ← read_r8 reg_f
  write_r8 reg_f (inc_flags value flags)

unfoldable pub dec_r8 : Reg8 → Exec (Unit {0})
dec_r8 reg = do
  tick_internal 1
  value ← read_r8 reg
  write_r8 reg (wrapping_sub_8 value 1)
  flags ← read_r8 reg_f
  write_r8 reg_f (dec_flags value flags)

unfoldable pub inc_r16 : Reg16 → Exec (Unit {0})
inc_r16 reg = do tick_internal 2; value ← read_r16 reg; write_r16 reg (u16 (value + 1))

unfoldable pub dec_r16 : Reg16 → Exec (Unit {0})
dec_r16 reg = do tick_internal 2; value ← read_r16 reg; write_r16 reg (wrapping_sub_16 value 1)

unfoldable pub inc_mem : Reg16 → Exec (Unit {0})
inc_mem reg = do
  address ← read_r16 reg
  value ← read_byte_tick address
  tick_internal 1
  write_byte_tick address (u8 (value + 1))
  flags ← read_r8 reg_f
  write_r8 reg_f (inc_flags value flags)

unfoldable pub dec_mem : Reg16 → Exec (Unit {0})
dec_mem reg = do
  address ← read_r16 reg
  value ← read_byte_tick address
  tick_internal 1
  write_byte_tick address (wrapping_sub_8 value 1)
  flags ← read_r8 reg_f
  write_r8 reg_f (dec_flags value flags)
