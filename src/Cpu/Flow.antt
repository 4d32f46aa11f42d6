-- ===== src/Cpu/Flow.antt =====
-- src/cpu.rs: jumps, calls, returns, and the instructions that stop or enable interrupts.
use rust_gb_emulator.Base.{
  ℕ, ◌+◌, bit_and, Bool, true, false, if◌then◌else◌, ◌&&◌, u16, ◌>>>◌, ◌==◌, ◌!=◌, ok, panic,
}
use rust_gb_emulator.Memory
use rust_gb_emulator.Cpu.Registers
use rust_gb_emulator.Cpu.Registers.{reg_f, reg_hl, reg_sp, reg_pc}
use rust_gb_emulator.Cpu.Machine.{
  Exec, ◌>>=◌, ◌>>◌, return, panics, read_r8, read_r16, write_r16, write_ime, add_u16, sub_u16,
  peek, tick_internal, write_word_tick, read_word_tick,
}
use rust_gb_emulator.Cpu.Loads.{
  zero_flag, carry_flag, sign_extend, wrapping_sub_16, immediate_byte, immediate_word,
}

-- The argument `cflag`: 'c', 'z', or a character that the source panics on.
pub data Cflag : Type 0 where
  cflag_c cflag_z cflag_other : Cflag

-- `(F & flag) >> shift == cond`
unfoldable pub condition : Cflag → Bool → Exec Bool
condition cflag_c z = do
  f ← read_r8 reg_f
  return ((bit_and f carry_flag >>> 4) == (if z then 1 else 0))
condition cflag_z z = do
  f ← read_r8 reg_f
  return ((bit_and f zero_flag >>> 7) == (if z then 1 else 0))
condition cflag_other z = panics

unfoldable pub set_ei_pending : Bool → Exec (Unit {0})
set_ei_pending v b s = let c = s.cpu in ok (tt, record s { cpu = record c { ei_pending = v } })

unfoldable pub set_halted : Bool → Exec (Unit {0})
set_halted v b s = let c = s.cpu in ok (tt, record s { cpu = record c { halted = v } })

unfoldable pub set_halt_bug : Bool → Exec (Unit {0})
set_halt_bug v b s = let c = s.cpu in ok (tt, record s { cpu = record c { halt_bug = v } })

unfoldable pub read_ime : Exec ℕ
read_ime b s = ok (Registers.read_ime s.cpu.registers, s)

-- `mem.read_16` and `mem.write_16`, with no tick.
unfoldable pub peek_16 : ℕ → Exec ℕ
peek_16 address b s = elim (Memory.read_16 b s.mem address) [
  | ok value ↦ ok (value, s)
  | panic ↦ panic
]

unfoldable pub poke_16 : ℕ → ℕ → Exec (Unit {0})
poke_16 address value b s = ok (tt, record s { mem = Memory.write_16 s.mem address value })

unfoldable pub nop : Exec (Unit {0})
nop = tick_internal 1

unfoldable pub stop : Exec (Unit {0})
stop = tick_internal 1

unfoldable pub halt : Exec (Unit {0})
halt = do
  tick_internal 1
  ie ← peek 0xFFFF
  if_reg ← peek 0xFF0F
  ime ← read_ime
  if (ime == 0) && (bit_and (bit_and ie if_reg) 0x1F != 0)
      then set_halt_bug true
      else set_halted true

unfoldable pub di : Exec (Unit {0})
di = do tick_internal 1; write_ime 0; set_ei_pending false

unfoldable pub ei : Exec (Unit {0})
ei = do tick_internal 1; set_ei_pending true

unfoldable pub jr_e : Exec (Unit {0})
jr_e = do
  pc ← read_r16 reg_pc
  offset ← immediate_byte
  tick_internal 2
  write_r16 reg_pc (u16 (pc + 2 + sign_extend offset))

unfoldable pub jr_f_e : Cflag → Bool → Exec (Unit {0})
jr_f_e cflag z = do
  pc ← read_r16 reg_pc
  offset ← immediate_byte
  met ← condition cflag z
  if met
      then (do tick_internal 2; write_r16 reg_pc (u16 (pc + 2 + sign_extend offset)))
      else (do tick_internal 1; next ← add_u16 pc 2; write_r16 reg_pc next)

unfoldable pub jp_nn : Exec (Unit {0})
jp_nn = do target_address ← immediate_word; tick_internal 2; write_r16 reg_pc target_address

unfoldable pub jp_f_nn : Cflag → Bool → Exec (Unit {0})
jp_f_nn cflag z = do
  pc ← read_r16 reg_pc
  target_address ← immediate_word
  met ← condition cflag z
  if met
      then (do tick_internal 2; write_r16 reg_pc target_address)
      else (do tick_internal 1; next ← add_u16 pc 3; write_r16 reg_pc next)

unfoldable pub jp_hl : Exec (Unit {0})
jp_hl = do tick_internal 1; value ← read_r16 reg_hl; write_r16 reg_pc value

-- What CALL and RST do with the address to return to.
unfoldable pub push_and_jump : ℕ → ℕ → Exec (Unit {0})
push_and_jump return_address target = do
  tick_internal 1
  sp ← read_r16 reg_sp
  write_r16 reg_sp (wrapping_sub_16 sp 2)
  write_word_tick (wrapping_sub_16 sp 2) return_address
  tick_internal 1
  write_r16 reg_pc target

unfoldable pub call_nn : Exec (Unit {0})
call_nn = do
  pc ← read_r16 reg_pc
  target_address ← immediate_word
  push_and_jump (u16 (pc + 3)) target_address

unfoldable pub call_f_nn : Cflag → Bool → Exec (Unit {0})
call_f_nn cflag z = do
  met ← condition cflag z
  pc ← read_r16 reg_pc
  if met
      then (do
        operand ← add_u16 pc 1
        target_address ← peek_16 operand
        return_address ← add_u16 pc 3
        sp ← read_r16 reg_sp
        top ← sub_u16 sp 2
        write_r16 reg_sp top
        poke_16 top return_address
        write_r16 reg_pc target_address
        tick_internal 6)
      else (do next ← add_u16 pc 3; write_r16 reg_pc next; tick_internal 3)

unfoldable pub rst : ℕ → Exec (Unit {0})
rst value = do pc ← read_r16 reg_pc; push_and_jump (u16 (pc + 1)) value

unfoldable pub ret : Exec (Unit {0})
ret = do
  sp ← read_r16 reg_sp
  value ← read_word_tick sp
  write_r16 reg_sp (u16 (sp + 2))
  tick_internal 2
  write_r16 reg_pc value

unfoldable pub ret_f : Cflag → Bool → Exec (Unit {0})
ret_f cflag z = do
  tick_internal 1
  met ← condition cflag z
  if met
      then (do
        sp ← read_r16 reg_sp
        value ← read_word_tick sp
        write_r16 reg_sp (u16 (sp + 2))
        tick_internal 1
        write_r16 reg_pc value
        tick_internal 1)
      else (do pc ← read_r16 reg_pc; next ← add_u16 pc 1; write_r16 reg_pc next; tick_internal 1)

unfoldable pub reti : Exec (Unit {0})
reti = do
  sp ← read_r16 reg_sp
  value ← read_word_tick sp
  write_r16 reg_sp (u16 (sp + 2))
  tick_internal 1
  write_r16 reg_pc value
  write_ime 1
  tick_internal 1
