-- ===== src/Cpu/Execute.antt =====
-- src/cpu.rs: `execute`, the fetch and decode of one instruction.
use rust_gb_emulator.Base.{ℕ, ◌+◌, u16, ok, panic}
use rust_gb_emulator.Cpu.Registers.{reg_a, reg_hl, reg_pc}
use rust_gb_emulator.Cpu.Machine.{
  Exec, ◌>>=◌, ◌>>◌, panics, read_r8, read_r16, write_r8, write_r16, add_u16, tick_internal,
  read_byte_tick, write_byte_tick,
}
use rust_gb_emulator.Cpu.Loads
use rust_gb_emulator.Cpu.Alu
use rust_gb_emulator.Cpu.Rotates
use rust_gb_emulator.Cpu.Flow
use rust_gb_emulator.Cpu.Cb
use rust_gb_emulator.Cpu.Loads.{wrapping_sub_16, immediate_word}
use rust_gb_emulator.Cpu.Decode.{Arm, decode}

-- LD (HL+),A; LD A,(HL+); LD (HL-),A; LD A,(HL-); LD A,(nn).
unfoldable pub ld_hl_inc_a : Exec (Unit {0})
ld_hl_inc_a = do
  addr ← read_r16 reg_hl
  value ← read_r8 reg_a
  write_byte_tick addr value
  tick_internal 1
  write_r16 reg_hl (u16 (addr + 1))

unfoldable pub ld_a_hl_inc : Exec (Unit {0})
ld_a_hl_inc = do
  addr ← read_r16 reg_hl
  value ← read_byte_tick addr
  tick_internal 1
  write_r8 reg_a value
  write_r16 reg_hl (u16 (addr + 1))

unfoldable pub ld_hl_dec_a : Exec (Unit {0})
ld_hl_dec_a = do
  addr ← read_r16 reg_hl
  value ← read_r8 reg_a
  write_byte_tick addr value
  tick_internal 1
  write_r16 reg_hl (wrapping_sub_16 addr 1)

unfoldable pub ld_a_hl_dec : Exec (Unit {0})
ld_a_hl_dec = do
  addr ← read_r16 reg_hl
  value ← read_byte_tick addr
  tick_internal 1
  write_r8 reg_a value
  write_r16 reg_hl (wrapping_sub_16 addr 1)

unfoldable pub ld_a_nn : Exec (Unit {0})
ld_a_nn = do
  addr ← immediate_word
  value ← read_byte_tick addr
  tick_internal 1
  write_r8 reg_a value

-- Any other opcode prints a line, and moves PC on by one.
unfoldable pub unknown : Exec (Unit {0})
unknown = do pc ← read_r16 reg_pc; next ← add_u16 pc 1; write_r16 reg_pc next

unfoldable pub run_arm : Arm → Exec (Unit {0})
run_arm Arm.nop = Flow.nop
run_arm (Arm.ld_r16_nn reg) = Loads.ld_r16_nn reg
run_arm (Arm.ld_operand dest source) = Loads.ld_operand dest source
run_arm (Arm.inc_r16 reg) = Loads.inc_r16 reg
run_arm (Arm.inc_r8 reg) = Loads.inc_r8 reg
run_arm (Arm.dec_r8 reg) = Loads.dec_r8 reg
run_arm (Arm.ld_r8_n reg) = Loads.ld_r8_n reg
run_arm Arm.rlca = Rotates.rlca
run_arm Arm.ld_nn_sp = Loads.ld_nn_sp
run_arm (Arm.add_hl reg) = Rotates.add_hl reg
run_arm (Arm.dec_r16 reg) = Loads.dec_r16 reg
run_arm Arm.rrca = Rotates.rrca
run_arm Arm.stop = Flow.stop
run_arm Arm.rla = Rotates.rla
run_arm Arm.jr_e = Flow.jr_e
run_arm Arm.rra = Rotates.rra
run_arm (Arm.jr_f_e cflag z) = Flow.jr_f_e cflag z
run_arm Arm.daa = Rotates.daa
run_arm Arm.cpl = Rotates.cpl
run_arm (Arm.inc_mem reg) = Loads.inc_mem reg
run_arm (Arm.dec_mem reg) = Loads.dec_mem reg
run_arm Arm.ld_m_n = Loads.ld_m_n
run_arm Arm.scf = Rotates.scf
run_arm Arm.ccf = Rotates.ccf
run_arm (Arm.ret_f cflag z) = Flow.ret_f cflag z
run_arm (Arm.pop reg) = Loads.pop reg
run_arm (Arm.jp_f_nn cflag z) = Flow.jp_f_nn cflag z
run_arm Arm.jp_nn = Flow.jp_nn
run_arm (Arm.call_f_nn cflag z) = Flow.call_f_nn cflag z
run_arm (Arm.push reg) = Loads.push reg
run_arm Arm.add_a_n = Alu.add_a_n
run_arm (Arm.rst value) = Flow.rst value
run_arm Arm.ret = Flow.ret
run_arm Arm.call_cb = Cb.call_cb
run_arm Arm.call_nn = Flow.call_nn
run_arm Arm.adc_a_n = Alu.adc_a_n
run_arm Arm.sub_a_n = Alu.sub_a_n
run_arm Arm.reti = Flow.reti
run_arm Arm.sbc_a_n = Alu.sbc_a_n
run_arm Arm.ldh_n_a = Loads.ldh_n_a
run_arm Arm.ldh_c_a = Loads.ldh_c_a
run_arm Arm.and_a_n = Alu.and_a_n
run_arm Arm.add_sp_e = Rotates.add_sp_e
run_arm Arm.jp_hl = Flow.jp_hl
run_arm Arm.ld_nn_a = Loads.ld_nn_a
run_arm Arm.xor_a_n = Alu.xor_a_n
run_arm Arm.ldh_a_n = Loads.ldh_a_n
run_arm Arm.ldh_a_c = Loads.ldh_a_c
run_arm Arm.di = Flow.di
run_arm Arm.or_a_n = Alu.or_a_n
run_arm Arm.ld_sp_e = Loads.ld_sp_e
run_arm Arm.ld_sp_hl = Loads.ld_sp_hl
run_arm Arm.ei = Flow.ei
run_arm Arm.cp_a_n = Alu.cp_a_n
run_arm Arm.ld_hl_inc_a = ld_hl_inc_a
run_arm Arm.ld_a_hl_inc = ld_a_hl_inc
run_arm Arm.ld_hl_dec_a = ld_hl_dec_a
run_arm Arm.ld_a_hl_dec = ld_a_hl_dec
run_arm Arm.ld_a_nn = ld_a_nn
run_arm (Arm.add_a_r op) = Alu.add_a_r op
run_arm (Arm.adc_a_r op) = Alu.adc_a_r op
run_arm (Arm.sub_a_r op) = Alu.sub_a_r op
run_arm (Arm.sbc_a_r op) = Alu.sbc_a_r op
run_arm (Arm.and_a_r op) = Alu.and_a_r op
run_arm (Arm.xor_a_r op) = Alu.xor_a_r op
run_arm (Arm.or_a_r op) = Alu.or_a_r op
run_arm (Arm.cp_a_r op) = Alu.cp_a_r op
run_arm Arm.halt = Flow.halt
run_arm Arm.unknown = unknown

unfoldable pub execute : ℕ → Exec (Unit {0})
execute opcode = elim (decode opcode) [ ok arm ↦ run_arm arm | panic ↦ panics ]
