-- ===== src/Cpu/Times/Bounds.antt =====
-- How many M-cycles each arm of `execute` counts.
use rust_gb_emulator.Base.{ℕ, Bool, true, ltb, ◌&&◌}
use rust_gb_emulator.Cpu.Accesses.{is_operand}
use rust_gb_emulator.Cpu.Decode.{Arm}
use rust_gb_emulator.Cpu.Times.Loads.{ld_ticks}
use rust_gb_emulator.Cpu.Times.Alu.{alu_ticks}
use rust_gb_emulator.Cpu.Times.Conditions.{is_flag}

-- The arguments that the opcodes give.
unfoldable pub is_arm : Arm → Bool
is_arm (Arm.ld_operand dest source) = is_operand dest && is_operand source
is_arm (Arm.jr_f_e cflag z) = is_flag cflag
is_arm (Arm.ret_f cflag z) = is_flag cflag
is_arm (Arm.jp_f_nn cflag z) = is_flag cflag
is_arm (Arm.call_f_nn cflag z) = is_flag cflag
is_arm (Arm.rst value) = ltb value 65536
is_arm (Arm.add_a_r op) = is_operand op
is_arm (Arm.adc_a_r op) = is_operand op
is_arm (Arm.sub_a_r op) = is_operand op
is_arm (Arm.sbc_a_r op) = is_operand op
is_arm (Arm.and_a_r op) = is_operand op
is_arm (Arm.xor_a_r op) = is_operand op
is_arm (Arm.or_a_r op) = is_operand op
is_arm (Arm.cp_a_r op) = is_operand op
is_arm _ = true

-- The fewest and the most M-cycles that an arm counts.
unfoldable pub arm_least : Arm → ℕ
arm_least Arm.nop = 1
arm_least (Arm.ld_r16_nn reg) = 3
arm_least (Arm.ld_operand dest source) = (ld_ticks dest source)
arm_least (Arm.inc_r16 reg) = 2
arm_least (Arm.inc_r8 reg) = 1
arm_least (Arm.dec_r8 reg) = 1
arm_least (Arm.ld_r8_n reg) = 2
arm_least Arm.rlca = 1
arm_least Arm.ld_nn_sp = 5
arm_least (Arm.add_hl reg) = 2
arm_least (Arm.dec_r16 reg) = 2
arm_least Arm.rrca = 1
arm_least Arm.stop = 1
arm_least Arm.rla = 1
arm_least Arm.jr_e = 3
arm_least Arm.rra = 1
arm_least (Arm.jr_f_e cflag z) = 2
arm_least Arm.daa = 1
arm_least Arm.cpl = 1
arm_least (Arm.inc_mem reg) = 3
arm_least (Arm.dec_mem reg) = 3
arm_least Arm.ld_m_n = 3
arm_least Arm.scf = 1
arm_least Arm.ccf = 1
arm_least (Arm.ret_f cflag z) = 2
arm_least (Arm.pop reg) = 3
arm_least (Arm.jp_f_nn cflag z) = 3
arm_least Arm.jp_nn = 4
arm_least (Arm.call_f_nn cflag z) = 3
arm_least (Arm.push reg) = 4
arm_least Arm.add_a_n = 2
arm_least (Arm.rst value) = 4
arm_least Arm.ret = 4
arm_least Arm.call_cb = 2
arm_least Arm.call_nn = 6
arm_least Arm.adc_a_n = 2
arm_least Arm.sub_a_n = 2
arm_least Arm.reti = 4
arm_least Arm.sbc_a_n = 2
arm_least Arm.ldh_n_a = 3
arm_least Arm.ldh_c_a = 2
arm_least Arm.and_a_n = 2
arm_least Arm.add_sp_e = 4
arm_least Arm.jp_hl = 1
arm_least Arm.ld_nn_a = 4
arm_least Arm.xor_a_n = 2
arm_least Arm.ldh_a_n = 3
arm_least Arm.ldh_a_c = 2
arm_least Arm.di = 1
arm_least Arm.or_a_n = 2
arm_least Arm.ld_sp_e = 3
arm_least Arm.ld_sp_hl = 2
arm_least Arm.ei = 1
arm_least Arm.cp_a_n = 2
arm_least Arm.ld_hl_inc_a = 2
arm_least Arm.ld_a_hl_inc = 2
arm_least Arm.ld_hl_dec_a = 2
arm_least Arm.ld_a_hl_dec = 2
arm_least Arm.ld_a_nn = 4
arm_least (Arm.add_a_r op) = (alu_ticks op)
arm_least (Arm.adc_a_r op) = (alu_ticks op)
arm_least (Arm.sub_a_r op) = (alu_ticks op)
arm_least (Arm.sbc_a_r op) = (alu_ticks op)
arm_least (Arm.and_a_r op) = (alu_ticks op)
arm_least (Arm.xor_a_r op) = (alu_ticks op)
arm_least (Arm.or_a_r op) = (alu_ticks op)
arm_least (Arm.cp_a_r op) = (alu_ticks op)
arm_least Arm.halt = 1
arm_least Arm.unknown = 0

unfoldable pub arm_most : Arm → ℕ
arm_most (Arm.jr_f_e cflag z) = 3
arm_most (Arm.ret_f cflag z) = 5
arm_most (Arm.jp_f_nn cflag z) = 4
arm_most (Arm.call_f_nn cflag z) = 6
arm_most Arm.call_cb = 4
arm_most arm = arm_least arm
