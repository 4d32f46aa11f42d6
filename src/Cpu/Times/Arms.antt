-- ===== src/Cpu/Times/Arms.antt =====
-- The arms of `execute`: what each ticks.
use rust_gb_emulator.Base.{◌+◌, Bool, true, ◌&&◌, u16, ◌≡◌, arith}
use rust_gb_emulator.Cpu.Registers.{reg_a, reg_hl, reg_pc}
use rust_gb_emulator.Cpu.Takes.{Takes, Any, bind_Takes, then_Takes}
use rust_gb_emulator.Cpu.Accesses.{
  read_r8-Takes, read_r16-Takes, write_r8-Takes, write_r16-Takes, add_u16-Takes, tick_1,
  read_byte_tick-Takes, write_byte_tick-Takes, immediate_word-Takes,
}
use rust_gb_emulator.Base.Tests.{ltb→lt}
use rust_gb_emulator.Cpu.Loads.{wrapping_sub_16}
use rust_gb_emulator.Cpu.Decode.{Arm}
use rust_gb_emulator.Cpu.Execute.{
  ld_hl_inc_a, ld_a_hl_inc, ld_hl_dec_a, ld_a_hl_dec, ld_a_nn, unknown, run_arm,
}
use rust_gb_emulator.Cpu.Times.Loads
use rust_gb_emulator.Cpu.Times.Alu
use rust_gb_emulator.Cpu.Times.Rotates
use rust_gb_emulator.Cpu.Times.Flow
use rust_gb_emulator.Cpu.Times.Cb
use rust_gb_emulator.Cpu.Times.Loads.{ld_ticks}
use rust_gb_emulator.Cpu.Times.Alu.{alu_ticks}
use rust_gb_emulator.Cpu.Times.Bounds.{is_arm, arm_least, arm_most}

ld_hl_inc_a-Takes : Takes Any 2 2 ld_hl_inc_a
unfolding ld_hl_inc_a
ld_hl_inc_a-Takes = bind_Takes (read_r16-Takes reg_hl) λ addr h.
    bind_Takes (read_r8-Takes reg_a) λ value k.
      then_Takes (write_byte_tick-Takes addr value k)
        (then_Takes tick_1 (write_r16-Takes reg_hl (u16 (addr + 1)) (omega arith)))

ld_a_hl_inc-Takes : Takes Any 2 2 ld_a_hl_inc
unfolding ld_a_hl_inc
ld_a_hl_inc-Takes = bind_Takes (read_r16-Takes reg_hl) λ addr h.
    bind_Takes (read_byte_tick-Takes addr) λ value k. then_Takes tick_1 (
      then_Takes (write_r8-Takes reg_a value k)
        (write_r16-Takes reg_hl (u16 (addr + 1)) (omega arith)))

ld_hl_dec_a-Takes : Takes Any 2 2 ld_hl_dec_a
unfolding ld_hl_dec_a
ld_hl_dec_a-Takes = bind_Takes (read_r16-Takes reg_hl) λ addr h.
    bind_Takes (read_r8-Takes reg_a) λ value k.
      then_Takes (write_byte_tick-Takes addr value k)
        (then_Takes tick_1 (write_r16-Takes reg_hl (wrapping_sub_16 addr 1) (omega arith)))

ld_a_hl_dec-Takes : Takes Any 2 2 ld_a_hl_dec
unfolding ld_a_hl_dec
ld_a_hl_dec-Takes = bind_Takes (read_r16-Takes reg_hl) λ addr h.
    bind_Takes (read_byte_tick-Takes addr) λ value k. then_Takes tick_1 (
      then_Takes (write_r8-Takes reg_a value k)
        (write_r16-Takes reg_hl (wrapping_sub_16 addr 1) (omega arith)))

ld_a_nn-Takes : Takes Any 4 4 ld_a_nn
unfolding ld_a_nn
ld_a_nn-Takes = bind_Takes immediate_word-Takes λ addr h.
    bind_Takes (read_byte_tick-Takes addr)
      λ value k. then_Takes tick_1 (write_r8-Takes reg_a value k)

unknown-Takes : Takes Any 0 0 unknown
unfolding unknown
unknown-Takes =
    bind_Takes (read_r16-Takes reg_pc)
      λ pc h. bind_Takes (add_u16-Takes pc 1) λ next k. write_r16-Takes reg_pc next k

and_left : (x y : Bool) → (x && y) ≡ true → x ≡ true
and_left x y h = ground arith

and_right : (x y : Bool) → (x && y) ≡ true → y ≡ true
and_right x y h = ground arith

pub run_arm-Takes :
    (arm : Arm) → is_arm arm ≡ true → Takes Any (arm_least arm) (arm_most arm) (run_arm arm)
unfolding run_arm is_arm arm_least arm_most
run_arm-Takes Arm.nop h = Flow.nop-Takes
run_arm-Takes (Arm.ld_r16_nn reg) h = Loads.ld_r16_nn-Takes reg
run_arm-Takes (Arm.ld_operand dest source) h =
    Loads.ld_operand-Takes dest source (and_left _ _ h) (and_right _ _ h)
run_arm-Takes (Arm.inc_r16 reg) h = Loads.inc_r16-Takes reg
run_arm-Takes (Arm.inc_r8 reg) h = Loads.inc_r8-Takes reg
run_arm-Takes (Arm.dec_r8 reg) h = Loads.dec_r8-Takes reg
run_arm-Takes (Arm.ld_r8_n reg) h = Loads.ld_r8_n-Takes reg
run_arm-Takes Arm.rlca h = Rotates.rlca-Takes
run_arm-Takes Arm.ld_nn_sp h = Loads.ld_nn_sp-Takes
run_arm-Takes (Arm.add_hl reg) h = Rotates.add_hl-Takes reg
run_arm-Takes (Arm.dec_r16 reg) h = Loads.dec_r16-Takes reg
run_arm-Takes Arm.rrca h = Rotates.rrca-Takes
run_arm-Takes Arm.stop h = Flow.stop-Takes
run_arm-Takes Arm.rla h = Rotates.rla-Takes
run_arm-Takes Arm.jr_e h = Flow.jr_e-Takes
run_arm-Takes Arm.rra h = Rotates.rra-Takes
run_arm-Takes (Arm.jr_f_e cflag z) h = Flow.jr_f_e-Takes cflag z h
run_arm-Takes Arm.daa h = Rotates.daa-Takes
run_arm-Takes Arm.cpl h = Rotates.cpl-Takes
run_arm-Takes (Arm.inc_mem reg) h = Loads.inc_mem-Takes reg
run_arm-Takes (Arm.dec_mem reg) h = Loads.dec_mem-Takes reg
run_arm-Takes Arm.ld_m_n h = Loads.ld_m_n-Takes
run_arm-Takes Arm.scf h = Rotates.scf-Takes
run_arm-Takes Arm.ccf h = Rotates.ccf-Takes
run_arm-Takes (Arm.ret_f cflag z) h = Flow.ret_f-Takes cflag z h
run_arm-Takes (Arm.pop reg) h = Loads.pop-Takes reg
run_arm-Takes (Arm.jp_f_nn cflag z) h = Flow.jp_f_nn-Takes cflag z h
run_arm-Takes Arm.jp_nn h = Flow.jp_nn-Takes
run_arm-Takes (Arm.call_f_nn cflag z) h = Flow.call_f_nn-Takes cflag z h
run_arm-Takes (Arm.push reg) h = Loads.push-Takes reg
run_arm-Takes Arm.add_a_n h = Alu.add_a_n-Takes
run_arm-Takes (Arm.rst value) h = Flow.rst-Takes value (ltb→lt value 65536 h)
run_arm-Takes Arm.ret h = Flow.ret-Takes
run_arm-Takes Arm.call_cb h = Cb.call_cb-Takes
run_arm-Takes Arm.call_nn h = Flow.call_nn-Takes
run_arm-Takes Arm.adc_a_n h = Alu.adc_a_n-Takes
run_arm-Takes Arm.sub_a_n h = Alu.sub_a_n-Takes
run_arm-Takes Arm.reti h = Flow.reti-Takes
run_arm-Takes Arm.sbc_a_n h = Alu.sbc_a_n-Takes
run_arm-Takes Arm.ldh_n_a h = Loads.ldh_n_a-Takes
run_arm-Takes Arm.ldh_c_a h = Loads.ldh_c_a-Takes
run_arm-Takes Arm.and_a_n h = Alu.and_a_n-Takes
run_arm-Takes Arm.add_sp_e h = Rotates.add_sp_e-Takes
run_arm-Takes Arm.jp_hl h = Flow.jp_hl-Takes
run_arm-Takes Arm.ld_nn_a h = Loads.ld_nn_a-Takes
run_arm-Takes Arm.xor_a_n h = Alu.xor_a_n-Takes
run_arm-Takes Arm.ldh_a_n h = Loads.ldh_a_n-Takes
run_arm-Takes Arm.ldh_a_c h = Loads.ldh_a_c-Takes
run_arm-Takes Arm.di h = Flow.di-Takes
run_arm-Takes Arm.or_a_n h = Alu.or_a_n-Takes
run_arm-Takes Arm.ld_sp_e h = Loads.ld_sp_e-Takes
run_arm-Takes Arm.ld_sp_hl h = Loads.ld_sp_hl-Takes
run_arm-Takes Arm.ei h = Flow.ei-Takes
run_arm-Takes Arm.cp_a_n h = Alu.cp_a_n-Takes
run_arm-Takes Arm.ld_hl_inc_a h = ld_hl_inc_a-Takes
run_arm-Takes Arm.ld_a_hl_inc h = ld_a_hl_inc-Takes
run_arm-Takes Arm.ld_hl_dec_a h = ld_hl_dec_a-Takes
run_arm-Takes Arm.ld_a_hl_dec h = ld_a_hl_dec-Takes
run_arm-Takes Arm.ld_a_nn h = ld_a_nn-Takes
run_arm-Takes (Arm.add_a_r op) h = Alu.add_a_r-Takes op h
run_arm-Takes (Arm.adc_a_r op) h = Alu.adc_a_r-Takes op h
run_arm-Takes (Arm.sub_a_r op) h = Alu.sub_a_r-Takes op h
run_arm-Takes (Arm.sbc_a_r op) h = Alu.sbc_a_r-Takes op h
run_arm-Takes (Arm.and_a_r op) h = Alu.and_a_r-Takes op h
run_arm-Takes (Arm.xor_a_r op) h = Alu.xor_a_r-Takes op h
run_arm-Takes (Arm.or_a_r op) h = Alu.or_a_r-Takes op h
run_arm-Takes (Arm.cp_a_r op) h = Alu.cp_a_r-Takes op h
run_arm-Takes Arm.halt h = Flow.halt-Takes
run_arm-Takes Arm.unknown h = unknown-Takes
