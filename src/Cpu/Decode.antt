-- ===== src/Cpu/Decode.antt =====
-- src/cpu.rs: the arms of the `match` in `execute`, and which opcode has which.
use rust_gb_emulator.Base.{
  ℕ, zero, suc, ◌-◌, Bool, true, false, bit_and, ◌>>>◌, ltb, if◌then◌else◌, ◌==◌, List, [], ◌∷◌,
  Outcome, ok, ◌>>=◌,
}
use rust_gb_emulator.Cpu.Registers.{
  Reg8, Reg16, Operand, from_index, reg8, mem_bc, mem_de, reg_a, reg_b, reg_c, reg_d, reg_e, reg_h,
  reg_l, reg_af, reg_bc, reg_de, reg_hl, reg_sp,
}
use rust_gb_emulator.Cpu.Flow.{Cflag, cflag_c, cflag_z}

-- One constructor for each method that an arm calls, and one for each arm that is a block.
pub data Arm : Type 0 where
  nop rlca ld_nn_sp rrca stop rla jr_e rra daa cpl ld_m_n scf ccf jp_nn add_a_n ret call_cb call_nn
        adc_a_n sub_a_n reti sbc_a_n ldh_n_a ldh_c_a and_a_n add_sp_e jp_hl ld_nn_a xor_a_n ldh_a_n
        ldh_a_c di or_a_n ld_sp_e ld_sp_hl ei cp_a_n ld_hl_inc_a ld_a_hl_inc ld_hl_dec_a ld_a_hl_dec
        ld_a_nn halt unknown :
      Arm
  ld_r16_nn inc_r16 add_hl dec_r16 inc_mem dec_mem pop push : Reg16 → Arm
  ld_operand : Operand → Operand → Arm
  inc_r8 dec_r8 ld_r8_n : Reg8 → Arm
  jr_f_e ret_f jp_f_nn call_f_nn : Cflag → Bool → Arm
  rst : ℕ → Arm
  add_a_r adc_a_r sub_a_r sbc_a_r and_a_r xor_a_r or_a_r cp_a_r : Operand → Arm

-- 0x00 to 0x3F.
abbrev pub first_arms : List Arm
first_arms =
    Arm.nop
    ∷ Arm.ld_r16_nn reg_bc
    ∷ Arm.ld_operand mem_bc (reg8 reg_a)
    ∷ Arm.inc_r16 reg_bc
    ∷ Arm.inc_r8 reg_b
    ∷ Arm.dec_r8 reg_b
    ∷ Arm.ld_r8_n reg_b
    ∷ Arm.rlca
    ∷ Arm.ld_nn_sp
    ∷ Arm.add_hl reg_bc
    ∷ Arm.ld_operand (reg8 reg_a) mem_bc
    ∷ Arm.dec_r16 reg_bc
    ∷ Arm.inc_r8 reg_c
    ∷ Arm.dec_r8 reg_c
    ∷ Arm.ld_r8_n reg_c
    ∷ Arm.rrca
    ∷ Arm.stop
    ∷ Arm.ld_r16_nn reg_de
    ∷ Arm.ld_operand mem_de (reg8 reg_a)
    ∷ Arm.inc_r16 reg_de
    ∷ Arm.inc_r8 reg_d
    ∷ Arm.dec_r8 reg_d
    ∷ Arm.ld_r8_n reg_d
    ∷ Arm.rla
    ∷ Arm.jr_e
    ∷ Arm.add_hl reg_de
    ∷ Arm.ld_operand (reg8 reg_a) mem_de
    ∷ Arm.dec_r16 reg_de
    ∷ Arm.inc_r8 reg_e
    ∷ Arm.dec_r8 reg_e
    ∷ Arm.ld_r8_n reg_e
    ∷ Arm.rra
    ∷ Arm.jr_f_e cflag_z false
    ∷ Arm.ld_r16_nn reg_hl
    ∷ Arm.ld_hl_inc_a
    ∷ Arm.inc_r16 reg_hl
    ∷ Arm.inc_r8 reg_h
    ∷ Arm.dec_r8 reg_h
    ∷ Arm.ld_r8_n reg_h
    ∷ Arm.daa
    ∷ Arm.jr_f_e cflag_z true
    ∷ Arm.add_hl reg_hl
    ∷ Arm.ld_a_hl_inc
    ∷ Arm.dec_r16 reg_hl
    ∷ Arm.inc_r8 reg_l
    ∷ Arm.dec_r8 reg_l
    ∷ Arm.ld_r8_n reg_l
    ∷ Arm.cpl
    ∷ Arm.jr_f_e cflag_c false
    ∷ Arm.ld_r16_nn reg_sp
    ∷ Arm.ld_hl_dec_a
    ∷ Arm.inc_r16 reg_sp
    ∷ Arm.inc_mem reg_hl
    ∷ Arm.dec_mem reg_hl
    ∷ Arm.ld_m_n
    ∷ Arm.scf
    ∷ Arm.jr_f_e cflag_c true
    ∷ Arm.add_hl reg_sp
    ∷ Arm.ld_a_hl_dec
    ∷ Arm.dec_r16 reg_sp
    ∷ Arm.inc_r8 reg_a
    ∷ Arm.dec_r8 reg_a
    ∷ Arm.ld_r8_n reg_a
    ∷ Arm.ccf
    ∷ []

-- 0xC0 to 0xFF.
abbrev pub last_arms : List Arm
last_arms =
    Arm.ret_f cflag_z false
    ∷ Arm.pop reg_bc
    ∷ Arm.jp_f_nn cflag_z false
    ∷ Arm.jp_nn
    ∷ Arm.call_f_nn cflag_z false
    ∷ Arm.push reg_bc
    ∷ Arm.add_a_n
    ∷ Arm.rst 0x00
    ∷ Arm.ret_f cflag_z true
    ∷ Arm.ret
    ∷ Arm.jp_f_nn cflag_z true
    ∷ Arm.call_cb
    ∷ Arm.call_f_nn cflag_z true
    ∷ Arm.call_nn
    ∷ Arm.adc_a_n
    ∷ Arm.rst 0x08
    ∷ Arm.ret_f cflag_c false
    ∷ Arm.pop reg_de
    ∷ Arm.jp_f_nn cflag_c false
    ∷ Arm.unknown
    ∷ Arm.call_f_nn cflag_c false
    ∷ Arm.push reg_de
    ∷ Arm.sub_a_n
    ∷ Arm.rst 0x10
    ∷ Arm.ret_f cflag_c true
    ∷ Arm.reti
    ∷ Arm.jp_f_nn cflag_c true
    ∷ Arm.unknown
    ∷ Arm.call_f_nn cflag_c true
    ∷ Arm.unknown
    ∷ Arm.sbc_a_n
    ∷ Arm.rst 0x18
    ∷ Arm.ldh_n_a
    ∷ Arm.pop reg_hl
    ∷ Arm.ldh_c_a
    ∷ Arm.unknown
    ∷ Arm.unknown
    ∷ Arm.push reg_hl
    ∷ Arm.and_a_n
    ∷ Arm.rst 0x20
    ∷ Arm.add_sp_e
    ∷ Arm.jp_hl
    ∷ Arm.ld_nn_a
    ∷ Arm.unknown
    ∷ Arm.unknown
    ∷ Arm.unknown
    ∷ Arm.xor_a_n
    ∷ Arm.rst 0x28
    ∷ Arm.ldh_a_n
    ∷ Arm.pop reg_af
    ∷ Arm.ldh_a_c
    ∷ Arm.di
    ∷ Arm.unknown
    ∷ Arm.push reg_af
    ∷ Arm.or_a_n
    ∷ Arm.rst 0x30
    ∷ Arm.ld_sp_e
    ∷ Arm.ld_sp_hl
    ∷ Arm.ld_a_nn
    ∷ Arm.ei
    ∷ Arm.unknown
    ∷ Arm.unknown
    ∷ Arm.cp_a_n
    ∷ Arm.rst 0x38
    ∷ []

abbrev pub arm_at : List Arm → ℕ → Arm
arm_at [] i = Arm.unknown
arm_at (arm ∷ rest) zero = arm
arm_at (arm ∷ rest) (suc i) = arm_at rest i

-- The eight rows of the arithmetic on A, by the opcode's bits 3 to 5.
unfoldable pub alu_arm : ℕ → Operand → Arm
alu_arm opcode op =
    if ltb opcode 0x88
    then Arm.add_a_r op
    else if ltb opcode 0x90
    then Arm.adc_a_r op
    else if ltb opcode 0x98
    then Arm.sub_a_r op
    else if ltb opcode 0xA0
    then Arm.sbc_a_r op
    else if ltb opcode 0xA8
    then Arm.and_a_r op
    else if ltb opcode 0xB0
    then Arm.xor_a_r op
    else if ltb opcode 0xB8
    then Arm.or_a_r op
    else Arm.cp_a_r op

-- The arm that the `match` takes. `from_index` panics on no three bits.
unfoldable pub decode : ℕ → Outcome Arm
decode opcode =
    if ltb opcode 0x40
    then ok (arm_at first_arms opcode)
    else if opcode == 0x76
    then ok Arm.halt
    else if ltb opcode 0x80
    then (do
      dest ← from_index (bit_and (opcode >>> 3) 0x07)
      src ← from_index (bit_and opcode 0x07)
      ok (Arm.ld_operand dest src))
    else if ltb opcode 0xC0
    then (do op ← from_index (bit_and opcode 0x07); ok (alu_arm opcode op))
    else ok (arm_at last_arms (opcode - 0xC0))
