-- ===== src/Cpu/Times/Loads.antt =====
-- The loads, the stack and the counts: what they tick.
use rust_gb_emulator.Base.{ℕ, ◌+◌, ◌<◌, Bool, true, false, u8, u16, ◌≡◌, refl, arith}
use rust_gb_emulator.Cpu.Registers.{
  Reg8, Reg16, Operand, reg8, reg16, mem_hl, mem_bc, mem_de, reg_a, reg_c, reg_f, reg_hl, reg_bc,
  reg_de, reg_sp,
}
use rust_gb_emulator.Cpu.Takes.{Takes, Any, IsByte, bind_Takes, then_Takes}
use rust_gb_emulator.Cpu.Accesses.{
  read_r8-Takes, read_r16-Takes, write_r8-Takes, write_f-Takes, write_r16-Takes, tick_1, tick_2,
  read_byte_tick-Takes, write_byte_tick-Takes, read_word_tick-Takes, write_word_tick-Takes,
  is_operand, read_operand-Takes, write_operand-Takes, immediate_byte-Takes, immediate_word-Takes,
}
use rust_gb_emulator.Cpu.Loads.{
  in_memory, operand_address, ld_source, ld_dest, ld_r16_nn, ld_r8_n, ld_operand, ld_nn_a, ld_m_n,
  ld_sp_e, ld_sp_hl, ld_nn_sp, ldh_n_a, ldh_a_n, ldh_c_a, ldh_a_c, pop, push, inc_r8, dec_r8,
  inc_r16, dec_r16, inc_mem, dec_mem, offset_flags, inc_flags, dec_flags, sign_extend,
  wrapping_sub_8, wrapping_sub_16,
}

pub ld_r16_nn-Takes : (reg : Reg16) → Takes Any 3 3 (ld_r16_nn reg)
unfolding ld_r16_nn
ld_r16_nn-Takes reg =
    bind_Takes immediate_word-Takes λ value h. then_Takes tick_1 (write_r16-Takes reg value h)

pub ld_r8_n-Takes : (reg : Reg8) → Takes Any 2 2 (ld_r8_n reg)
unfolding ld_r8_n
ld_r8_n-Takes reg =
    bind_Takes immediate_byte-Takes λ value h. then_Takes tick_1 (write_r8-Takes reg value h)

ld_source-Takes :
    (source : Operand) → is_operand source ≡ true → Takes IsByte 1 1 (ld_source source)
unfolding ld_source operand_address is_operand
ld_source-Takes (reg8 x) h = then_Takes tick_1 (read_operand-Takes (reg8 x) refl)
ld_source-Takes mem_hl h =
    bind_Takes (read_r16-Takes reg_hl) λ address k. read_byte_tick-Takes address
ld_source-Takes mem_bc h =
    bind_Takes (read_r16-Takes reg_bc) λ address k. read_byte_tick-Takes address
ld_source-Takes mem_de h =
    bind_Takes (read_r16-Takes reg_de) λ address k. read_byte_tick-Takes address
ld_source-Takes (reg16 x) h = cc

-- A register that takes a byte from memory waits for one more cycle.
abbrev pub ld_dest_ticks : Operand → Bool → ℕ
ld_dest_ticks (reg8 x) true = 1
ld_dest_ticks (reg8 x) false = 0
ld_dest_ticks _ from_memory = 1

ld_dest-Takes :
    (dest : Operand) (from_memory : Bool) (value : ℕ)
    → is_operand dest ≡ true
    → value < 256
    → Takes Any
        (ld_dest_ticks dest from_memory)
        (ld_dest_ticks dest from_memory)
        (ld_dest dest from_memory value)
unfolding ld_dest operand_address is_operand
ld_dest-Takes (reg8 x) true value h k =
    then_Takes tick_1 (write_operand-Takes (reg8 x) value refl k)
ld_dest-Takes (reg8 x) false value h k = write_operand-Takes (reg8 x) value refl k
ld_dest-Takes mem_hl from_memory value h k =
    bind_Takes (read_r16-Takes reg_hl) λ address l. write_byte_tick-Takes address value k
ld_dest-Takes mem_bc from_memory value h k =
    bind_Takes (read_r16-Takes reg_bc) λ address l. write_byte_tick-Takes address value k
ld_dest-Takes mem_de from_memory value h k =
    bind_Takes (read_r16-Takes reg_de) λ address l. write_byte_tick-Takes address value k
ld_dest-Takes (reg16 x) from_memory value h k = cc

abbrev pub ld_ticks : Operand → Operand → ℕ
ld_ticks dest source = 1 + ld_dest_ticks dest (in_memory source)

pub ld_operand-Takes :
    (dest source : Operand)
    → is_operand dest ≡ true
    → is_operand source ≡ true
    → Takes Any (ld_ticks dest source) (ld_ticks dest source) (ld_operand dest source)
unfolding ld_operand
ld_operand-Takes dest source h k =
    bind_Takes (ld_source-Takes source k) λ value l. ld_dest-Takes dest (in_memory source) value h l

pub ld_nn_a-Takes : Takes Any 4 4 ld_nn_a
unfolding ld_nn_a
ld_nn_a-Takes = bind_Takes immediate_word-Takes λ address h.
    bind_Takes (read_r8-Takes reg_a)
      λ value k. then_Takes (write_byte_tick-Takes address value k) tick_1

pub ld_m_n-Takes : Takes Any 3 3 ld_m_n
unfolding ld_m_n
ld_m_n-Takes = bind_Takes immediate_byte-Takes λ value h.
    bind_Takes (read_r16-Takes reg_hl)
      λ address k. then_Takes (write_byte_tick-Takes address value h) tick_1

pub ld_sp_e-Takes : Takes Any 3 3 ld_sp_e
unfolding ld_sp_e
ld_sp_e-Takes = bind_Takes immediate_byte-Takes λ offset h. then_Takes tick_2 (
    bind_Takes (read_r16-Takes reg_sp) λ sp k.
      then_Takes (write_r16-Takes reg_hl (u16 (sp + sign_extend offset)) (omega arith))
        (write_f-Takes (offset_flags sp offset)))

pub ld_sp_hl-Takes : Takes Any 2 2 ld_sp_hl
unfolding ld_sp_hl
ld_sp_hl-Takes =
    then_Takes tick_2 (bind_Takes (read_r16-Takes reg_hl) λ value h. write_r16-Takes reg_sp value h)

pub ld_nn_sp-Takes : Takes Any 5 5 ld_nn_sp
unfolding ld_nn_sp
ld_nn_sp-Takes = bind_Takes immediate_word-Takes λ address h.
    bind_Takes (read_r16-Takes reg_sp)
      λ sp k. then_Takes (write_word_tick-Takes address sp k) tick_1

pub ldh_n_a-Takes : Takes Any 3 3 ldh_n_a
unfolding ldh_n_a
ldh_n_a-Takes = bind_Takes immediate_byte-Takes λ offset h.
    bind_Takes (read_r8-Takes reg_a)
      λ value k. then_Takes (write_byte_tick-Takes (0xFF00 + offset) value k) tick_1

pub ldh_a_n-Takes : Takes Any 3 3 ldh_a_n
unfolding ldh_a_n
ldh_a_n-Takes = bind_Takes immediate_byte-Takes λ offset h.
    bind_Takes (read_byte_tick-Takes (0xFF00 + offset))
      λ value k. then_Takes tick_1 (write_r8-Takes reg_a value k)

pub ldh_c_a-Takes : Takes Any 2 2 ldh_c_a
unfolding ldh_c_a
ldh_c_a-Takes = then_Takes tick_1 (
    bind_Takes (read_r8-Takes reg_a) λ value h.
      bind_Takes (read_r8-Takes reg_c) λ offset k. write_byte_tick-Takes (0xFF00 + offset) value h)

pub ldh_a_c-Takes : Takes Any 2 2 ldh_a_c
unfolding ldh_a_c
ldh_a_c-Takes = then_Takes tick_1 (
    bind_Takes (read_r8-Takes reg_c) λ offset h.
      bind_Takes (read_byte_tick-Takes (0xFF00 + offset)) λ value k. write_r8-Takes reg_a value k)

pub pop-Takes : (reg : Reg16) → Takes Any 3 3 (pop reg)
unfolding pop
pop-Takes reg = bind_Takes (read_r16-Takes reg_sp) λ sp h.
    bind_Takes (read_word_tick-Takes sp) λ value k. then_Takes tick_1 (
      then_Takes (write_r16-Takes reg value k)
        (write_r16-Takes reg_sp (u16 (sp + 2)) (omega arith)))

pub push-Takes : (reg : Reg16) → Takes Any 4 4 (push reg)
unfolding push
push-Takes reg = bind_Takes (read_r16-Takes reg) λ value h. then_Takes tick_2 (
    bind_Takes (read_r16-Takes reg_sp) λ sp k.
      then_Takes (write_r16-Takes reg_sp (wrapping_sub_16 sp 2) (omega arith))
        (write_word_tick-Takes (wrapping_sub_16 sp 2) value h))

pub inc_r8-Takes : (reg : Reg8) → Takes Any 1 1 (inc_r8 reg)
unfolding inc_r8
inc_r8-Takes reg = then_Takes tick_1 (
    bind_Takes (read_r8-Takes reg) λ value h.
      then_Takes (write_r8-Takes reg (u8 (value + 1)) (omega arith))
        (bind_Takes (read_r8-Takes reg_f) λ flags k. write_f-Takes (inc_flags value flags)))

pub dec_r8-Takes : (reg : Reg8) → Takes Any 1 1 (dec_r8 reg)
unfolding dec_r8
dec_r8-Takes reg = then_Takes tick_1 (
    bind_Takes (read_r8-Takes reg) λ value h.
      then_Takes (write_r8-Takes reg (wrapping_sub_8 value 1) (omega arith))
        (bind_Takes (read_r8-Takes reg_f) λ flags k. write_f-Takes (dec_flags value flags)))

pub inc_r16-Takes : (reg : Reg16) → Takes Any 2 2 (inc_r16 reg)
unfolding inc_r16
inc_r16-Takes reg =
    then_Takes tick_2 (
      bind_Takes (read_r16-Takes reg)
        λ value h. write_r16-Takes reg (u16 (value + 1)) (omega arith))

pub dec_r16-Takes : (reg : Reg16) → Takes Any 2 2 (dec_r16 reg)
unfolding dec_r16
dec_r16-Takes reg = then_Takes tick_2 (
    bind_Takes (read_r16-Takes reg)
      λ value h. write_r16-Takes reg (wrapping_sub_16 value 1) (omega arith))

pub inc_mem-Takes : (reg : Reg16) → Takes Any 3 3 (inc_mem reg)
unfolding inc_mem
inc_mem-Takes reg = bind_Takes (read_r16-Takes reg) λ address h.
    bind_Takes (read_byte_tick-Takes address) λ value k. then_Takes tick_1 (
      then_Takes (write_byte_tick-Takes address (u8 (value + 1)) (omega arith))
        (bind_Takes (read_r8-Takes reg_f) λ flags l. write_f-Takes (inc_flags value flags)))

pub dec_mem-Takes : (reg : Reg16) → Takes Any 3 3 (dec_mem reg)
unfolding dec_mem
dec_mem-Takes reg = bind_Takes (read_r16-Takes reg) λ address h.
    bind_Takes (read_byte_tick-Takes address) λ value k. then_Takes tick_1 (
      then_Takes (write_byte_tick-Takes address (wrapping_sub_8 value 1) (omega arith))
        (bind_Takes (read_r8-Takes reg_f) λ flags l. write_f-Takes (dec_flags value flags)))
