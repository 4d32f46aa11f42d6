-- ===== src/Cpu/Times/Cb.antt =====
-- The instructions behind the prefix 0xCB: what they tick.
use rust_gb_emulator.Base.{
  ℕ, zero, suc, ◌<◌, bit_and, bit_or, true, if◌then◌else◌, ltb, ◌!=◌, u8, ◌>>>◌, ◌<<<◌, ◌≡◌, refl,
  arith,
}
use rust_gb_emulator.Base.Masks.{bit_and_ones, every_below, every_below_lem}
use rust_gb_emulator.Base.Widths.{bit_and-lt, bit_or-lt}
use rust_gb_emulator.Cpu.Registers.{
  Operand, reg8, reg16, mem_hl, mem_bc, mem_de, reg_f, reg_hl, reg_pc,
}
use rust_gb_emulator.Cpu.Machine.{◌>>=◌, ◌>>◌, tick_internal, read_operand, read_r8, write_r8}
use rust_gb_emulator.Cpu.Takes.{
  Takes, Any, IsByte, bind_Takes, then_Takes, if_Takes, weaken_Takes, at_once,
}
use rust_gb_emulator.Cpu.Accesses.{
  read_r8-Takes, read_r16-Takes, write_f-Takes, add_u16-Takes, peek-Takes, tick_1,
  read_byte_tick-Takes, write_byte_tick-Takes, is_operand, read_operand-Takes, write_operand-Takes,
}
use rust_gb_emulator.Cpu.Registers.{from_index}
use rust_gb_emulator.Cpu.Loads.{carry_flag}
use rust_gb_emulator.Cpu.Cb.{
  write_op_cb, read_op_cb, rotate_left_1, rotate_right_1, rotate_left_4, arithmetic_right_1, rlc_r,
  rrc_r, rl_r, rr_r, sla_r, sra_r, swap_r, srl_r, bit_n_r, res_n_r, set_n_r, operand_of,
  dispatch_cb, call_cb,
}

read_op_cb-Takes : (op : Operand) → is_operand op ≡ true → Takes IsByte 1 2 (read_op_cb op)
unfolding read_op_cb is_operand
read_op_cb-Takes mem_hl h =
    weaken_Takes 1 2 (λ a x. x) (omega arith) (omega arith)
      (bind_Takes (read_r16-Takes reg_hl)
        λ address k. then_Takes tick_1 (read_byte_tick-Takes address))
read_op_cb-Takes (reg8 x) h = register (reg8 x) refl
  where
    register :
        (op : Operand)
        → is_operand op ≡ true
        → Takes IsByte 1 2 (do tick_internal 1; read_operand op)
    register op k =
        weaken_Takes 1 2 (λ a x. x) (omega arith) (omega arith)
          (then_Takes tick_1 (read_operand-Takes op k))
read_op_cb-Takes mem_bc h =
    weaken_Takes 1 2 (λ a x. x) (omega arith) (omega arith)
      (then_Takes tick_1 (read_operand-Takes mem_bc refl))
read_op_cb-Takes mem_de h =
    weaken_Takes 1 2 (λ a x. x) (omega arith) (omega arith)
      (then_Takes tick_1 (read_operand-Takes mem_de refl))
read_op_cb-Takes (reg16 x) h = cc

write_op_cb-Takes :
    (op : Operand) (result : ℕ)
    → is_operand op ≡ true
    → result < 256
    → Takes Any 1 2 (write_op_cb op result)
unfolding write_op_cb is_operand
write_op_cb-Takes mem_hl result h l =
    weaken_Takes 1 2 (λ a x. x) (omega arith) (omega arith)
      (bind_Takes (read_r16-Takes reg_hl)
        λ address k. then_Takes tick_1 (write_byte_tick-Takes address result l))
write_op_cb-Takes (reg8 x) result h l =
    weaken_Takes 1 2 (λ a x. x) (omega arith) (omega arith)
      (then_Takes tick_1 (write_operand-Takes (reg8 x) result refl l))
write_op_cb-Takes mem_bc result h l =
    weaken_Takes 1 2 (λ a x. x) (omega arith) (omega arith)
      (then_Takes tick_1 (write_operand-Takes mem_bc result refl l))
write_op_cb-Takes mem_de result h l =
    weaken_Takes 1 2 (λ a x. x) (omega arith) (omega arith)
      (then_Takes tick_1 (write_operand-Takes mem_de result refl l))
write_op_cb-Takes (reg16 x) result h l = cc

-- An operand replaced by a byte computed from it and from F, and F by any flags.
shifted :
    (op : Operand) (result flags' : ℕ → ℕ → ℕ)
    → is_operand op ≡ true
    → ((value flags : ℕ) → value < 256 → flags < 256 → result value flags < 256)
    → Takes Any 2 4 (do
      value ← read_op_cb op
      flags ← read_r8 reg_f
      write_r8 reg_f (flags' value flags)
      write_op_cb op (result value flags))
shifted op result flags' h k = bind_Takes (read_op_cb-Takes op h) λ value l.
    bind_Takes (read_r8-Takes reg_f) λ flags m.
      then_Takes (write_f-Takes (flags' value flags))
        (write_op_cb-Takes op (result value flags) h (k value flags l m))

rlc_r-Takes : (op : Operand) → is_operand op ≡ true → Takes Any 2 4 (rlc_r op)
unfolding rlc_r rotate_left_1
rlc_r-Takes op h =
    shifted op (λ v f. rotate_left_1 v) _ h (λ v f k l. bit_or-lt 8 _ _ (omega arith) (omega arith))

rrc_r-Takes : (op : Operand) → is_operand op ≡ true → Takes Any 2 4 (rrc_r op)
unfolding rrc_r rotate_right_1
rrc_r-Takes op h =
    shifted op (λ v f. rotate_right_1 v) _ h
      (λ v f k l. bit_or-lt 8 _ _ (omega arith) (omega arith))

rl_r-Takes : (op : Operand) → is_operand op ≡ true → Takes Any 2 4 (rl_r op)
unfolding rl_r
rl_r-Takes op h =
    shifted op (λ v f. bit_or (u8 (v <<< 1)) (if bit_and f carry_flag != 0 then 1 else 0)) _ h
      (λ v f k l. bit_or-lt 8 _ _ (omega arith) (ground arith))

rr_r-Takes : (op : Operand) → is_operand op ≡ true → Takes Any 2 4 (rr_r op)
unfolding rr_r
rr_r-Takes op h =
    shifted op (λ v f. bit_or (v >>> 1) (u8 ((if bit_and f carry_flag != 0 then 1 else 0) <<< 7))) _
      h (λ v f k l. bit_or-lt 8 _ _ (omega arith) (omega arith))

sla_r-Takes : (op : Operand) → is_operand op ≡ true → Takes Any 2 4 (sla_r op)
unfolding sla_r
sla_r-Takes op h = shifted op (λ v f. u8 (v <<< 1)) _ h (λ v f k l. omega arith)

sra_r-Takes : (op : Operand) → is_operand op ≡ true → Takes Any 2 4 (sra_r op)
unfolding sra_r arithmetic_right_1
sra_r-Takes op h = shifted op (λ v f. arithmetic_right_1 v) _ h (λ v f k l. ground arith)

swap_r-Takes : (op : Operand) → is_operand op ≡ true → Takes Any 2 4 (swap_r op)
unfolding swap_r rotate_left_4
swap_r-Takes op h =
    shifted op (λ v f. rotate_left_4 v) _ h (λ v f k l. bit_or-lt 8 _ _ (omega arith) (omega arith))

srl_r-Takes : (op : Operand) → is_operand op ≡ true → Takes Any 2 4 (srl_r op)
unfolding srl_r
srl_r-Takes op h = shifted op (λ v f. v >>> 1) _ h (λ v f k l. omega arith)

bit_n_r-Takes : (op : Operand) (n : ℕ) → is_operand op ≡ true → Takes Any 2 4 (bit_n_r op n)
unfolding bit_n_r
bit_n_r-Takes op n h =
    weaken_Takes 2 4 (λ a x. x) (omega arith) (omega arith)
      (bind_Takes (read_op_cb-Takes op h)
        λ value k. then_Takes tick_1 (bind_Takes (read_r8-Takes reg_f) λ flags l. write_f-Takes _))

res_n_r-Takes : (op : Operand) (n : ℕ) → is_operand op ≡ true → Takes Any 2 4 (res_n_r op n)
unfolding res_n_r
res_n_r-Takes op n h =
    bind_Takes (read_op_cb-Takes op h) λ value k. write_op_cb-Takes op _ h (bit_and-lt 8 value _ k)

single_bit : (n : ℕ) → n < 8 → 1 <<< n < 256
unfolding every_below
single_bit n h = ground (arith, every_below_lem 8 (λ k. ltb (1 <<< k) 256) n refl h)

set_n_r-Takes : (op : Operand) (n : ℕ) → is_operand op ≡ true → n < 8 → Takes Any 2 4 (set_n_r op n)
unfolding set_n_r
set_n_r-Takes op n h l =
    bind_Takes (read_op_cb-Takes op h)
      λ value k. write_op_cb-Takes op _ h (bit_or-lt 8 value (1 <<< n) k (single_bit n l))

-- `from_index` panics on no index below 8, and gives no register pair.
abbrev pub IsOperand : Operand → Type 0
IsOperand op = is_operand op ≡ true

operand_of-Takes : (index : ℕ) → index < 8 → Takes IsOperand 0 0 (operand_of index)
unfolding operand_of from_index is_operand
operand_of-Takes zero h = record { runs = λ b s v. at_once IsOperand _ s s refl v refl }
operand_of-Takes (suc zero) h = record { runs = λ b s v. at_once IsOperand _ s s refl v refl }
operand_of-Takes (suc (suc zero)) h = record { runs = λ b s v. at_once IsOperand _ s s refl v refl }
operand_of-Takes (suc (suc (suc zero))) h = record {
  runs = λ b s v. at_once IsOperand _ s s refl v refl;
}
operand_of-Takes (suc (suc (suc (suc zero)))) h = record {
  runs = λ b s v. at_once IsOperand _ s s refl v refl;
}
operand_of-Takes (suc (suc (suc (suc (suc zero))))) h = record {
  runs = λ b s v. at_once IsOperand _ s s refl v refl;
}
operand_of-Takes (suc (suc (suc (suc (suc (suc zero)))))) h = record {
  runs = λ b s v. at_once IsOperand _ s s refl v refl;
}
operand_of-Takes (suc (suc (suc (suc (suc (suc (suc zero))))))) h = record {
  runs = λ b s v. at_once IsOperand _ s s refl v refl;
}
operand_of-Takes (suc (suc (suc (suc (suc (suc (suc (suc n)))))))) h = absurd (omega arith)

dispatch_cb-Takes :
    (cb_opcode : ℕ) (op : Operand) → is_operand op ≡ true → Takes Any 2 4 (dispatch_cb cb_opcode op)
unfolding dispatch_cb
dispatch_cb-Takes cb_opcode op h = if_Takes _ (rlc_r-Takes op h) (
    if_Takes _ (rrc_r-Takes op h) (
      if_Takes _ (rl_r-Takes op h) (
        if_Takes _ (rr_r-Takes op h) (
          if_Takes _ (sla_r-Takes op h) (
            if_Takes _ (sra_r-Takes op h) (
              if_Takes _ (swap_r-Takes op h) (
                if_Takes _ (srl_r-Takes op h) (
                  if_Takes _ (bit_n_r-Takes op _ h) (
                    if_Takes _ (res_n_r-Takes op _ h) (
                      set_n_r-Takes op _ h
                        (omega (arith, bit_and_ones 3 (cb_opcode >>> 3)))))))))))))

pub call_cb-Takes : Takes Any 2 4 call_cb
unfolding call_cb
call_cb-Takes = bind_Takes (read_r16-Takes reg_pc) λ pc h. bind_Takes (add_u16-Takes pc 1) λ next k.
    bind_Takes (peek-Takes next) λ cb_opcode l.
      bind_Takes
        (operand_of-Takes (bit_and cb_opcode 0x07) (omega (arith, bit_and_ones 3 cb_opcode)))
        λ op m. dispatch_cb-Takes cb_opcode op m
