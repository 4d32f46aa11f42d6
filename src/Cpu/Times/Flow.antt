-- ===== src/Cpu/Times/Flow.antt =====
-- Jumps, calls, returns and the interrupt switches: what they tick.
use rust_gb_emulator.Base.{ℕ, ◌+◌, ◌<◌, Bool, true, false, u16, ◌≡◌, arith}
use rust_gb_emulator.Cpu.Registers.{reg_hl, reg_sp, reg_pc}
use rust_gb_emulator.Cpu.Machine.{◌>>=◌, ◌>>◌, add_u16, write_r16, tick_internal}
use rust_gb_emulator.Cpu.Takes.{Takes, Any, bind_Takes, then_Takes, if_Takes}
use rust_gb_emulator.Cpu.Accesses.{
  read_r16-Takes, write_r16-Takes, write_ime-Takes, add_u16-Takes, sub_u16-Takes, peek-Takes,
  tick_internal-Takes, tick_1, tick_2, read_word_tick-Takes, write_word_tick-Takes,
  immediate_byte-Takes, immediate_word-Takes,
}
use rust_gb_emulator.Cpu.Loads.{sign_extend, wrapping_sub_16}
use rust_gb_emulator.Cpu.Flow.{
  Cflag, nop, stop, halt, di, ei, jr_e, jr_f_e, jp_nn, jp_f_nn, jp_hl, push_and_jump, call_nn,
  call_f_nn, rst, ret, ret_f, reti,
}
use rust_gb_emulator.Cpu.Times.Conditions.{
  is_flag, condition-Takes, set_ei_pending-Takes, set_halted-Takes, set_halt_bug-Takes,
  read_ime-Takes, peek_16-Takes, poke_16-Takes, branch,
}

pub nop-Takes : Takes Any 1 1 nop
unfolding nop
nop-Takes = tick_1

pub stop-Takes : Takes Any 1 1 stop
unfolding stop
stop-Takes = tick_1

pub halt-Takes : Takes Any 1 1 halt
unfolding halt
halt-Takes = then_Takes tick_1 (
    bind_Takes (peek-Takes 0xFFFF) λ ie h. bind_Takes (peek-Takes 0xFF0F) λ if_reg k.
      bind_Takes read_ime-Takes
        λ ime l. if_Takes _ (set_halt_bug-Takes true) (set_halted-Takes true))

pub di-Takes : Takes Any 1 1 di
unfolding di
di-Takes = then_Takes tick_1 (then_Takes (write_ime-Takes 0) (set_ei_pending-Takes false))

pub ei-Takes : Takes Any 1 1 ei
unfolding ei
ei-Takes = then_Takes tick_1 (set_ei_pending-Takes true)

pub jr_e-Takes : Takes Any 3 3 jr_e
unfolding jr_e
jr_e-Takes = bind_Takes (read_r16-Takes reg_pc) λ pc h. bind_Takes immediate_byte-Takes λ offset k.
    then_Takes tick_2 (write_r16-Takes reg_pc (u16 (pc + 2 + sign_extend offset)) (omega arith))

-- PC moves on where a condition is not met.
skip :
    (pc length : ℕ)
    → Takes Any 1 1 (do tick_internal 1; next ← add_u16 pc length; write_r16 reg_pc next)
skip pc length =
    then_Takes tick_1 (bind_Takes (add_u16-Takes pc length) λ next h. write_r16-Takes reg_pc next h)

pub jr_f_e-Takes :
    (cflag : Cflag) (z : Bool) → is_flag cflag ≡ true → Takes Any 2 3 (jr_f_e cflag z)
unfolding jr_f_e
jr_f_e-Takes cflag z flag = bind_Takes (read_r16-Takes reg_pc) λ pc h.
    bind_Takes immediate_byte-Takes λ offset k. bind_Takes (condition-Takes cflag z flag) λ met l.
      if_Takes met
        (branch 1 2 (omega arith) (omega arith) (
          then_Takes tick_2
            (write_r16-Takes reg_pc (u16 (pc + 2 + sign_extend offset)) (omega arith))))
        (branch 1 2 (omega arith) (omega arith) (skip pc 2))

pub jp_nn-Takes : Takes Any 4 4 jp_nn
unfolding jp_nn
jp_nn-Takes =
    bind_Takes immediate_word-Takes λ target h. then_Takes tick_2 (write_r16-Takes reg_pc target h)

pub jp_f_nn-Takes :
    (cflag : Cflag) (z : Bool) → is_flag cflag ≡ true → Takes Any 3 4 (jp_f_nn cflag z)
unfolding jp_f_nn
jp_f_nn-Takes cflag z flag = bind_Takes (read_r16-Takes reg_pc) λ pc h.
    bind_Takes immediate_word-Takes λ target k. bind_Takes (condition-Takes cflag z flag) λ met l.
      if_Takes met
        (branch 1 2 (omega arith) (omega arith)
          (then_Takes tick_2 (write_r16-Takes reg_pc target k)))
        (branch 1 2 (omega arith) (omega arith) (skip pc 3))

pub jp_hl-Takes : Takes Any 1 1 jp_hl
unfolding jp_hl
jp_hl-Takes =
    then_Takes tick_1 (bind_Takes (read_r16-Takes reg_hl) λ value h. write_r16-Takes reg_pc value h)

push_and_jump-Takes :
    (return_address target : ℕ)
    → return_address < 65536
    → target < 65536
    → Takes Any 4 4 (push_and_jump return_address target)
unfolding push_and_jump
push_and_jump-Takes return_address target h k = then_Takes tick_1 (
    bind_Takes (read_r16-Takes reg_sp) λ sp l.
      then_Takes (write_r16-Takes reg_sp (wrapping_sub_16 sp 2) (omega arith)) (
        then_Takes (write_word_tick-Takes (wrapping_sub_16 sp 2) return_address h)
          (then_Takes tick_1 (write_r16-Takes reg_pc target k))))

pub call_nn-Takes : Takes Any 6 6 call_nn
unfolding call_nn
call_nn-Takes = bind_Takes (read_r16-Takes reg_pc) λ pc h.
    bind_Takes immediate_word-Takes
      λ target k. push_and_jump-Takes (u16 (pc + 3)) target (omega arith) k

pub call_f_nn-Takes :
    (cflag : Cflag) (z : Bool) → is_flag cflag ≡ true → Takes Any 3 6 (call_f_nn cflag z)
unfolding call_f_nn
call_f_nn-Takes cflag z flag = bind_Takes (condition-Takes cflag z flag) λ met l.
    bind_Takes (read_r16-Takes reg_pc) λ pc h.
      if_Takes met
        (branch 3 6 (omega arith) (omega arith) (
          bind_Takes (add_u16-Takes pc 1) λ operand i.
            bind_Takes (peek_16-Takes operand) λ target j.
              bind_Takes (add_u16-Takes pc 3) λ return_address k.
                bind_Takes (read_r16-Takes reg_sp) λ sp m.
                  bind_Takes (sub_u16-Takes sp 2 m) λ top n.
                    then_Takes (write_r16-Takes reg_sp top n) (
                      then_Takes (poke_16-Takes top return_address k) (
                        then_Takes (write_r16-Takes reg_pc target j)
                          (tick_internal-Takes 6 (omega arith))))))
        (branch 3 6 (omega arith) (omega arith) (
          bind_Takes (add_u16-Takes pc 3) λ next i.
            then_Takes (write_r16-Takes reg_pc next i) (tick_internal-Takes 3 (omega arith))))

pub rst-Takes : (value : ℕ) → value < 65536 → Takes Any 4 4 (rst value)
unfolding rst
rst-Takes value h =
    bind_Takes (read_r16-Takes reg_pc)
      λ pc k. push_and_jump-Takes (u16 (pc + 1)) value (omega arith) h

pub ret-Takes : Takes Any 4 4 ret
unfolding ret
ret-Takes = bind_Takes (read_r16-Takes reg_sp) λ sp h.
    bind_Takes (read_word_tick-Takes sp) λ value k.
      then_Takes (write_r16-Takes reg_sp (u16 (sp + 2)) (omega arith))
        (then_Takes tick_2 (write_r16-Takes reg_pc value k))

pub ret_f-Takes : (cflag : Cflag) (z : Bool) → is_flag cflag ≡ true → Takes Any 2 5 (ret_f cflag z)
unfolding ret_f
ret_f-Takes cflag z flag = then_Takes tick_1 (
    bind_Takes (condition-Takes cflag z flag) λ met l.
      if_Takes met
        (branch 1 4 (omega arith) (omega arith) (
          bind_Takes (read_r16-Takes reg_sp) λ sp h. bind_Takes (read_word_tick-Takes sp) λ value k.
            then_Takes (write_r16-Takes reg_sp (u16 (sp + 2)) (omega arith))
              (then_Takes tick_1 (then_Takes (write_r16-Takes reg_pc value k) tick_1))))
        (branch 1 4 (omega arith) (omega arith) (
          bind_Takes (read_r16-Takes reg_pc) λ pc h.
            bind_Takes (add_u16-Takes pc 1)
              λ next k. then_Takes (write_r16-Takes reg_pc next k) tick_1)))

pub reti-Takes : Takes Any 4 4 reti
unfolding reti
reti-Takes = bind_Takes (read_r16-Takes reg_sp) λ sp h.
    bind_Takes (read_word_tick-Takes sp) λ value k.
      then_Takes (write_r16-Takes reg_sp (u16 (sp + 2)) (omega arith)) (
        then_Takes tick_1
          (then_Takes (write_r16-Takes reg_pc value k) (then_Takes (write_ime-Takes 1) tick_1)))
