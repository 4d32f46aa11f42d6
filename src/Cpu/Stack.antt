-- ===== src/Cpu/Stack.antt =====
-- A return finds what a call has pushed.
use rust_gb_emulator.Base.{
  ℕ, ◌+◌, ◌-◌, ◌*◌, ◌<◌, ◌≤◌, u16, ◌≡◌, refl, ap, sym, ◌∙◌, arith, Build, ok, panic, Bytes,
}
use mathlib.Core.Path.{subst}
use rust_gb_emulator.Cpu.Registers
use rust_gb_emulator.Cpu.Registers.{Registers, Reg16, reg_sp, reg_pc}
use rust_gb_emulator.Cpu.Machine.{
  Machine, Exec, ◌>>=◌, ◌>>◌, read_r16, write_r16, tick_internal, read_word_tick, write_word_tick,
}
use rust_gb_emulator.Cpu.Loads.{wrapping_sub_16}
use rust_gb_emulator.Cpu.Flow.{push_and_jump, ret}
use rust_gb_emulator.Cpu.Takes.{IsMachine}
use rust_gb_emulator.Cpu.RamAccesses.{
  Leaves, bind-Leaves, then-Leaves, same-Leaves, tick_internal-Leaves, InRam,
}
use rust_gb_emulator.Cpu.RamWords.{
  write_r16-Leaves, read_r16-Leaves, tick_at, write_at, read_at, word_found, with_word,
}

-- The registers after a jump with a stack pointer.
abbrev jumped : Registers → ℕ → ℕ → Registers
jumped r sp pc = record r { sp = sp; pc = pc }

-- The pushes and the jump, from a stack pointer on.
abbrev pushes : ℕ → ℕ → ℕ → Exec (Unit {0})
pushes return_address target top = do
  write_r16 reg_sp top
  write_word_tick top return_address
  tick_internal 1
  write_r16 reg_pc target

pushes-Leaves :
    (b : Build) (top return_address target : ℕ) (r : Registers) (ram : Bytes) (t : Machine)
    → IsMachine t
    → t.cpu.registers ≡ r
    → t.mem.main_memory ≡ ram
    → InRam top
    → InRam (top + 1)
    → return_address < 65536
    → target < 65536
    → Leaves
        (pushes return_address target top b t)
        tt
        (jumped r top target)
        (with_word ram top return_address)
unfolding Registers.write_r16
pushes-Leaves b top return_address target r ram t v e f h k small far =
    let r1 : Registers = record r { sp = top } in
    let r2 = jumped r top target in
    let ram1 = with_word ram top return_address in
    let jump : Exec (Unit {0}) = (do tick_internal 1; write_r16 reg_pc target) in
    let store : Exec (Unit {0}) = (do write_word_tick top return_address; jump) in
    then-Leaves b t (write_r16 reg_sp top) store tt r1 r2 ram ram1
      (write_r16-Leaves b reg_sp top r ram t v e f (omega arith))
      λ t1 v1 e1 f1.
        then-Leaves b t1 (write_word_tick top return_address) jump tt r1 r2 ram1 ram1
          (write_at b top return_address r1 ram t1 v1 e1 f1 h k small)
          λ t2 v2 e2 f2.
            then-Leaves b t2 (tick_internal 1) (write_r16 reg_pc target) tt r1 r2 ram1 ram1
              (tick_at b 1 r1 ram1 t2 v2 e2 f2 (omega arith))
              λ t3 v3 e3 f3. write_r16-Leaves b reg_pc target r1 ram1 t3 v3 e3 f3 far

push_and_jump-Leaves :
    (b : Build) (s : Machine) (return_address target : ℕ)
    → IsMachine s
    → 0xC002 ≤ s.cpu.registers.sp
    → s.cpu.registers.sp ≤ 0xFE00
    → return_address < 65536
    → target < 65536
    → let sp = s.cpu.registers.sp in
      Leaves
        (push_and_jump return_address target b s)
        tt
        (jumped s.cpu.registers (sp - 2) target)
        (with_word s.mem.main_memory (sp - 2) return_address)
unfolding push_and_jump Registers.read_r16
push_and_jump-Leaves b s return_address target v low high small far =
    let r = s.cpu.registers in
    let ram = s.mem.main_memory in
    let top = r.sp - 2 in
    let r2 = jumped r top target in
    let ram1 = with_word ram top return_address in
    let push : ℕ → Exec (Unit {0}) = λ sp. pushes return_address target (wrapping_sub_16 sp 2) in
    let start : Exec (Unit {0}) = (do sp ← read_r16 reg_sp; push sp) in
    let below : wrapping_sub_16 r.sp 2 ≡ top = omega arith in
    then-Leaves b s (tick_internal 1) start tt r r2 ram ram1
      (tick_internal-Leaves b 1 s v (omega arith))
      λ t v1 e1 f1.
        bind-Leaves b t (read_r16 reg_sp) push r.sp tt r r2 ram ram1
          (read_r16-Leaves b reg_sp r ram t v1 e1 f1)
          λ t2 v2 e2 f2.
            subst (λ n. Leaves (pushes return_address target n b t2) tt r2 ram1) (sym below)
              (pushes-Leaves b top return_address target r ram t2 v2 e2 f2
                (omega arith, omega arith) (omega arith, omega arith) small far)

ret-Leaves :
    (b : Build) (s : Machine)
    → IsMachine s
    → 0xC000 ≤ s.cpu.registers.sp
    → s.cpu.registers.sp + 2 ≤ 0xFE00
    → let sp = s.cpu.registers.sp in
      let ram = s.mem.main_memory in
      Leaves (ret b s) tt (jumped s.cpu.registers (sp + 2) (ram sp + ram (sp + 1) * 256)) ram
unfolding ret Registers.read_r16 Registers.write_r16
ret-Leaves b s v low high =
    let r = s.cpu.registers in
    let ram = s.mem.main_memory in
    let pc = ram r.sp + ram (r.sp + 1) * 256 in
    let r1 : Registers = record r { sp = u16 (r.sp + 2) } in
    let r2 : Registers = record r1 { pc = pc } in
    let jump : ℕ → Exec (Unit {0}) = λ value. (do tick_internal 2; write_r16 reg_pc value) in
    let pops : ℕ → ℕ → Exec (Unit {0}) =
      λ sp value. (do write_r16 reg_sp (u16 (sp + 2)); jump value) in
    let rest : ℕ → Exec (Unit {0}) = λ sp. (do value ← read_word_tick sp; pops sp value) in
    let first = v.bus_ok.ram_bytes r.sp in
    let second = v.bus_ok.ram_bytes (r.sp + 1) in
    same-Leaves (ret b s) tt tt r2 (jumped r (r.sp + 2) pc) ram ram
      (bind-Leaves b s (read_r16 reg_sp) rest r.sp tt r r2 ram ram
        (read_r16-Leaves b reg_sp r ram s v refl refl)
        λ t v1 e1 f1.
          bind-Leaves b t (read_word_tick r.sp) (pops r.sp) pc tt r r2 ram ram
            (read_at b r.sp r ram t v1 e1 f1 (omega arith, omega arith) (omega arith, omega arith))
            λ t2 v2 e2 f2.
              then-Leaves b t2 (write_r16 reg_sp (u16 (r.sp + 2))) (jump pc) tt r1 r2 ram ram
                (write_r16-Leaves b reg_sp (u16 (r.sp + 2)) r ram t2 v2 e2 f2 (omega arith))
                λ t3 v3 e3 f3.
                  then-Leaves b t3 (tick_internal 2) (write_r16 reg_pc pc) tt r1 r2 ram ram
                    (tick_at b 2 r1 ram t3 v3 e3 f3 (omega arith))
                    λ t4 v4 e4 f4.
                      write_r16-Leaves b reg_pc pc r1 ram t4 v4 e4 f4
                        (omega (arith, first, second)))
      refl (ground arith) refl

-- What CALL and RST push, RET finds, in either build: with the stack in the RAM, a return that
-- follows the jump at once continues at the address that was pushed, with every other register as
-- before the call.
pub push_and_jump-ret :
    (b : Build) (s : Machine) (return_address target : ℕ)
    → IsMachine s
    → 0xC002 ≤ s.cpu.registers.sp
    → s.cpu.registers.sp ≤ 0xFE00
    → return_address < 65536
    → target < 65536
    → (s' : Machine) × ((do push_and_jump return_address target; ret) b s ≡ ok (tt, s'))
      × (s'.cpu.registers ≡ (let r = s.cpu.registers in record r { pc = return_address }))
      × IsMachine s'
push_and_jump-ret b s return_address target v low high small far =
    let r = s.cpu.registers in
    let top = r.sp - 2 in
    let called = push_and_jump-Leaves b s return_address target v low high small far in
    let t = called.machine in
    let sp : t.cpu.registers.sp ≡ top = ap (λ q. q.sp) called.registers_are in
    let back = ret-Leaves b t called.typed (omega (arith, sp)) (omega (arith, sp)) in
    let word : Bytes → ℕ → ℕ = λ ram sp. ram sp + ram (sp + 1) * 256 in
    let left : Registers → Bytes → Registers = λ q ram. jumped q (q.sp + 2) (word ram q.sp) in
    let same_sp : top + 2 ≡ r.sp = omega arith in
    (
      back.machine,
      ap (λ o. elim o [ ok q ↦ ret b q.1 | panic ↦ panic ]) called.returns ∙ back.returns,
      back.registers_are
          ∙ ap (λ q. left q t.mem.main_memory) called.registers_are
          ∙ ap (left (jumped r top target)) called.ram_is
          ∙ ap (jumped r (top + 2)) (word_found s.mem.main_memory top return_address)
          ∙ ap (λ n. jumped r n return_address) same_sp,
      back.typed,
    )
