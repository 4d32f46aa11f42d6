-- ===== src/Cpu/PushPop.antt =====
-- POP gives back what PUSH has stored.
use rust_gb_emulator.Base.{
  ℕ, ◌+◌, ◌-◌, ◌*◌, ◌<◌, ◌≤◌, Bool, true, false, u16, ◌≡◌, refl, ap, sym, ◌∙◌, arith, Build, ok,
  panic, Bytes,
}
use mathlib.Core.Path.{subst}
use rust_gb_emulator.Cpu.Registers
use rust_gb_emulator.Cpu.Registers.{
  Registers, Reg16, reg_sp, reg_pc, reg_af, reg_bc, reg_de, reg_hl,
}
use rust_gb_emulator.Cpu.Machine.{
  Machine, Exec, ◌>>=◌, ◌>>◌, read_r16, write_r16, tick_internal, read_word_tick, write_word_tick,
}
use rust_gb_emulator.Cpu.Loads.{wrapping_sub_16}
use rust_gb_emulator.Cpu.Loads.{push, pop}
use rust_gb_emulator.Cpu.Takes.{IsMachine}
use rust_gb_emulator.Cpu.RegisterTypes.{word_of}
use rust_gb_emulator.Cpu.RamAccesses.{Leaves, bind-Leaves, then-Leaves}
use rust_gb_emulator.Cpu.RamWords.{
  write_r16-Leaves, read_r16-Leaves, tick_at, write_at, read_at, word_found, with_word,
}

-- The pairs that PUSH and POP name.
unfoldable pub is_pair : Reg16 → Bool
is_pair reg_af = true
is_pair reg_bc = true
is_pair reg_de = true
is_pair reg_hl = true
is_pair _ = false

-- The writes of POP, of a pair and of SP, in their order.
abbrev popped : Registers → Reg16 → ℕ → ℕ → Registers
popped r reg value sp = Registers.write_r16 (Registers.write_r16 r reg value) reg_sp sp

push-Leaves :
    (b : Build) (s : Machine) (reg : Reg16)
    → IsMachine s
    → 0xC002 ≤ s.cpu.registers.sp
    → s.cpu.registers.sp ≤ 0xFE00
    → let r = s.cpu.registers in
      Leaves
        (push reg b s)
        tt
        (record r { sp = r.sp - 2 })
        (with_word s.mem.main_memory (r.sp - 2) (Registers.read_r16 r reg))
unfolding push Registers.write_r16 Registers.read_r16
push-Leaves b s reg v low high =
    let r = s.cpu.registers in
    let ram = s.mem.main_memory in
    let top = r.sp - 2 in
    let value = Registers.read_r16 r reg in
    let small : value < 65536 = word_of r reg v.registers_ok in
    let r1 : Registers = record r { sp = top } in
    let ram1 = with_word ram top value in
    let store : ℕ → Exec (Unit {0}) = λ sp. (do
      write_r16 reg_sp (wrapping_sub_16 sp 2)
      write_word_tick (wrapping_sub_16 sp 2) value) in
    let stores : ℕ → Exec (Unit {0}) = λ n. (do write_r16 reg_sp n; write_word_tick n value) in
    let rest : ℕ → Exec (Unit {0}) = λ value. (do
      tick_internal 2
      sp ← read_r16 reg_sp
      write_r16 reg_sp (wrapping_sub_16 sp 2)
      write_word_tick (wrapping_sub_16 sp 2) value) in
    let below : wrapping_sub_16 r.sp 2 ≡ top = omega arith in
    bind-Leaves b s (read_r16 reg) rest value tt r r1 ram ram1
      (read_r16-Leaves b reg r ram s v refl refl)
      λ t v1 e1 f1.
        then-Leaves b t (tick_internal 2) (read_r16 reg_sp >>= store) tt r r1 ram ram1
          (tick_at b 2 r ram t v1 e1 f1 (omega arith))
          λ t2 v2 e2 f2.
            bind-Leaves b t2 (read_r16 reg_sp) store r.sp tt r r1 ram ram1
              (read_r16-Leaves b reg_sp r ram t2 v2 e2 f2)
              λ t3 v3 e3 f3.
                subst (λ n. Leaves (stores n b t3) tt r1 ram1) (sym below)
                  (then-Leaves b t3 (write_r16 reg_sp top) (write_word_tick top value) tt r1 r1 ram
                    ram1 (write_r16-Leaves b reg_sp top r ram t3 v3 e3 f3 (omega arith))
                    λ t4 v4 e4 f4.
                      write_at b top value r1 ram t4 v4 e4 f4 (omega arith, omega arith)
                        (omega arith, omega arith) small)

pop-Leaves :
    (b : Build) (s : Machine) (reg : Reg16)
    → IsMachine s
    → 0xC000 ≤ s.cpu.registers.sp
    → s.cpu.registers.sp + 2 ≤ 0xFE00
    → let r = s.cpu.registers in
      let ram = s.mem.main_memory in
      Leaves (pop reg b s) tt (popped r reg (ram r.sp + ram (r.sp + 1) * 256) (u16 (r.sp + 2))) ram
unfolding pop Registers.read_r16
pop-Leaves b s reg v low high =
    let r = s.cpu.registers in
    let ram = s.mem.main_memory in
    let value = ram r.sp + ram (r.sp + 1) * 256 in
    let sp' = u16 (r.sp + 2) in
    let r1 = Registers.write_r16 r reg value in
    let r2 = popped r reg value sp' in
    let first = v.bus_ok.ram_bytes r.sp in
    let second = v.bus_ok.ram_bytes (r.sp + 1) in
    let writes : ℕ → ℕ → Exec (Unit {0}) =
      λ sp value. (do write_r16 reg value; write_r16 reg_sp (u16 (sp + 2))) in
    let pops : ℕ → ℕ → Exec (Unit {0}) = λ sp value. (do tick_internal 1; writes sp value) in
    let rest : ℕ → Exec (Unit {0}) = λ sp. (do value ← read_word_tick sp; pops sp value) in
    bind-Leaves b s (read_r16 reg_sp) rest r.sp tt r r2 ram ram
      (read_r16-Leaves b reg_sp r ram s v refl refl)
      λ t v1 e1 f1.
        bind-Leaves b t (read_word_tick r.sp) (pops r.sp) value tt r r2 ram ram
          (read_at b r.sp r ram t v1 e1 f1 (omega arith, omega arith) (omega arith, omega arith))
          λ t2 v2 e2 f2.
            then-Leaves b t2 (tick_internal 1) (writes r.sp value) tt r r2 ram ram
              (tick_at b 1 r ram t2 v2 e2 f2 (omega arith))
              λ t3 v3 e3 f3.
                then-Leaves b t3 (write_r16 reg value) (write_r16 reg_sp sp') tt r1 r2 ram ram
                  (write_r16-Leaves b reg value r ram t3 v3 e3 f3 (omega (arith, first, second)))
                  λ t4 v4 e4 f4. write_r16-Leaves b reg_sp sp' r1 ram t4 v4 e4 f4 (omega arith)

moved :
    (r : Registers) (reg : Reg16) (top value sp : ℕ)
    → is_pair reg ≡ true
    → sp ≡ r.sp
    → popped (record r { sp = top }) reg value sp ≡ Registers.write_r16 r reg value
unfolding Registers.write_r16 is_pair
moved r reg_af top value sp h e = ground arith
moved r reg_bc top value sp h e = ground arith
moved r reg_de top value sp h e = ground arith
moved r reg_hl top value sp h e = ground arith
moved r reg_sp top value sp h e = cc
moved r reg_pc top value sp h e = cc

-- A PUSH of a pair and then a POP of the same or another one, in either build and with the stack in
-- the RAM, write the value of the first to the second; SP and every other register is as before.
pub push-pop :
    (b : Build) (s : Machine) (source dest : Reg16)
    → IsMachine s
    → is_pair dest ≡ true
    → 0xC002 ≤ s.cpu.registers.sp
    → s.cpu.registers.sp ≤ 0xFE00
    → (s' : Machine) × ((do push source; pop dest) b s ≡ ok (tt, s'))
      × (let r = s.cpu.registers in
          s'.cpu.registers ≡ Registers.write_r16 r dest (Registers.read_r16 r source))
      × IsMachine s'
push-pop b s source dest v pair low high =
    let r = s.cpu.registers in
    let top = r.sp - 2 in
    let value = Registers.read_r16 r source in
    let pushed = push-Leaves b s source v low high in
    let t = pushed.machine in
    let sp : t.cpu.registers.sp ≡ top = ap (λ q. q.sp) pushed.registers_are in
    let back = pop-Leaves b t dest pushed.typed (omega (arith, sp)) (omega (arith, sp)) in
    let word : Bytes → ℕ → ℕ = λ ram sp. ram sp + ram (sp + 1) * 256 in
    let left : Registers → Bytes → Registers =
      λ q ram. popped q dest (word ram q.sp) (u16 (q.sp + 2)) in
    let r1 : Registers = record r { sp = top } in
    (
      back.machine,
      ap (λ o. elim o [ ok q ↦ pop dest b q.1 | panic ↦ panic ]) pushed.returns ∙ back.returns,
      back.registers_are
          ∙ ap (λ q. left q t.mem.main_memory) pushed.registers_are
          ∙ ap (left r1) pushed.ram_is
          ∙ ap (λ n. popped r1 dest n (u16 (top + 2))) (word_found s.mem.main_memory top value)
          ∙ moved r dest top value (u16 (top + 2)) pair (omega arith),
      back.typed,
    )
