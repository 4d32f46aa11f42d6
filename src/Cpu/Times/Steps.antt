-- ===== src/Cpu/Times/Steps.antt =====
-- A step of a well-formed machine.
use rust_gb_emulator.Base.{
  ℕ, ◌<◌, bit_and, Bool, true, false, if◌then◌else◌, ◌!=◌, ◌≡◌, refl, arith, Build, release,
  Outcome, ok, panic,
}
use rust_gb_emulator.Cpu.Registers.{
  Reg8, Reg16, Operand, reg8, reg16, mem_hl, mem_bc, mem_de, reg_a, reg_b, reg_c, reg_d, reg_e,
  reg_h, reg_l, reg_f, reg_hl, reg_bc, reg_de, reg_af, reg_sp, reg_pc,
}
use rust_gb_emulator.Cpu.Machine.{Machine, Exec, ◌>>=◌, ◌>>◌, return, read_r16, peek}
use rust_gb_emulator.Cpu.Takes.{
  IsMachine, ticked, Runs, Takes, bind_Takes, then_Takes, weaken_Takes, return-Takes,
}
use rust_gb_emulator.Cpu.Execute.{execute}
use rust_gb_emulator.Cpu.Step.{
  is_halted, reset_ticked, tick_memory, handle_post_instruction, enable_interrupts, run_instruction,
  step_halted, step,
}
use rust_gb_emulator.Cpu.Times.Post.{
  Timed, four_or_more, tick_memory-Takes, handle_post_instruction-Takes, enable_interrupts-Takes,
}
use rust_gb_emulator.Memory.{read_8}
use rust_gb_emulator.Memory.Typing.{read_8-lt}
use rust_gb_emulator.Cpu.Registers
use rust_gb_emulator.Cpu.Flow.{set_halted}
use rust_gb_emulator.Cpu.Times.Opcodes.{decoded_lem, execute-Takes}

-- The opcode that the next instruction has.
abbrev pub opcode_at : Machine → ℕ
opcode_at s = read_8 s.mem s.cpu.registers.pc

-- A run may be counted from any machine of the same count.
rebased :
    {A : Type 0} (V : A → Type 0) (lo hi : ℕ) (b : Build) (s s' : Machine)
    → ticked s' ≡ ticked s
    → (o : Outcome (A × Machine)) → Runs V lo hi b s' o
    → Runs V lo hi b s o
rebased V lo hi b s s' e (ok r) h = record {
  value = h.value;
  typed = h.typed;
  least = omega (arith, e, h.least);
  most = omega (arith, e, h.most);
}
rebased V lo hi b s s' e panic h = h

choice-Runs :
    {A : Type 0} (V : A → Type 0) (lo hi : ℕ) (b : Build) (s : Machine) (test : Bool) (x y : Exec A)
    → Runs V lo hi b s (x b s)
    → Runs V lo hi b s (y b s)
    → Runs V lo hi b s ((if test then x else y) b s)
choice-Runs V lo hi b s true x y h k = h
choice-Runs V lo hi b s false x y h k = k

-- An instruction that has been fetched.
run_opcode : ℕ → Exec ℕ
run_opcode opcode = do
  execute opcode
  cycles ← handle_post_instruction opcode
  enable_interrupts
  return cycles

run_opcode-Takes : (opcode : ℕ) → opcode < 256 → Takes (Timed opcode) 0 6 (run_opcode opcode)
unfolding run_opcode
run_opcode-Takes opcode k =
    let d = decoded_lem opcode k in
    then_Takes (weaken_Takes 0 6 (λ a x. x) (omega arith) d.short (execute-Takes opcode d)) (
      bind_Takes (handle_post_instruction-Takes opcode k)
        λ cycles l. then_Takes enable_interrupts-Takes (return-Takes cycles l))

run_instruction-Runs :
    (b : Build) (s : Machine)
    → IsMachine s
    → Runs (Timed (opcode_at s)) 0 6 b s (run_instruction b s)
unfolding run_instruction run_opcode read_r16 Registers.read_r16 peek
run_instruction-Runs b s v =
    (run_opcode-Takes (opcode_at s) (read_8-lt s.mem s.cpu.registers.pc v.bus_ok)).runs b s v

-- The machine when HALT has ended.
abbrev running : Machine → Machine
running s = let c = s.cpu in record s { cpu = record c { halted = false } }

step_halted-Runs :
    (b : Build) (s : Machine) → IsMachine s → Runs (Timed (opcode_at s)) 0 6 b s (step_halted b s)
unfolding step_halted peek set_halted
step_halted-Runs b s v =
    let waits : Exec ℕ = (do tick_memory 1; return 4) in
    let wakes : Exec ℕ = (do set_halted false; run_instruction) in
    choice-Runs (Timed (opcode_at s)) 0 6 b s
      (bit_and (bit_and (read_8 s.mem 0xFFFF) (read_8 s.mem 0xFF0F)) 0x1F != 0) wakes waits
      (rebased (Timed (opcode_at s)) 0 6 b s (running s) refl (run_instruction b (running s)) (
        run_instruction-Runs b (running s)
          (record { registers_ok = v.registers_ok; bus_ok = v.bus_ok })))
      ((weaken_Takes 0 6 (λ a x. x) (omega arith) (omega arith)
          (then_Takes (tick_memory-Takes 1 (omega arith)) (
            return-Takes {V = Timed (opcode_at s)} 4
              (four_or_more (opcode_at s) 4 (omega arith) (omega arith))))).runs
        b s v)

-- The machine when the count has been set to 0.
abbrev pub uncounted : Machine → Machine
uncounted s = let c = s.cpu in record s { cpu = record c { instruction_m_cycles_ticked = 0 } }

pub step-Runs :
    (b : Build) (s : Machine)
    → IsMachine s
    → Runs (Timed (opcode_at s)) 0 6 b (uncounted s) (step b s)
unfolding step reset_ticked is_halted
step-Runs b s v =
    let start = uncounted s in
    let w : IsMachine start = record { registers_ok = v.registers_ok; bus_ok = v.bus_ok } in
    choice-Runs (Timed (opcode_at s)) 0 6 b start s.cpu.halted step_halted run_instruction
      (step_halted-Runs b start w) (run_instruction-Runs b start w)

returned :
    (s : Machine) (o : Outcome (ℕ × Machine))
    → Runs (Timed (opcode_at s)) 0 6 release (uncounted s) o
    → (r : ℕ × Machine) × (o ≡ ok r) × Timed (opcode_at s) r.0 × IsMachine r.1
returned s (ok r) h = (r, refl, h.value, h.typed)
returned s panic h = cc

-- In a release build a step of a well-formed machine always returns, of whatever bytes it fetches:
-- it leaves a well-formed machine, and takes at most 24 cycles, and at least 4 unless the opcode
-- at PC is undocumented.
pub step-IsMachine :
    (s : Machine)
    → IsMachine s
    → (r : ℕ × Machine) × (step release s ≡ ok r) × Timed (opcode_at s) r.0 × IsMachine r.1
step-IsMachine s v = returned s (step release s) (step-Runs release s v)
