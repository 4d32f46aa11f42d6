-- ===== src/Cpu/RegisterRuns.antt =====
-- Reads and writes of 8-bit registers as runs, and the registers that they leave alone.
use rust_gb_emulator.Base.{ℕ, ◌<◌, ◌≡◌, refl, ap, ◌∙◌, Build, ok, Bytes}
use rust_gb_emulator.Cpu.Registers
use rust_gb_emulator.Cpu.Registers.{
  Registers, Reg8, reg_a, reg_b, reg_c, reg_d, reg_e, reg_h, reg_l, reg_f,
}
use rust_gb_emulator.Cpu.RegisterLaws.{write_r8-IsRegisters}
use rust_gb_emulator.Cpu.Machine.{Machine, read_r8, write_r8, set_registers}
use rust_gb_emulator.Cpu.Takes.{IsMachine}
use rust_gb_emulator.Cpu.RamAccesses.{Leaves}

-- SP, PC and IME are the same.
abbrev pub SameCounters : Registers → Registers → Type 0
SameCounters r q = (q.sp ≡ r.sp) × (q.pc ≡ r.pc) × (q.ime ≡ r.ime)

pub write_r8-SameCounters :
    (r : Registers) (x : Reg8) (value : ℕ) → SameCounters r (Registers.write_r8 r x value)
unfolding Registers.write_r8
write_r8-SameCounters r reg_a value = (refl, refl, refl)
write_r8-SameCounters r reg_b value = (refl, refl, refl)
write_r8-SameCounters r reg_c value = (refl, refl, refl)
write_r8-SameCounters r reg_d value = (refl, refl, refl)
write_r8-SameCounters r reg_e value = (refl, refl, refl)
write_r8-SameCounters r reg_h value = (refl, refl, refl)
write_r8-SameCounters r reg_l value = (refl, refl, refl)
write_r8-SameCounters r reg_f value = (refl, refl, refl)

-- The same after two writes.
pub two_writes-SameCounters :
    (r : Registers) (x y : Reg8) (value value' : ℕ)
    → SameCounters r (Registers.write_r8 (Registers.write_r8 r x value) y value')
two_writes-SameCounters r x y value value' =
    let q = Registers.write_r8 r x value in
    let first = write_r8-SameCounters r x value in
    let second = write_r8-SameCounters q y value' in
    (second.0 ∙ first.0, second.1 ∙ first.1, second.2 ∙ first.2)

pub read_r8-Leaves :
    (b : Build) (x : Reg8) (r : Registers) (ram : Bytes) (t : Machine)
    → IsMachine t
    → t.cpu.registers ≡ r
    → t.mem.main_memory ≡ ram
    → Leaves (read_r8 x b t) (Registers.read_r8 r x) r ram
unfolding read_r8
read_r8-Leaves b x r ram t v e f = record {
  machine = t;
  returns = ap (λ q. ok (Registers.read_r8 q x, t)) e;
  typed = v;
  registers_are = e;
  ram_is = f;
}

pub write_r8-Leaves :
    (b : Build) (x : Reg8) (value : ℕ) (r : Registers) (ram : Bytes) (t : Machine)
    → value < 256
    → IsMachine t
    → t.cpu.registers ≡ r
    → t.mem.main_memory ≡ ram
    → Leaves (write_r8 x value b t) tt (Registers.write_r8 r x value) ram
unfolding write_r8 set_registers
write_r8-Leaves b x value r ram t h v e f = record {
  machine = set_registers (Registers.write_r8 t.cpu.registers x value) t;
  returns = refl;
  typed = record {
    registers_ok = write_r8-IsRegisters t.cpu.registers x value v.registers_ok h;
    bus_ok = v.bus_ok;
  };
  registers_are = ap (λ q. Registers.write_r8 q x value) e;
  ram_is = f;
}
