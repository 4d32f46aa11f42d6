-- ===== src/Cpu/RunExamples.antt =====
-- The theorems on runs of the processor, at a small ROM.
use rust_gb_emulator.Base.{false, [], ◌∷◌, ok}
use rust_gb_emulator.Memory.IoReset.{byte_at}
use rust_gb_emulator.Memory.PowerOn.{new-IsBus}
use rust_gb_emulator.Cpu.Machine.{tick_internal}
use rust_gb_emulator.Ppu.Step
use rust_gb_emulator.Cpu.Flow
use rust_gb_emulator.Cpu.Execute.{execute, run_arm}
use rust_gb_emulator.Cpu.Decode.{decode}
use rust_gb_emulator.Cpu.Tables.{opcode_duration}
use rust_gb_emulator.Cpu.Step.{step, check_timing}
use rust_gb_emulator.Cpu.Takes.{IsMachine}
use rust_gb_emulator.Cpu.Alu.{add_a, sub_a}
use rust_gb_emulator.Cpu.Rotates.{daa}
use rust_gb_emulator.Cpu.Decimal.{Adjusts, decimal}
use rust_gb_emulator.Cpu.Times.Post.{Timed}
use rust_gb_emulator.Cpu.Times.Opcodes.{check_timing-execute}
use rust_gb_emulator.Cpu.Times.Steps.{opcode_at, uncounted, step-IsMachine}
use rust_gb_emulator.Cpu.Registers.{reg_bc, reg_de, reg_e, reg8, read_r8, read_r16, write_r16}
use rust_gb_emulator.Cpu.RegisterLaws.{same_reg}
use rust_gb_emulator.Cpu.Cb.{rlc_r, rrc_r, rl_r, rr_r, sla_r, sra_r, srl_r}
use rust_gb_emulator.Cpu.ShiftRuns.{Shifts}
use rust_gb_emulator.Cpu.Shifts.{shifts}
use rust_gb_emulator.Cpu.Machine.{◌>>◌}
use rust_gb_emulator.Cpu.Loads.{push, pop}
use rust_gb_emulator.Cpu.Flow.{push_and_jump, ret}
use rust_gb_emulator.Cpu.Stack.{push_and_jump-ret}
use rust_gb_emulator.Cpu.PushPop.{is_pair, push-pop}
use rust_gb_emulator.Cpu.Undocumented.{skipped, step_undocumented}
use rust_gb_emulator.Base.{true, false, ◌+◌, ℕ, ◌<◌, zero, suc, ◌≡◌, refl, arith, debug, release}
use rust_gb_emulator.Timer
use rust_gb_emulator.Serial
use rust_gb_emulator.Joypad
use rust_gb_emulator.Ppu.State
use rust_gb_emulator.Memory
use rust_gb_emulator.Memory.{Memory}
use rust_gb_emulator.Cpu.Registers.{Registers}
use rust_gb_emulator.Cpu.Machine.{Machine}

-- A ROM whose second byte is no opcode.
two_bytes : (i : ℕ) → byte_at (0x00 ∷ 0xD3 ∷ []) i < 256
two_bytes zero = omega arith
two_bytes (suc zero) = omega arith
two_bytes (suc (suc i)) = omega arith

abbrev byte_registers : Registers
byte_registers = record {
  af = 0x3C10;
  bc = 0x0013;
  de = 0x00D8;
  hl = 0x014D;
  sp = 0xDFFE;
  pc = 0;
  ime = 1;
}

-- The processor at its first byte, a NOP, with the stack in the work RAM.
abbrev fetching : Machine
fetching = record {
  cpu = record {
    registers = byte_registers;
    cycles = 0;
    ei_pending = false;
    halted = false;
    halt_bug = false;
    instruction_m_cycles_ticked = 0;
  };
  mem = Memory.new (0x00 ∷ 0xD3 ∷ []);
}

fetching-IsMachine : IsMachine fetching
fetching-IsMachine = record {
  registers_ok = ground arith;
  bus_ok = new-IsBus (0x00 ∷ 0xD3 ∷ []) two_bytes;
}

-- The processor at the byte behind it.
abbrev astray : Machine
astray =
    let c = fetching.cpu in
    record fetching { cpu = record c { registers = record byte_registers { pc = 1 } } }

-- One M-cycle later.
abbrev after_nop : Machine
after_nop =
    let c = fetching.cpu in
    let m = fetching.mem in
    let t = Timer.new in
    let p = State.new in
    record {
      cpu = record c { instruction_m_cycles_ticked = 1 };
      mem = record m {
        timer = record t { internal_counter = t.internal_counter + 4 };
        ppu = record p { mode_cycles = 4 };
      };
    }

step-IsMachine_example :
    (r : ℕ × Machine) × (step release fetching ≡ ok r)
    × Timed (opcode_at fetching) r.0
    × IsMachine r.1
step-IsMachine_example = step-IsMachine fetching fetching-IsMachine

executes_nop : execute 0x00 debug fetching ≡ ok (tt, after_nop)
unfolding execute decode run_arm Flow.nop tick_internal Memory.tick_components Timer.tick
    Timer.tick_cycles Timer.tick_cycle Memory.tick_dma Step.step Memory.new Timer.new State.new
    Serial.new Joypad.new Step.step_mode Timer.falling_edge Step.step_oam_scan
    Timer.get_timer_enable_bit
executes_nop = refl

check_timing-execute_example :
    check_timing 0x00 (byte_at opcode_duration 0x00) debug after_nop ≡ ok (tt, after_nop)
check_timing-execute_example =
    check_timing-execute 0x00 fetching after_nop (omega arith) fetching-IsMachine refl executes_nop

astray_opcode : opcode_at astray ≡ 0xD3
unfolding Memory.read_8 Memory.new
astray_opcode = refl

step_undocumented_example : step debug astray ≡ ok (0, skipped (uncounted astray))
step_undocumented_example =
    step_undocumented debug astray (rw astray_opcode refl) refl refl refl (omega arith)

push_and_jump-ret_example :
    (s' : Machine) × ((do push_and_jump 0x0150 0x0038; ret) debug fetching ≡ ok (tt, s'))
    × (s'.cpu.registers ≡ record byte_registers { pc = 0x0150 })
    × IsMachine s'
push_and_jump-ret_example =
    push_and_jump-ret debug fetching 0x0150 0x0038 fetching-IsMachine (omega arith) (omega arith)
      (omega arith) (omega arith)

push-pop_example :
    (s' : Machine) × ((do push reg_bc; pop reg_de) release fetching ≡ ok (tt, s'))
    × (s'.cpu.registers ≡ write_r16 byte_registers reg_de (read_r16 byte_registers reg_bc))
    × IsMachine s'
unfolding is_pair
push-pop_example =
    push-pop release fetching reg_bc reg_de fetching-IsMachine refl (omega arith) (omega arith)

-- The rotates and shifts of E, which is 0xD8, with C set.
shifts_example :
    Shifts fetching (rlc_r (reg8 reg_e) release fetching) reg_e 0xB1 true
    × Shifts fetching (rrc_r (reg8 reg_e) release fetching) reg_e 0x6C false
    × Shifts fetching (rl_r (reg8 reg_e) release fetching) reg_e 0xB1 true
    × Shifts fetching (rr_r (reg8 reg_e) release fetching) reg_e 0xEC false
    × Shifts fetching (sla_r (reg8 reg_e) release fetching) reg_e 0xB0 true
    × Shifts fetching (sra_r (reg8 reg_e) release fetching) reg_e 0xEC false
    × Shifts fetching (srl_r (reg8 reg_e) release fetching) reg_e 0x6C false
unfolding read_r8 same_reg
shifts_example = shifts release fetching reg_e fetching-IsMachine refl

-- A holds the digits of 38.
abbrev decimal_machine : Machine
decimal_machine =
    let c = fetching.cpu in
    record fetching { cpu = record c { registers = record byte_registers { af = 0x3810 } } }

decimal_machine-IsMachine : IsMachine decimal_machine
decimal_machine-IsMachine = record {
  registers_ok = ground arith;
  bus_ok = fetching-IsMachine.bus_ok;
}

-- 38 and 43 are 81 (F is 0), and 38 less 43 is 95 with a borrow (N and C).
decimal_example :
    Adjusts decimal_machine ((do add_a 0x43; daa) debug decimal_machine) 0x81 0
    × Adjusts decimal_machine ((do sub_a 0x43; daa) debug decimal_machine) 0x95 0x50
unfolding read_r8
decimal_example =
    decimal debug decimal_machine 38 43 decimal_machine-IsMachine refl (omega arith) (omega arith)
