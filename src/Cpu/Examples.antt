-- ===== src/Cpu/Examples.antt =====
-- The processor's theorems at concrete registers and machines.
use rust_gb_emulator.Base.{
  ◌&&◌, ◌==◌, ◌∙◌, ℕ, ◌/◌, ◌%◌, ◌^◌, ◌<◌, zero, suc, ◌≡◌, refl, arith, debug, release, true, false,
  set_at, filled, bit_and,
}
use rust_gb_emulator.Timer
use rust_gb_emulator.Serial
use rust_gb_emulator.Joypad
use rust_gb_emulator.Ppu.State
use rust_gb_emulator.Memory
use rust_gb_emulator.Memory.{Memory}
use rust_gb_emulator.Cpu.Registers.{Registers, reg_f, read_r8, write_r8}
use rust_gb_emulator.Cpu.RegisterLaws.{IsRegisters, same_reg, kept, read_r8-write_r8}
use rust_gb_emulator.Cpu.Machine.{Machine}
use rust_gb_emulator.Cpu.Flags.{flag_bits, Computes}
use rust_gb_emulator.Cpu.Alu.{add_a, adc_a, sub_a, sbc_a, cp_a, and_a, xor_a, or_a}
use rust_gb_emulator.Cpu.Additions.{additions}
use rust_gb_emulator.Cpu.Subtractions.{subtractions}
use rust_gb_emulator.Cpu.Logic.{logic}
use rust_gb_emulator.Cpu.Requests.{
  interrupt_flags, interrupt_enables, Requested, handle_interrupts-Requested,
}
use rust_gb_emulator.Cpu.Interrupts.{request_flags, clear_sources, sync_requests, handle_interrupts}
use rust_gb_emulator.Cpu.Priority.{
  pending, Serviced, handle_interrupts-lowest, handle_interrupts-ime_off,
}

-- A = 0x3C and C set.
abbrev some_registers : Registers
some_registers = record {
  af = 0x3C10;
  bc = 0x0013;
  de = 0x00D8;
  hl = 0x014D;
  sp = 0xFFFE;
  pc = 0x0100;
  ime = 1;
}

some_registers-IsRegisters : IsRegisters some_registers
some_registers-IsRegisters = ground arith

-- IE enables the timer and the joypad, and IF asks for both.
abbrev some_machine : Machine
some_machine = record {
  cpu = record {
    registers = some_registers;
    cycles = 100;
    ei_pending = false;
    halted = true;
    halt_bug = false;
    instruction_m_cycles_ticked = 0;
  };
  mem = record {
    main_memory = set_at (set_at (filled 0) 0xFFFF 0x14) 0xFF0F 0x14;
    rom = filled 0;
    rom_loaded = true;
    current_rom_bank = 1;
    timer = Timer.new;
    serial = Serial.new;
    ppu = State.new;
    joypad = Joypad.new;
    dma_active = false;
    dma_cycles_remaining = 0;
    dma_source = 0;
    suppress_io_side_effects = false;
  };
}

read_r8-write_r8_example :
    (read_r8 (write_r8 some_registers reg_f 0xFF) reg_f ≡ 0xF0)
    × IsRegisters (write_r8 some_registers reg_f 0xFF)
unfolding same_reg kept
read_r8-write_r8_example =
    read_r8-write_r8 some_registers reg_f reg_f 0xFF some_registers-IsRegisters (omega arith)

additions_example :
    Computes some_machine (add_a 0xC4 debug some_machine) 0 (flag_bits true false true true)
    × Computes some_machine (adc_a 0xC4 debug some_machine) 1 (flag_bits false false true true)
unfolding read_r8
additions_example = additions debug 0xC4 some_machine some_registers-IsRegisters (omega arith)

subtractions_example :
    Computes some_machine (sub_a 0x3C release some_machine) 0 (flag_bits true true false false)
    × Computes some_machine (sbc_a 0x3C release some_machine) 255 (flag_bits false true true true)
    × Computes some_machine (cp_a 0x3C release some_machine) 0x3C (flag_bits true true false false)
unfolding read_r8
subtractions_example =
    subtractions release 0x3C some_machine some_registers-IsRegisters (omega arith)

logic_example :
    Computes some_machine (and_a 0x0F debug some_machine) 0x0C (flag_bits false false true false)
    × Computes some_machine (xor_a 0x0F debug some_machine) 0x33 (flag_bits false false false false)
    × Computes some_machine (or_a 0x0F debug some_machine) 0x3F (flag_bits false false false false)
unfolding read_r8
logic_example = logic debug 0x0F some_machine some_registers-IsRegisters (omega arith)

-- The timer's bit 2 comes before the joypad's bit 4.
some_pending : pending some_machine ≡ 0x14
unfolding sync_requests request_flags clear_sources Memory.read_8 Memory.write_8 Timer.new
    Serial.new Joypad.new State.new
some_pending = refl

handle_interrupts-lowest_example : Serviced 2 some_machine (handle_interrupts some_machine)
handle_interrupts-lowest_example =
    handle_interrupts-lowest some_machine 2 refl (omega arith) (rw some_pending refl)
      (λ j below. rw some_pending (lower j below))
  where
    lower : (j : ℕ) → j < 2 → 20 / 2 ^ j % 2 ≡ 0
    lower zero below = refl
    lower (suc zero) below = refl
    lower (suc (suc j)) below = absurd (omega arith)

-- The same machine with IME off: it wakes up, and goes on where it was.
abbrev masked_machine : Machine
masked_machine =
    let c = some_machine.cpu in
    record some_machine { cpu = record c { registers = record some_registers { ime = 0 } } }

masked_pending : pending masked_machine ≡ 0x14
unfolding sync_requests request_flags clear_sources Memory.read_8 Memory.write_8 Timer.new
    Serial.new Joypad.new State.new
masked_pending = refl

handle_interrupts-Requested_example :
    let s' = handle_interrupts masked_machine in
    (s'.cpu.registers ≡ masked_machine.cpu.registers)
    × (s'.cpu.cycles ≡ 100)
    × Requested masked_machine.mem s'.mem
    × (s'.cpu.halted ≡ true && (bit_and (interrupt_enables s'.mem) (interrupt_flags s'.mem) == 0))
handle_interrupts-Requested_example = handle_interrupts-Requested masked_machine refl

masked_wakes : (handle_interrupts masked_machine).cpu.halted ≡ false
masked_wakes = (handle_interrupts-ime_off masked_machine refl).3 ∙ rw masked_pending refl
