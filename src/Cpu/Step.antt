-- ===== src/Cpu/Step.antt =====
-- src/cpu.rs: `step`, with what follows each instruction.
use rust_gb_emulator.Base.{
  ℕ, ◌+◌, ◌/◌, bit_and, Bool, false, not, ◌&&◌, ◌||◌, ltb, ◌==◌, ◌!=◌, if◌then◌else◌, u16, List, [],
  ◌∷◌, debug, release, ok, panic,
}
use rust_gb_emulator.Memory
use rust_gb_emulator.Memory.IoReset.{byte_at}
use rust_gb_emulator.Cpu.Registers.{reg_pc}
use rust_gb_emulator.Cpu.Machine.{
  Exec, ◌>>=◌, ◌>>◌, return, read_r16, write_r16, write_ime, add_u16, peek,
}
use rust_gb_emulator.Cpu.Flow.{set_ei_pending, set_halted, set_halt_bug}
use rust_gb_emulator.Cpu.Tables.{opcode_duration, opcode_duration_cb, opcode_lengths}
use rust_gb_emulator.Cpu.Execute.{execute}

-- `array.contains(&x)`
abbrev pub contains : List ℕ → ℕ → Bool
contains [] x = false
contains (y ∷ rest) x = y == x || contains rest x

abbrev pub pc_modifying_opcodes : List ℕ
pc_modifying_opcodes =
    0xC3 ∷ 0xC2 ∷ 0xCA ∷ 0xD2 ∷ 0xDA ∷ 0xE9 ∷ 0x18 ∷ 0x20 ∷ 0x28 ∷ 0x30 ∷ 0x38 ∷ 0xCD ∷ 0xC4 ∷ 0xCC
    ∷ 0xD4 ∷ 0xDC ∷ 0xC9 ∷ 0xC0 ∷ 0xC8 ∷ 0xD0 ∷ 0xD8 ∷ 0xD9 ∷ 0xC7 ∷ 0xCF ∷ 0xD7 ∷ 0xDF ∷ 0xE7
    ∷ 0xEF ∷ 0xF7 ∷ 0xFF ∷ []

abbrev pub variable_cycle_opcodes : List ℕ
variable_cycle_opcodes =
    0x20 ∷ 0x28 ∷ 0x30 ∷ 0x38 ∷ 0xC0 ∷ 0xC8 ∷ 0xD0 ∷ 0xD8 ∷ 0xC2 ∷ 0xCA ∷ 0xD2 ∷ 0xDA ∷ 0xC4 ∷ 0xCC
    ∷ 0xD4 ∷ 0xDC ∷ 0xCB ∷ []

unfoldable pub is_halted : Exec Bool
is_halted b s = ok (s.cpu.halted, s)

unfoldable pub is_halt_bug : Exec Bool
is_halt_bug b s = ok (s.cpu.halt_bug, s)

unfoldable pub is_ei_pending : Exec Bool
is_ei_pending b s = ok (s.cpu.ei_pending, s)

-- The first statement of `step`.
unfoldable pub reset_ticked : Exec (Unit {0})
reset_ticked b s =
    let c = s.cpu in ok (tt, record s { cpu = record c { instruction_m_cycles_ticked = 0 } })

-- `mem.tick_components`, not counted.
unfoldable pub tick_memory : ℕ → Exec (Unit {0})
tick_memory m_cycles b s = elim (Memory.tick_components b m_cycles s.mem) [
  | ok mem' ↦ ok (tt, record s { mem = mem' })
  | panic ↦ panic
]

unfoldable pub add_cycles : ℕ → Exec (Unit {0})
add_cycles cycles b s =
    let c = s.cpu in ok (tt, record s { cpu = record c { cycles = c.cycles + cycles } })

unfoldable pub advance_pc : ℕ → Exec (Unit {0})
advance_pc opcode =
    if not (contains pc_modifying_opcodes opcode)
    then (do
      pc ← read_r16 reg_pc
      halt_bug ← is_halt_bug
      if halt_bug
          then set_halt_bug false
          else write_r16 reg_pc (u16 (pc + byte_at opcode_lengths opcode)))
    else return tt

unfoldable pub duration : ℕ → Exec ℕ
duration opcode =
    if opcode == 0xCB
    then (do
      pc ← read_r16 reg_pc
      next ← add_u16 pc 1
      cb_opcode ← peek next
      return (byte_at opcode_duration_cb cb_opcode))
    else return (byte_at opcode_duration opcode)

-- The tests on which a debug build panics. The inner test of 0xCB is never reached.
unfoldable pub mismatch : ℕ → ℕ → ℕ → Bool
mismatch opcode expected_m_cycles actual_m_cycles =
    let is_variable_cycle = contains variable_cycle_opcodes opcode in
    not is_variable_cycle && actual_m_cycles != expected_m_cycles && opcode != 0xCB
    || is_variable_cycle && ltb expected_m_cycles actual_m_cycles && opcode != 0xCB

unfoldable pub check_timing : ℕ → ℕ → Exec (Unit {0})
check_timing opcode cycles debug s =
    if mismatch opcode (cycles / 4) s.cpu.instruction_m_cycles_ticked then panic else ok (tt, s)
check_timing opcode cycles release s = ok (tt, s)

unfoldable pub handle_post_instruction : ℕ → Exec ℕ
handle_post_instruction opcode = do
  advance_pc opcode
  cycles ← duration opcode
  check_timing opcode cycles
  add_cycles cycles
  return cycles

-- The end of `step`: IME is set if an EI waits.
unfoldable pub enable_interrupts : Exec (Unit {0})
enable_interrupts = do
  pending ← is_ei_pending
  if pending then (do write_ime 1; set_ei_pending false) else return tt

-- `step` from the fetch on.
unfoldable pub run_instruction : Exec ℕ
run_instruction = do
  pc ← read_r16 reg_pc
  opcode ← peek pc
  execute opcode
  cycles ← handle_post_instruction opcode
  enable_interrupts
  return cycles

-- A halted processor waits for a cycle, or wakes up and goes on in the same step.
unfoldable pub step_halted : Exec ℕ
step_halted = do
  ie ← peek 0xFFFF
  if_reg ← peek 0xFF0F
  if bit_and (bit_and ie if_reg) 0x1F != 0
      then (do set_halted false; run_instruction)
      else (do tick_memory 1; return 4)

unfoldable pub step : Exec ℕ
step = do reset_ticked; halted ← is_halted; if halted then step_halted else run_instruction
