-- ===== src/Cpu/Machine.antt =====
-- src/cpu.rs: the processor's state, and its accesses to memory, each of which ticks the timer and
-- the picture unit. A method that takes `&mut self` and `&mut Memory` is an `Exec`.
use rust_gb_emulator.Base.{
  ℕ, ◌+◌, ◌*◌, bit_and, Bool, false, ◌>>>◌, Build, Outcome, ok, panic, fit, minus,
}
use rust_gb_emulator.Memory
use rust_gb_emulator.Memory.{Memory}
use rust_gb_emulator.Cpu.Registers
use rust_gb_emulator.Cpu.Registers.{
  Reg8, Reg16, Operand, reg8, reg16, mem_hl, mem_bc, mem_de, reg_hl, reg_bc, reg_de,
}

-- The field `instruction_m_cycles_ticked` exists in debug builds alone; a release build reads none.
pub record Cpu : Type 0 where
  pub registers : Registers.Registers
  pub cycles : ℕ  -- u64
  pub ei_pending : Bool
  pub halted : Bool
  pub halt_bug : Bool
  pub instruction_m_cycles_ticked : ℕ  -- u32

pub record Machine : Type 0 where
  pub cpu : Cpu
  pub mem : Memory

unfoldable pub new : Cpu
new = record {
  registers = record { af = 0; bc = 0; de = 0; hl = 0; sp = 0; pc = 0; ime = 0 };
  cycles = 0;
  ei_pending = false;
  halted = false;
  halt_bug = false;
  instruction_m_cycles_ticked = 0;
}

abbrev pub Exec : Type 0 → Type 0
Exec A = Build → Machine → Outcome (A × Machine)

infixl 5 ◌>>=◌ ◌>>◌
abbrev pub ◌>>=◌ : {A B : Type 0} → Exec A → (A → Exec B) → Exec B
◌>>=◌ e f b s = elim (e b s) [ ok r ↦ f r.0 b r.1 | panic ↦ panic ]

abbrev pub ◌>>◌ : {B : Type 0} → Exec (Unit {0}) → Exec B → Exec B
◌>>◌ e f b s = elim (e b s) [ ok r ↦ f b r.1 | panic ↦ panic ]

abbrev pub return : {A : Type 0} → A → Exec A
return a b s = ok (a, s)

abbrev pub panics : {A : Type 0} → Exec A
panics b s = panic

unfoldable pub read_r8 : Reg8 → Exec ℕ
read_r8 x b s = ok (Registers.read_r8 s.cpu.registers x, s)

unfoldable pub read_r16 : Reg16 → Exec ℕ
read_r16 x b s = ok (Registers.read_r16 s.cpu.registers x, s)

unfoldable pub set_registers : Registers.Registers → Machine → Machine
set_registers r s = let c = s.cpu in record s { cpu = record c { registers = r } }

unfoldable pub write_r8 : Reg8 → ℕ → Exec (Unit {0})
write_r8 x v b s = ok (tt, set_registers (Registers.write_r8 s.cpu.registers x v) s)

unfoldable pub write_r16 : Reg16 → ℕ → Exec (Unit {0})
write_r16 x v b s = ok (tt, set_registers (Registers.write_r16 s.cpu.registers x v) s)

unfoldable pub write_ime : ℕ → Exec (Unit {0})
write_ime v b s = ok (tt, set_registers (Registers.write_ime s.cpu.registers v) s)

-- `x + y` of type u16.
unfoldable pub add_u16 : ℕ → ℕ → Exec ℕ
add_u16 x y b s = elim (fit b 16 (x + y)) [ ok z ↦ ok (z, s) | panic ↦ panic ]

-- `x - y` of type u16.
unfoldable pub sub_u16 : ℕ → ℕ → Exec ℕ
sub_u16 x y b s = elim (minus b 16 x y) [ ok z ↦ ok (z, s) | panic ↦ panic ]

-- `mem.read_8`, with no tick.
unfoldable pub peek : ℕ → Exec ℕ
peek address b s = ok (Memory.read_8 s.mem address, s)

-- `mem.write_8`, with no tick.
unfoldable pub poke : ℕ → ℕ → Exec (Unit {0})
poke address value b s = ok (tt, record s { mem = Memory.write_8 s.mem address value })

-- `mem.tick_components`, and the count of a debug build.
unfoldable pub tick_internal : ℕ → Exec (Unit {0})
tick_internal m_cycles b s =
    let c = s.cpu in
    elim (Memory.tick_components b m_cycles s.mem) [
      | ok mem' ↦ ok (
        tt,
        record s {
          cpu = record c { instruction_m_cycles_ticked = c.instruction_m_cycles_ticked + m_cycles };
          mem = mem';
        },
      )
      | panic ↦ panic
    ]

unfoldable pub read_byte_tick : ℕ → Exec ℕ
read_byte_tick address = do value ← peek address; tick_internal 1; return value

unfoldable pub write_byte_tick : ℕ → ℕ → Exec (Unit {0})
write_byte_tick address value = do poke address value; tick_internal 1

-- `u16::from_le_bytes([lo, hi])`, two bytes.
unfoldable pub read_word_tick : ℕ → Exec ℕ
read_word_tick address = do
  lo ← read_byte_tick address
  next ← add_u16 address 1
  hi ← read_byte_tick next
  return (lo + hi * 256)

unfoldable pub write_word_tick : ℕ → ℕ → Exec (Unit {0})
write_word_tick address value = do
  write_byte_tick address (bit_and value 0xFF)
  next ← add_u16 address 1
  write_byte_tick next (value >>> 8)

unfoldable pub read_operand : Operand → Exec ℕ
read_operand (reg8 x) = read_r8 x
read_operand mem_hl = do address ← read_r16 reg_hl; peek address
read_operand mem_bc = do address ← read_r16 reg_bc; peek address
read_operand mem_de = do address ← read_r16 reg_de; peek address
read_operand (reg16 x) = panics

unfoldable pub write_operand : Operand → ℕ → Exec (Unit {0})
write_operand (reg8 x) value = write_r8 x value
write_operand mem_hl value = do address ← read_r16 reg_hl; poke address value
write_operand mem_bc value = do address ← read_r16 reg_bc; poke address value
write_operand mem_de value = do address ← read_r16 reg_de; poke address value
write_operand (reg16 x) value = panics
