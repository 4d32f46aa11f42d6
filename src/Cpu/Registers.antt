-- ===== src/Cpu/Registers.antt =====
-- src/cpu.rs: the register file, its 8-bit halves, and the operands of the opcodes.
use rust_gb_emulator.Base.{ℕ, zero, suc, bit_and, bit_or, u8, ◌<<<◌, ◌>>>◌, Outcome, ok, panic}

pub data Reg8 : Type 0 where
  reg_a reg_b reg_c reg_d reg_e reg_h reg_l reg_f : Reg8

pub data Reg16 : Type 0 where
  reg_af reg_bc reg_de reg_hl reg_sp reg_pc : Reg16

pub data Operand : Type 0 where
  reg8 : Reg8 → Operand
  reg16 : Reg16 → Operand
  mem_hl mem_bc mem_de : Operand

unfoldable pub from_index : ℕ → Outcome Operand
from_index zero = ok (reg8 reg_b)
from_index (suc zero) = ok (reg8 reg_c)
from_index (suc (suc zero)) = ok (reg8 reg_d)
from_index (suc (suc (suc zero))) = ok (reg8 reg_e)
from_index (suc (suc (suc (suc zero)))) = ok (reg8 reg_h)
from_index (suc (suc (suc (suc (suc zero))))) = ok (reg8 reg_l)
from_index (suc (suc (suc (suc (suc (suc zero)))))) = ok mem_hl
from_index (suc (suc (suc (suc (suc (suc (suc zero))))))) = ok (reg8 reg_a)
from_index _ = panic

pub record Registers : Type 0 where
  pub af : ℕ  -- u16
  pub bc : ℕ  -- u16
  pub de : ℕ  -- u16
  pub hl : ℕ  -- u16
  pub sp : ℕ  -- u16
  pub pc : ℕ  -- u16
  pub ime : ℕ  -- u8

unfoldable pub read_r8 : Registers → Reg8 → ℕ
read_r8 r reg_a = u8 (r.af >>> 8)
read_r8 r reg_b = u8 (r.bc >>> 8)
read_r8 r reg_c = bit_and r.bc 0xFF
read_r8 r reg_d = u8 (r.de >>> 8)
read_r8 r reg_e = bit_and r.de 0xFF
read_r8 r reg_h = u8 (r.hl >>> 8)
read_r8 r reg_l = bit_and r.hl 0xFF
read_r8 r reg_f = bit_and r.af 0xFF

unfoldable pub read_r16 : Registers → Reg16 → ℕ
read_r16 r reg_af = r.af
read_r16 r reg_bc = r.bc
read_r16 r reg_de = r.de
read_r16 r reg_hl = r.hl
read_r16 r reg_sp = r.sp
read_r16 r reg_pc = r.pc

unfoldable pub write_r8 : Registers → Reg8 → ℕ → Registers
write_r8 r reg_a value = record r { af = bit_or (bit_and r.af 0xFF) (value <<< 8) }
write_r8 r reg_b value = record r { bc = bit_or (bit_and r.bc 0xFF) (value <<< 8) }
write_r8 r reg_c value = record r { bc = bit_or (bit_and r.bc 0xFF00) value }
write_r8 r reg_d value = record r { de = bit_or (bit_and r.de 0xFF) (value <<< 8) }
write_r8 r reg_e value = record r { de = bit_or (bit_and r.de 0xFF00) value }
write_r8 r reg_h value = record r { hl = bit_or (bit_and r.hl 0xFF) (value <<< 8) }
write_r8 r reg_l value = record r { hl = bit_or (bit_and r.hl 0xFF00) value }
write_r8 r reg_f value = record r { af = bit_or (bit_and r.af 0xFF00) (bit_and value 0xF0) }

unfoldable pub write_r16 : Registers → Reg16 → ℕ → Registers
write_r16 r reg_af value = record r { af = bit_and value 0xFFF0 }
write_r16 r reg_bc value = record r { bc = value }
write_r16 r reg_de value = record r { de = value }
write_r16 r reg_hl value = record r { hl = value }
write_r16 r reg_sp value = record r { sp = value }
write_r16 r reg_pc value = record r { pc = value }

unfoldable pub read_ime : Registers → ℕ
read_ime r = r.ime

unfoldable pub write_ime : Registers → ℕ → Registers
write_ime r value = record r { ime = value }
