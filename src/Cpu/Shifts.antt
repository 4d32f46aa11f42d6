-- ===== src/Cpu/Shifts.antt =====
-- The rotates and shifts behind 0xCB on a register: the register, the flags, and the rest.
use rust_gb_emulator.Base.{
  ℕ, zero, suc, ◌+◌, ◌*◌, ◌/◌, ◌%◌, ◌<◌, bit_and, bit_or, Bool, false, if◌then◌else◌, u8, ◌>>>◌,
  ◌<<<◌, ◌==◌, ◌!=◌, ◌≡◌, refl, ap, ◌∙◌, arith, Build,
}
use mathlib.Core.Path.{subst}
use rust_gb_emulator.Base.Masks.{byte_table, every_below, bit_and_bit}
use rust_gb_emulator.Cpu.Registers
use rust_gb_emulator.Cpu.Registers.{
  Registers, Reg8, reg8, reg_a, reg_b, reg_c, reg_d, reg_e, reg_h, reg_l, reg_f,
}
use rust_gb_emulator.Cpu.RegisterLaws.{same_reg}
use rust_gb_emulator.Cpu.Machine.{Machine}
use rust_gb_emulator.Cpu.Loads.{carry_flag}
use rust_gb_emulator.Cpu.Cb.{
  rotate_left_1, rotate_right_1, arithmetic_right_1, rlc_r, rrc_r, rl_r, rr_r, sla_r, sra_r, srl_r,
}
use rust_gb_emulator.Cpu.Takes.{IsMachine}
use rust_gb_emulator.Cpu.RegisterTypes.{byte_of}
use rust_gb_emulator.Cpu.ShiftRuns.{shift_op, Shifts, shift_op-Shifts}

-- The results as quotients and remainders.
left_result : (v : ℕ) → v < 256 → rotate_left_1 v ≡ v * 2 % 256 + v / 128
unfolding every_below rotate_left_1
left_result v h = byte_table rotate_left_1 (λ v. v * 2 % 256 + v / 128) v refl h

right_result : (v : ℕ) → v < 256 → rotate_right_1 v ≡ v / 2 + v % 2 * 128
unfolding every_below rotate_right_1
right_result v h = byte_table rotate_right_1 (λ v. v / 2 + v % 2 * 128) v refl h

signed_result : (v : ℕ) → v < 256 → arithmetic_right_1 v ≡ v / 2 + v / 128 * 128
unfolding every_below arithmetic_right_1
signed_result v h = byte_table arithmetic_right_1 (λ v. v / 2 + v / 128 * 128) v refl h

abbrev carry_in : ℕ → ℕ
carry_in flags = if bit_and flags carry_flag != 0 then 1 else 0

left_carry : (v c : ℕ) → v < 256 → c < 2 → bit_or (u8 (v <<< 1)) c ≡ v * 2 % 256 + c
unfolding every_below
left_carry v zero h k = byte_table (λ v. bit_or (u8 (v <<< 1)) 0) (λ v. v * 2 % 256 + 0) v refl h
left_carry v (suc zero) h k =
    byte_table (λ v. bit_or (u8 (v <<< 1)) 1) (λ v. v * 2 % 256 + 1) v refl h
left_carry v (suc (suc c)) h k = absurd (omega arith)

right_carry : (v c : ℕ) → v < 256 → c < 2 → bit_or (v >>> 1) (u8 (c <<< 7)) ≡ v / 2 + c * 128
unfolding every_below
right_carry v zero h k = byte_table (λ v. bit_or (v >>> 1) (u8 (0 <<< 7))) (λ v. v / 2 + 0) v refl h
right_carry v (suc zero) h k =
    byte_table (λ v. bit_or (v >>> 1) (u8 (1 <<< 7))) (λ v. v / 2 + 128) v refl h
right_carry v (suc (suc c)) h k = absurd (omega arith)

carry_is : (f : ℕ) → carry_in f ≡ f / 16 % 2
carry_is f = ground (arith, bit_and_bit 4 f)

top_bit : (v : ℕ) → v < 256 → (bit_and v 0x80 != 0) ≡ (v / 128 == 1)
top_bit v h = ground (arith, bit_and_bit 7 v)

low_bit : (v : ℕ) → (bit_and v 0x01 != 0) ≡ (v % 2 == 1)
low_bit v = ground (arith, bit_and_bit 0 v)

shift_as :
    (b : Build) (s : Machine) (result : ℕ → ℕ → ℕ) (out : ℕ → ℕ) (x : Reg8) (shown : ℕ)
    (leaves : Bool)
    → IsMachine s
    → same_reg reg_f x ≡ false
    → let v = Registers.read_r8 s.cpu.registers x in
      let f = Registers.read_r8 s.cpu.registers reg_f in
      shown < 256
      → result v f ≡ shown
      → (out v != 0) ≡ leaves
      → Shifts s (shift_op result out x b s) x shown leaves
shift_as b s result out x shown leaves v other small e e' =
    subst (λ (q : ℕ × Bool). Shifts s (shift_op result out x b s) x q.0 q.1) (λ i. (e i, e' i))
      (shift_op-Shifts b s result out x v other (rw e small))

-- On a well-formed machine, with any 8-bit register but F, the rotates and shifts return in both
-- builds. RLC and RRC turn the byte by one place, RL and RR turn it through C, SLA and SRL shift a 0
-- in, and SRA keeps the sign. C is the bit that leaves, Z says that the result is 0, N and H are
-- clear, and the other 8-bit registers, SP, PC, IME and the RAM are as before.
pub shifts :
    (b : Build) (s : Machine) (x : Reg8)
    → IsMachine s
    → same_reg reg_f x ≡ false
    → let v = Registers.read_r8 s.cpu.registers x in
      let c = Registers.read_r8 s.cpu.registers reg_f / 16 % 2 in
      Shifts s (rlc_r (reg8 x) b s) x (v * 2 % 256 + v / 128) (v / 128 == 1)
      × Shifts s (rrc_r (reg8 x) b s) x (v / 2 + v % 2 * 128) (v % 2 == 1)
      × Shifts s (rl_r (reg8 x) b s) x (v * 2 % 256 + c) (v / 128 == 1)
      × Shifts s (rr_r (reg8 x) b s) x (v / 2 + c * 128) (v % 2 == 1)
      × Shifts s (sla_r (reg8 x) b s) x (v * 2 % 256) (v / 128 == 1)
      × Shifts s (sra_r (reg8 x) b s) x (v / 2 + v / 128 * 128) (v % 2 == 1)
      × Shifts s (srl_r (reg8 x) b s) x (v / 2) (v % 2 == 1)
unfolding rlc_r rrc_r rl_r rr_r sla_r sra_r srl_r
shifts b s x ok_machine other =
    let v = Registers.read_r8 s.cpu.registers x in
    let f = Registers.read_r8 s.cpu.registers reg_f in
    let c = f / 16 % 2 in
    let h : v < 256 = byte_of s.cpu.registers x ok_machine.registers_ok in
    let bit : c < 2 = omega arith in
    let top = top_bit v h in
    let high : ℕ → ℕ = λ v. bit_and v 0x80 in
    let low : ℕ → ℕ = λ v. bit_and v 0x01 in
    (
      shift_as b s (λ v f. rotate_left_1 v) high x (v * 2 % 256 + v / 128) (v / 128 == 1) ok_machine
          other (omega arith) (left_result v h) top,
      shift_as b s (λ v f. rotate_right_1 v) low x (v / 2 + v % 2 * 128) (v % 2 == 1) ok_machine
          other (omega arith) (right_result v h) (low_bit v),
      shift_as b s (λ v f. bit_or (u8 (v <<< 1)) (carry_in f)) high x (v * 2 % 256 + c)
          (v / 128 == 1) ok_machine other (omega arith)
          (ap (λ n. bit_or (u8 (v <<< 1)) n) (carry_is f) ∙ left_carry v c h bit) top,
      shift_as b s (λ v f. bit_or (v >>> 1) (u8 (carry_in f <<< 7))) low x (v / 2 + c * 128)
          (v % 2 == 1) ok_machine other (omega arith)
          (ap (λ n. bit_or (v >>> 1) (u8 (n <<< 7))) (carry_is f) ∙ right_carry v c h bit)
          (low_bit v),
      shift_as b s (λ v f. u8 (v <<< 1)) high x (v * 2 % 256) (v / 128 == 1) ok_machine other
          (omega arith) (omega arith) top,
      shift_as b s (λ v f. arithmetic_right_1 v) low x (v / 2 + v / 128 * 128) (v % 2 == 1)
          ok_machine other (omega arith) (signed_result v h) (low_bit v),
      shift_as b s (λ v f. v >>> 1) low x (v / 2) (v % 2 == 1) ok_machine other (omega arith)
          (omega arith) (low_bit v),
    )
