-- ===== src/Cpu/Times/Opcodes.antt =====
-- Every opcode against the tables.
use rust_gb_emulator.Base.{
  ℕ, ◌/◌, ◌<◌, ◌≤◌, Bool, true, false, if◌then◌else◌, leb, ltb, ◌==◌, ◌!=◌, ◌||◌, ◌&&◌, not, ◌≡◌,
  refl, ap, arith, debug, Outcome, ok, panic,
}
use mathlib.Core.Path.{subst}
use rust_gb_emulator.Base.Masks.{every_below, every_below_lem}
use rust_gb_emulator.Cpu.Machine.{Machine, panics}
use rust_gb_emulator.Cpu.Takes.{IsMachine, ticked, Runs, Takes, Any}
use rust_gb_emulator.Cpu.Accesses.{is_operand}
use rust_gb_emulator.Memory.IoReset.{byte_at}
use rust_gb_emulator.Cpu.Decode.{Arm, decode, alu_arm}
use rust_gb_emulator.Cpu.Registers.{from_index}
use rust_gb_emulator.Cpu.Execute.{run_arm, execute}
use rust_gb_emulator.Cpu.Tables.{opcode_duration}
use rust_gb_emulator.Cpu.Step.{contains, variable_cycle_opcodes, mismatch, check_timing}
use rust_gb_emulator.Cpu.Times.Conditions.{is_flag}
use rust_gb_emulator.Cpu.Times.Arms.{run_arm-Takes}
use rust_gb_emulator.Cpu.Times.Bounds.{is_arm, arm_least, arm_most}

-- An arm against the M-cycles of the table: exactly those, or at most those of a conditional one.
unfoldable pub in_time : ℕ → Arm → Bool
in_time opcode arm =
    let m_cycles = byte_at opcode_duration opcode / 4 in
    opcode == 0xCB
    || (if contains variable_cycle_opcodes opcode
        then leb (arm_most arm) m_cycles
        else arm_least arm == m_cycles && arm_most arm == m_cycles)

opcode_ok : ℕ → Bool
opcode_ok opcode = elim (decode opcode) [
  | ok arm ↦ is_arm arm && leb (arm_most arm) 6 && in_time opcode arm
  | panic ↦ false
]

opcodes_ok : every_below 256 opcode_ok ≡ true
unfolding every_below opcode_ok decode alu_arm from_index is_arm is_flag is_operand arm_least
    arm_most in_time
opcodes_ok = refl

-- What the table says of one opcode.
pub record Decoded (opcode : ℕ) : Type 0 where
  pub arm : Arm
  pub decoded : decode opcode ≡ ok arm
  pub fitting : is_arm arm ≡ true
  pub short : arm_most arm ≤ 6
  pub timely : in_time opcode arm ≡ true

found_arm :
    (opcode : ℕ) (o : Outcome Arm)
    → decode opcode ≡ o
    → elim o [ ok arm ↦ is_arm arm && leb (arm_most arm) 6 && in_time opcode arm | panic ↦ false ]
      ≡ true
    → Decoded opcode
found_arm opcode (ok arm) e h = record {
  arm = arm;
  decoded = e;
  fitting = ground arith;
  short = ground arith;
  timely = ground arith;
}
found_arm opcode panic e h = cc

pub decoded_lem : (opcode : ℕ) → opcode < 256 → Decoded opcode
unfolding opcode_ok
decoded_lem opcode h =
    found_arm opcode (decode opcode) refl (every_below_lem 256 opcode_ok opcode opcodes_ok h)

execute_arm : (opcode : ℕ) (arm : Arm) → decode opcode ≡ ok arm → execute opcode ≡ run_arm arm
unfolding execute
execute_arm opcode arm e = ap (λ (o : Outcome Arm). elim o [ ok a ↦ run_arm a | panic ↦ panics ]) e

pub execute-Takes :
    (opcode : ℕ) (d : Decoded opcode)
    → Takes Any (arm_least d.arm) (arm_most d.arm) (execute opcode)
execute-Takes opcode d = rw (execute_arm opcode d.arm d.decoded) (run_arm-Takes d.arm d.fitting)

-- The two tests, with the list's answer as a variable.
tests_agree :
    (variable : Bool) (opcode n m least most : ℕ)
    → (opcode == 0xCB || (if variable then leb most m else least == m && most == m)) ≡ true
    → least ≤ n
    → n ≤ most
    → (not variable && n != m && opcode != 0xCB || variable && ltb m n && opcode != 0xCB) ≡ false
tests_agree true opcode n m least most h k l = ground arith
tests_agree false opcode n m least most h k l = ground arith

within_time :
    (opcode n : ℕ) (arm : Arm)
    → in_time opcode arm ≡ true
    → arm_least arm ≤ n
    → n ≤ arm_most arm
    → mismatch opcode (byte_at opcode_duration opcode / 4) n ≡ false
unfolding in_time mismatch
within_time opcode n arm h k l =
    tests_agree (contains variable_cycle_opcodes opcode) opcode n
      (byte_at opcode_duration opcode / 4) (arm_least arm) (arm_most arm) h k l

unchecked :
    (opcode cycles : ℕ) (s : Machine)
    → mismatch opcode (cycles / 4) (ticked s) ≡ false
    → check_timing opcode cycles debug s ≡ ok (tt, s)
unfolding check_timing
unchecked opcode cycles s e = rw e refl

-- Whatever instruction a well-formed machine executes, of any of the 256 opcodes, in a debug build:
-- if it returns, it has counted the M-cycles of OPCODE_DURATION, or at most those where the opcode
-- is conditional, so that the check of `handle_post_instruction` never panics. The prefix 0xCB is
-- outside the check.
pub check_timing-execute :
    (opcode : ℕ) (s s' : Machine)
    → opcode < 256
    → IsMachine s
    → ticked s ≡ 0
    → execute opcode debug s ≡ ok (tt, s')
    → check_timing opcode (byte_at opcode_duration opcode) debug s' ≡ ok (tt, s')
check_timing-execute opcode s s' h v fresh e =
    let d = decoded_lem opcode h in
    let ran =
      subst
        (λ (o : Outcome (Unit {0} × Machine)).
          Runs Any (arm_least d.arm) (arm_most d.arm) debug s o)
        e ((execute-Takes opcode d).runs debug s v) in
    unchecked opcode (byte_at opcode_duration opcode) s' (
      within_time opcode (ticked s') d.arm d.timely (omega (arith, ran.least))
        (omega (arith, ran.most)))
