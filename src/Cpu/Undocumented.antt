-- ===== src/Cpu/Undocumented.antt =====
-- What a step does at an opcode that no instruction has.
use rust_gb_emulator.Base.{
  ℕ, ◌+◌, ◌<◌, Bool, true, false, not, if◌then◌else◌, ◌==◌, ◌||◌, ◌&&◌, ◌≡◌, refl, ap, sym, ◌∙◌,
  arith, List, [], ◌∷◌, Build, debug, release, Outcome, ok, panic, Bool-cases, inl, inr,
}
use mathlib.Core.Path.{subst}
use rust_gb_emulator.Base.Tests.{==_iff}
use rust_gb_emulator.Memory.IoReset.{byte_at}
use rust_gb_emulator.Cpu.Registers
use rust_gb_emulator.Cpu.Registers.{reg_pc}
use rust_gb_emulator.Cpu.Machine.{
  Machine, Exec, ◌>>=◌, ◌>>◌, return, set_registers, read_r16, write_r16, write_ime, add_u16, peek,
}
use rust_gb_emulator.Cpu.Flow.{set_ei_pending}
use rust_gb_emulator.Cpu.Decode.{Arm, decode}
use rust_gb_emulator.Cpu.Execute.{execute, run_arm, unknown}
use rust_gb_emulator.Cpu.Tables.{opcode_duration, opcode_lengths}
use rust_gb_emulator.Cpu.Step.{
  contains, pc_modifying_opcodes, variable_cycle_opcodes, mismatch, is_halted, is_halt_bug,
  is_ei_pending, reset_ticked, add_cycles, advance_pc, duration, check_timing,
  handle_post_instruction, enable_interrupts, run_instruction, step_halted, step,
}
use rust_gb_emulator.Cpu.Times.Post.{undocumented_opcodes}
use rust_gb_emulator.Cpu.Times.Steps.{opcode_at, uncounted}

-- A predicate that holds of each number of a list.
abbrev Each : (ℕ → Type 0) → List ℕ → Type 0
Each P [] = Unit {0}
Each P (x ∷ rest) = P x × Each P rest

member :
    (P : ℕ → Type 0) (x y : ℕ) (rest : Bool)
    → P y
    → (y == x || rest) ≡ true
    → (rest ≡ true → P x)
    → P x
member P x y rest h e later = elim (Bool-cases (y == x)) [
  | inl same ↦ subst P ((==_iff y x).0 same) h
  | inr other ↦ later (sym (ap (λ (t : Bool). t || rest) other) ∙ e)
]

each_lem : (P : ℕ → Type 0) (list : List ℕ) (x : ℕ) → Each P list → contains list x ≡ true → P x
each_lem P [] x h e = cc
each_lem P (y ∷ rest) x (first, others) e =
    member P x y (contains rest x) first e (each_lem P rest x others)

-- What the tables say of an opcode that has no length and no duration, and is in no list.
abbrev unlisted : ℕ → Bool
unlisted n =
    byte_at opcode_lengths n == 0
    && byte_at opcode_duration n == 0
    && not (contains pc_modifying_opcodes n)
    && not (contains variable_cycle_opcodes n)
    && not (n == 0xCB)

facts :
    (opcode : ℕ)
    → contains undocumented_opcodes opcode ≡ true
    → (decode opcode ≡ ok Arm.unknown) × (unlisted opcode ≡ true)
unfolding decode
facts opcode =
    each_lem (λ n. (decode n ≡ ok Arm.unknown) × (unlisted n ≡ true)) undocumented_opcodes opcode
      (
        (refl, refl),
        (
          (refl, refl),
          (
            (refl, refl),
            (
              (refl, refl),
              (
                (refl, refl),
                (
                  (refl, refl),
                  (
                    (refl, refl),
                    ((refl, refl), ((refl, refl), ((refl, refl), ((refl, refl), tt)))),
                  ),
                ),
              ),
            ),
          ),
        ),
      )

record Unlisted (opcode : ℕ) : Type 0 where
  no_length : byte_at opcode_lengths opcode ≡ 0
  no_time : byte_at opcode_duration opcode ≡ 0
  no_jump : contains pc_modifying_opcodes opcode ≡ false
  no_variation : contains variable_cycle_opcodes opcode ≡ false
  no_prefix : (opcode == 0xCB) ≡ false

split_unlisted :
    (length time : ℕ) (jumps varies prefixed : Bool)
    → (length == 0 && time == 0 && not jumps && not varies && not prefixed) ≡ true
    → (length ≡ 0) × (time ≡ 0) × (jumps ≡ false) × (varies ≡ false) × (prefixed ≡ false)
split_unlisted length time jumps varies prefixed e = ground arith

unlisted_lem : (opcode : ℕ) → contains undocumented_opcodes opcode ≡ true → Unlisted opcode
unlisted_lem opcode h =
    let (no_length, no_time, no_jump, no_variation, no_prefix) =
      split_unlisted (byte_at opcode_lengths opcode) (byte_at opcode_duration opcode)
        (contains pc_modifying_opcodes opcode) (contains variable_cycle_opcodes opcode)
        (opcode == 0xCB) (facts opcode h).1 in
    record {
      no_length = no_length;
      no_time = no_time;
      no_jump = no_jump;
      no_variation = no_variation;
      no_prefix = no_prefix;
    }

-- What follows a run that is known.
goes_on :
    {A B : Type 0} (e : Exec A) (f : A → Exec B) (b : Build) (s t : Machine) (a : A)
    → e b s ≡ ok (a, t)
    → (e >>= f) b s ≡ f a b t
goes_on e f b s t a h = ap (λ o. elim o [ ok r ↦ f r.0 b r.1 | panic ↦ panic ]) h

then_goes_on :
    {B : Type 0} (e : Exec (Unit {0})) (f : Exec B) (b : Build) (s t : Machine)
    → e b s ≡ ok (tt, t)
    → (e >> f) b s ≡ f b t
then_goes_on e f b s t h = ap (λ o. elim o [ ok r ↦ f b r.1 | panic ↦ panic ]) h

-- The machine with PC moved on.
abbrev pub skipped : Machine → Machine
skipped s = let r = s.cpu.registers in set_registers (record r { pc = r.pc + 1 }) s

execute_undocumented :
    (opcode : ℕ) (b : Build) (s : Machine)
    → contains undocumented_opcodes opcode ≡ true
    → s.cpu.registers.pc < 65535
    → execute opcode b s ≡ ok (tt, skipped s)
unfolding execute run_arm unknown read_r16 write_r16 add_u16 Registers.read_r16 Registers.write_r16
execute_undocumented opcode debug s h below = rw (execute, (facts opcode h).0) (ground arith)
execute_undocumented opcode release s h below = rw (execute, (facts opcode h).0) (ground arith)

same_time :
    (s : Machine)
    → let c = s.cpu in
      let s' : Machine = record s { cpu = record c { cycles = c.cycles + 0 } } in
      ◌≡◌ {A = Outcome (ℕ × Machine)} (ok (0, s')) (ok (0, s))
same_time s = ground arith

stays :
    (opcode : ℕ) (b : Build) (s : Machine)
    → Unlisted opcode
    → s.cpu.halt_bug ≡ false
    → s.cpu.registers.pc < 65536
    → advance_pc opcode b s ≡ ok (tt, s)
unfolding read_r16 write_r16 Registers.read_r16 Registers.write_r16 is_halt_bug set_registers
    advance_pc
stays opcode b s u no_bug below = rw (u.no_jump, no_bug, u.no_length) (ground arith)

no_duration :
    (opcode : ℕ) (b : Build) (s : Machine) → Unlisted opcode → duration opcode b s ≡ ok (0, s)
unfolding duration
no_duration opcode b s u = rw (u.no_prefix, u.no_time) refl

unchecked :
    (opcode : ℕ) (b : Build) (s : Machine)
    → Unlisted opcode
    → s.cpu.instruction_m_cycles_ticked ≡ 0
    → check_timing opcode 0 b s ≡ ok (tt, s)
unfolding check_timing mismatch
unchecked opcode debug s u fresh = simp (u.no_variation, fresh) refl
unchecked opcode release s u fresh = refl

post_undocumented :
    (opcode : ℕ) (b : Build) (s : Machine)
    → Unlisted opcode
    → s.cpu.halt_bug ≡ false
    → s.cpu.registers.pc < 65536
    → s.cpu.instruction_m_cycles_ticked ≡ 0
    → handle_post_instruction opcode b s ≡ ok (0, s)
unfolding handle_post_instruction add_cycles
post_undocumented opcode b s u no_bug below fresh =
    let counted : ℕ → Exec ℕ = λ cycles. (do add_cycles cycles; return cycles) in
    let timed : ℕ → Exec ℕ = λ cycles. (do check_timing opcode cycles; counted cycles) in
    then_goes_on (advance_pc opcode) (duration opcode >>= timed) b s s
      (stays opcode b s u no_bug below)
    ∙ goes_on (duration opcode) timed b s s 0 (no_duration opcode b s u)
    ∙ then_goes_on (check_timing opcode 0) (counted 0) b s s (unchecked opcode b s u fresh)
    ∙ same_time s

-- At an undocumented opcode a step takes 0 cycles in either build: PC moves on by one, no device
-- ticks, and but for the count of M-cycles, which is set to 0, nothing else changes. The processor
-- is not halted, neither an EI nor the HALT bug waits, and PC is not the last address.
pub step_undocumented :
    (b : Build) (s : Machine)
    → contains undocumented_opcodes (opcode_at s) ≡ true
    → s.cpu.halted ≡ false
    → s.cpu.halt_bug ≡ false
    → s.cpu.ei_pending ≡ false
    → s.cpu.registers.pc < 65535
    → step b s ≡ ok (0, skipped (uncounted s))
unfolding step reset_ticked is_halted run_instruction read_r16 peek Registers.read_r16
    enable_interrupts is_ei_pending set_registers
step_undocumented b s h awake no_bug no_ei below =
    let start = uncounted s in
    let opcode = opcode_at s in
    let ends : ℕ → Exec ℕ = λ cycles. (do enable_interrupts; return cycles) in
    ap (λ (t : Bool). (if t then step_halted else run_instruction) b start) awake
    ∙ then_goes_on (execute opcode) (handle_post_instruction opcode >>= ends) b start
        (skipped start) (execute_undocumented opcode b start h below)
    ∙ goes_on (handle_post_instruction opcode) ends b (skipped start) (skipped start) 0 (
        post_undocumented opcode b (skipped start) (unlisted_lem opcode h) no_bug (omega arith)
          refl)
    ∙ ap
        (λ (t : Bool).
          ((if t then (do write_ime 1; set_ei_pending false) else return tt) >> return 0) b
            (skipped start))
        no_ei
