-- ===== src/Emulator/Endings.antt =====
-- The loop of a frame ends.
use rust_gb_emulator.Base.{
  ℕ, zero, suc, ◌+◌, ◌*◌, ◌≤◌, Bool, true, false, not, ◌&&◌, ltb, ◌≡◌, refl, sym, ap, ◌∙◌, arith,
  ltb→lt, some, release, Outcome, ok, panic, Bool-cases, inl, inr,
}
use rust_gb_emulator.Cpu.Machine.{Machine}
use rust_gb_emulator.Cpu.Step
use rust_gb_emulator.Cpu.Step.{contains}
use rust_gb_emulator.Cpu.Interrupts.{handle_interrupts}
use rust_gb_emulator.Cpu.Takes.{IsMachine}
use rust_gb_emulator.Cpu.Times.Post.{least_documented, undocumented_opcodes}
use rust_gb_emulator.Cpu.Times.Steps.{opcode_at}
use rust_gb_emulator.Emulator.{run_cycles}
use rust_gb_emulator.Emulator.Frames.{Rounds, round-IsMachine}

-- No round of the next `n` finds an undocumented opcode at PC.
unfoldable pub documented_for : ℕ → Machine → Bool
documented_for zero s = true
documented_for (suc n) s =
    let later : Bool = elim (Step.step release s) [
      | ok r ↦ documented_for n (handle_interrupts r.1)
      | panic ↦ true
    ] in
    not (contains undocumented_opcodes (opcode_at s)) && later

and_split : (x y : Bool) → (not x && y) ≡ true → (x ≡ false) × (y ≡ true)
and_split x y e = ground arith

continued :
    (fuel cycles : ℕ) (s : Machine) (r : Rounds cycles s)
    → (elim (Step.step release s) as (λ o. Bool) [
      | ok q ↦ documented_for fuel (handle_interrupts q.1)
      | panic ↦ true
    ])
      ≡ true
    → documented_for fuel (handle_interrupts r.stepped) ≡ true
continued fuel cycles s r later =
    sym (
      ap
        (λ (o : Outcome (ℕ × Machine)). elim o as (λ o. Bool) [
          | ok q ↦ documented_for fuel (handle_interrupts q.1)
          | panic ↦ true
        ])
        r.steps)
    ∙ later

-- With as many rounds of fuel as there are M-cycles left from `cycles` to 70224, the loop of a frame,
-- less the forwarding of the serial output, ends in a release build and leaves a well-formed
-- machine, if none of that many rounds finds an undocumented opcode at PC.
pub run_cycles_ends :
    (fuel cycles : ℕ) (s : Machine)
    → 70224 ≤ cycles + 4 * fuel
    → IsMachine s
    → documented_for fuel s ≡ true
    → (s' : Machine) × (run_cycles fuel release cycles s ≡ ok (some s')) × IsMachine s'
unfolding run_cycles documented_for
run_cycles_ends zero cycles s h v d =
    let enough : ltb cycles 70224 ≡ false = ground arith in (s, rw enough refl, v)
run_cycles_ends (suc fuel) cycles s h v d = elim (Bool-cases (ltb cycles 70224)) [
  | inl more ↦
      let r = round-IsMachine cycles s (ltb→lt cycles 70224 more) v in
      let (here, later) =
        and_split (contains undocumented_opcodes (opcode_at s))
          (elim (Step.step release s) as (λ o. Bool) [
            | ok q ↦ documented_for fuel (handle_interrupts q.1)
            | panic ↦ true
          ])
          d in
      let (s', returns, typed) =
        run_cycles_ends fuel (cycles + r.taken) (handle_interrupts r.stepped)
          (omega (arith, least_documented (opcode_at s) r.taken r.timed here)) r.typed
          (continued fuel cycles s r later) in
      (s', rw (more, r.returns) returns, typed)
  | inr enough ↦ (s, rw enough refl, v)
]
