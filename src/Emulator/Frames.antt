-- ===== src/Emulator/Frames.antt =====
-- The loops of a frame and of the events, and the machines that they leave.
use rust_gb_emulator.Base.{
  ℕ, zero, suc, ◌+◌, ◌<◌, ltb, ◌≡◌, refl, ap, arith, ltb→lt, List, [], ◌∷◌, Option, none, some,
  release, ok, Bool-cases, inl, inr,
}
use rust_gb_emulator.Memory.IoReset.{byte_at}
use rust_gb_emulator.Ppu.Kept.{AllBytes}
use rust_gb_emulator.Cpu.Machine.{Machine}
use rust_gb_emulator.Cpu.Step
use rust_gb_emulator.Cpu.Interrupts.{handle_interrupts}
use rust_gb_emulator.Cpu.Takes.{IsMachine}
use rust_gb_emulator.Cpu.InterruptTypes.{handle_interrupts-IsMachine}
use rust_gb_emulator.Cpu.Times.Post.{Timed}
use rust_gb_emulator.Cpu.Times.Steps.{opcode_at, step-IsMachine}
use rust_gb_emulator.Emulator.{
  Event, poll, boot, round, run_cycles, frame, frames, Session, running, stopped, unfinished,
}
use rust_gb_emulator.Emulator.Boot.{boot-IsMachine}
use rust_gb_emulator.Emulator.Keys.{poll-IsMachine}

-- What a round of a well-formed machine does in a release build.
pub record Rounds (cycles : ℕ) (s : Machine) : Type 0 where
  pub taken : ℕ
  pub stepped : Machine
  pub steps : Step.step release s ≡ ok (taken, stepped)
  pub returns : round release cycles s ≡ ok (cycles + taken, handle_interrupts stepped)
  pub timed : Timed (opcode_at s) taken
  pub typed : IsMachine (handle_interrupts stepped)

pub round-IsMachine : (cycles : ℕ) (s : Machine) → cycles < 70224 → IsMachine s → Rounds cycles s
unfolding round
round-IsMachine cycles s h v =
    let (r, steps, timed, typed) = step-IsMachine s v in
    record {
      taken = r.0;
      stepped = r.1;
      steps = steps;
      returns =
          rw steps (ap (λ (n : ℕ). ok (n, handle_interrupts r.1)) (omega (arith, timed.most)));
      timed = timed;
      typed = handle_interrupts-IsMachine r.1 typed;
    }

-- What the inner loop leaves: a well-formed machine, if the fuel was enough.
abbrev pub AllIn : Option Machine → Type 0
AllIn none = Unit {0}
AllIn (some s) = IsMachine s

pub run_cycles-IsMachine :
    (fuel cycles : ℕ) (s : Machine)
    → IsMachine s
    → (o : Option Machine) × (run_cycles fuel release cycles s ≡ ok o) × AllIn o
unfolding run_cycles
run_cycles-IsMachine zero cycles s v = elim (Bool-cases (ltb cycles 70224)) [
  | inl more ↦ (none, rw more refl, tt)
  | inr enough ↦ (some s, rw enough refl, v)
]
run_cycles-IsMachine (suc fuel) cycles s v = elim (Bool-cases (ltb cycles 70224)) [
  | inl more ↦
      let r = round-IsMachine cycles s (ltb→lt cycles 70224 more) v in
      let (o, returns, typed) =
        run_cycles-IsMachine fuel (cycles + r.taken) (handle_interrupts r.stepped) r.typed in
      (o, rw (more, r.returns) returns, typed)
  | inr enough ↦ (some s, rw enough refl, v)
]

-- What the outer loop leaves: a well-formed machine, where it goes on.
abbrev pub GoesOn : Session → Type 0
GoesOn (running s) = IsMachine s
GoesOn stopped = Unit {0}
GoesOn unfinished = Unit {0}

pub frame-GoesOn :
    (fuel : ℕ) (events : List Event) (s : Machine)
    → IsMachine s
    → (w : Session) × (frame fuel release events s ≡ ok w) × GoesOn w
unfolding frame
frame-GoesOn fuel events s v = by_events (poll events s) refl
  where
    by_events :
        (o : Option Machine)
        → poll events s ≡ o
        → (w : Session) × (frame fuel release events s ≡ ok w) × GoesOn w
    by_events none e = (stopped, rw (frame, e) refl, tt)
    by_events (some s') e =
        let (o, returns, typed) = run_cycles-IsMachine fuel 0 s' (poll-IsMachine events s s' v e) in
        by_cycles o returns typed
      where
        by_cycles :
            (o : Option Machine)
            → run_cycles fuel release 0 s' ≡ ok o
            → AllIn o
            → (w : Session) × (frame fuel release events s ≡ ok w) × GoesOn w
        by_cycles none returns typed = (unfinished, rw (frame, e, returns) refl, tt)
        by_cycles (some t) returns typed = (running t, rw (frame, e, returns) refl, typed)

frames-GoesOn :
    (fuel : ℕ) (inputs : List (List Event)) (s : Machine)
    → IsMachine s
    → (w : Session) × (frames fuel release inputs s ≡ ok w) × GoesOn w
unfolding frames
frames-GoesOn fuel [] s v = (running s, refl, v)
frames-GoesOn fuel (events ∷ rest) s v =
    let (w, returns, typed) = frame-GoesOn fuel events s v in
    by_session (frames-GoesOn fuel rest) w returns typed
  where
    by_session :
        ((t : Machine)
          → IsMachine t
          → (w' : Session) × (frames fuel release rest t ≡ ok w') × GoesOn w')
        → (w : Session) → frame fuel release events s ≡ ok w
        → GoesOn w
        → (w' : Session) × (frames fuel release (events ∷ rest) s ≡ ok w') × GoesOn w'
    by_session later (running t) returns typed =
        let (w', e, goes) = later t typed in (w', rw (frames, returns) e, goes)
    by_session later stopped returns typed = (stopped, rw (frames, returns) refl, tt)
    by_session later unfinished returns typed = (unfinished, rw (frames, returns) refl, tt)

-- In a release build the loops of the processor and of the events, less the forwarding of the serial
-- output, reach none of the panics that the definitions have, whatever file of bytes is loaded and
-- whatever events each frame finds: every operand and every condition of a decoded opcode is one of
-- those that its method knows, and where the outer loop goes on the machine is well formed, which an
-- access of the bus past the end of the video memory, the OAM or the ROM would end. The other indices
-- of arrays are taken to be in range.
pub frames-boot :
    (fuel : ℕ) (inputs : List (List Event)) (rom_buffer : List ℕ)
    → AllBytes (byte_at rom_buffer)
    → (w : Session) × (frames fuel release inputs (boot rom_buffer) ≡ ok w) × GoesOn w
frames-boot fuel inputs rom_buffer h =
    frames-GoesOn fuel inputs (boot rom_buffer) (boot-IsMachine rom_buffer h).0
