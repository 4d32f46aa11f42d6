-- ===== src/Emulator/Examples.antt =====
-- The program's theorems at a small ROM.
use rust_gb_emulator.Base.{
  ℕ, zero, suc, ◌<◌, ◌≡◌, refl, ap, arith, Bool, Outcome, panic, true, List, [], ◌∷◌, some, release,
  ok,
}
use rust_gb_emulator.Joypad.{JoypadButton, get}
use rust_gb_emulator.Memory
use rust_gb_emulator.Memory.IoReset.{byte_at}
use rust_gb_emulator.Cpu.Machine
use rust_gb_emulator.Cpu.Machine.{Machine}
use rust_gb_emulator.Memory.PowerOn.{new-IsBus}
use rust_gb_emulator.Cpu.Registers.{write_r16}
use rust_gb_emulator.Cpu.Times.Steps.{step-IsMachine}
use rust_gb_emulator.Cpu.Takes.{IsMachine}
use rust_gb_emulator.Emulator.{
  Keycode, Event, key_down, key_up, other_event, poll, boot, boot_registers, press_key, release_key,
  run_cycles, frames, Session, nothing_forwarded,
}
use rust_gb_emulator.Serial.{new}
use rust_gb_emulator.Serial.Capture.{captured, send_all}
use rust_gb_emulator.Emulator.Batches.{forward_all, concat}
use rust_gb_emulator.Emulator.Forwarding.{forward_all-ascii, forward_all-panic}
use rust_gb_emulator.Emulator.Keys.{held, SameOtherwise, poll-held}
use rust_gb_emulator.Emulator.Frames.{GoesOn, frames-boot}
use rust_gb_emulator.Emulator.Cutting.{Agrees, run_forwarding-run_cycles}
use rust_gb_emulator.Emulator.Endings.{documented_for, run_cycles_ends}

-- Three bytes, the last of which is no opcode.
abbrev three_bytes : List ℕ
three_bytes = 0x00 ∷ 0x18 ∷ 0xD3 ∷ []

three_bytes_small : (i : ℕ) → byte_at three_bytes i < 256
three_bytes_small zero = omega arith
three_bytes_small (suc zero) = omega arith
three_bytes_small (suc (suc zero)) = omega arith
three_bytes_small (suc (suc (suc i))) = omega arith

-- Two frames, in the first of which START is pressed.
frames-boot_example :
    (w : Session) × (frames 17556 release
        ((key_down Keycode.return ∷ []) ∷ [] ∷ [])
        (boot three_bytes)
      ≡ ok w)
    × GoesOn w
frames-boot_example =
    frames-boot 17556 ((key_down Keycode.return ∷ []) ∷ [] ∷ []) three_bytes three_bytes_small

-- The events of a frame in which START is pressed.
abbrev events : List Event
events = key_up Keycode.z ∷ key_down Keycode.return ∷ other_event ∷ []

abbrev started : Machine
started = press_key Keycode.return (release_key Keycode.z (boot three_bytes))

poll-held_example :
    (get started.mem.joypad.buttons JoypadButton.start
      ≡ held JoypadButton.start events
          (get (boot three_bytes).mem.joypad.buttons JoypadButton.start))
    × SameOtherwise (boot three_bytes) started
unfolding poll
poll-held_example = poll-held events (boot three_bytes) started JoypadButton.start refl

-- A machine at a NOP.
abbrev ready : Machine
ready =
    let c = Machine.new in
    record {
      cpu = record c { registers = boot_registers c.registers };
      mem = Memory.new three_bytes;
    }

ready-IsMachine : IsMachine ready
unfolding Machine.new boot_registers write_r16
ready-IsMachine = record {
  registers_ok = ground arith;
  bus_ok = new-IsBus three_bytes three_bytes_small;
}

documented : documented_for 1 ready ≡ true
unfolding documented_for Memory.read_8 Memory.new Machine.new boot_registers write_r16
documented =
    let (r, returns, _, _) = step-IsMachine ready ready-IsMachine in
    ap (λ (o : Outcome (ℕ × Machine)). elim o as (λ o. Bool) [ ok q ↦ true | panic ↦ true ]) returns

-- The loop of a frame with 4 cycles to go.
run_cycles_ends_example :
    (s' : Machine) × (run_cycles 1 release 70220 ready ≡ ok (some s')) × IsMachine s'
run_cycles_ends_example = run_cycles_ends 1 70220 ready (omega arith) ready-IsMachine documented

-- "Hi", with a byte that is left out, in two batches.
forward_all-ascii_example :
    forward_all ((b'H' ∷ 0 ∷ []) ∷ [] ∷ (b'i' ∷ []) ∷ []) new nothing_forwarded
    ≡ ok (
      send_all new (b'H' ∷ 0 ∷ b'i' ∷ []),
      record { last_serial_len = 2; printed = b'H' ∷ b'i' ∷ [] },
    )
unfolding concat captured
forward_all-ascii_example =
    forward_all-ascii ((b'H' ∷ 0 ∷ []) ∷ [] ∷ (b'i' ∷ []) ∷ [])
      ((omega arith, (omega arith, tt)), (tt, ((omega arith, tt), tt)))

-- A line of ASCII, an e with an acute accent, byte by byte, and the start of another one.
forward_all-panic_example :
    forward_all
      ((0x4F ∷ 0x0A ∷ []) ∷ (0xC3 ∷ []) ∷ (0xA9 ∷ []) ∷ (0xC3 ∷ []) ∷ [])
      new
      nothing_forwarded
    ≡ panic
forward_all-panic_example =
    forward_all-panic ((0x4F ∷ 0x0A ∷ []) ∷ []) 0xC3 0xA9 0xC3 []
      ((omega arith, (omega arith, tt)), tt) (omega arith) (omega arith) (omega arith) (omega arith)
      (omega arith) (omega arith)

-- The same loop with the forwarding of the serial output.
run_forwarding-run_cycles_example : Agrees 1 70220 ready nothing_forwarded
run_forwarding-run_cycles_example =
    run_forwarding-run_cycles 1 70220 ready nothing_forwarded ready-IsMachine
