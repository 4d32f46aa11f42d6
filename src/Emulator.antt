-- ===== src/Emulator.antt =====
-- src/main.rs: the machine at power-on, the events of the window, and the loop of a frame. The
-- window, the texture and the clock are calls of other crates; the forwarding of the serial output is
-- `forward`, which `run_forwarding` has after each round and `run_cycles` leaves out.
pub mod Boot
pub mod Keys
pub mod Frames
pub mod Endings
pub mod Batches
pub mod Forwarding
pub mod Cutting
mod Examples
use rust_gb_emulator.Base.{
  ℕ, zero, suc, ◌+◌, Bool, ltb, if◌then◌else◌, List, [], ◌∷◌, ◌++◌, length, Option, none, some,
  Build, Outcome, ok, panic, ◌>>=◌, fit,
}
use rust_gb_emulator.Text.{drop, is_char_boundary}
use rust_gb_emulator.Serial.{Serial, get_output_string}
use rust_gb_emulator.Joypad
use rust_gb_emulator.Joypad.{JoypadButton}
use rust_gb_emulator.Memory
use rust_gb_emulator.Memory.{Memory}
use rust_gb_emulator.Cpu.Registers
use rust_gb_emulator.Cpu.Registers.{
  Registers, write_r16, reg_af, reg_bc, reg_de, reg_hl, reg_sp, reg_pc,
}
use rust_gb_emulator.Cpu.Machine
use rust_gb_emulator.Cpu.Machine.{Machine}
use rust_gb_emulator.Cpu.Step
use rust_gb_emulator.Cpu.Interrupts.{handle_interrupts}

-- The key codes that the source names, and any other.
pub data Keycode : Type 0 where
  right left up down z x return rshift lshift other_key : Keycode

unfoldable pub map_keycode_to_button : Keycode → Option JoypadButton
map_keycode_to_button right = some JoypadButton.right
map_keycode_to_button left = some JoypadButton.left
map_keycode_to_button up = some JoypadButton.up
map_keycode_to_button down = some JoypadButton.down
map_keycode_to_button z = some JoypadButton.a
map_keycode_to_button x = some JoypadButton.b
map_keycode_to_button return = some JoypadButton.start
map_keycode_to_button rshift = some JoypadButton.select
map_keycode_to_button lshift = some JoypadButton.select
map_keycode_to_button other_key = none

-- The events that the source tells apart.
pub data Event : Type 0 where
  quit : Event
  key_down key_up : Keycode → Event
  other_event : Event

abbrev pub with_joypad : (Joypad.Joypad → Joypad.Joypad) → Machine → Machine
with_joypad f s = let m = s.mem in record s { mem = record m { joypad = f m.joypad } }

unfoldable pub press_key : Keycode → Machine → Machine
press_key key s = elim (map_keycode_to_button key) [
  | some button ↦ with_joypad (λ j. Joypad.press_button j button) s
  | none ↦ s
]

unfoldable pub release_key : Keycode → Machine → Machine
release_key key s = elim (map_keycode_to_button key) [
  | some button ↦ with_joypad (λ j. Joypad.release_button j button) s
  | none ↦ s
]

-- The loop over the events of a frame; none is the `break 'running`.
unfoldable pub poll : List Event → Machine → Option Machine
poll [] s = some s
poll (quit ∷ rest) s = none
poll (key_down key ∷ rest) s = poll rest (press_key key s)
poll (key_up key ∷ rest) s = poll rest (release_key key s)
poll (other_event ∷ rest) s = poll rest s

-- The registers that the boot ROM leaves.
unfoldable pub boot_registers : Registers → Registers
boot_registers r =
    let r1 = write_r16 r reg_af 0x01B0 in
    let r2 = write_r16 r1 reg_bc 0x0013 in
    let r3 = write_r16 r2 reg_de 0x00D8 in
    let r4 = write_r16 r3 reg_hl 0x014D in
    let r5 = write_r16 r4 reg_sp 0xFFFE in
    let r6 = write_r16 r5 reg_pc 0x0100 in record r6 { ime = 1 }

unfoldable pub boot : List ℕ → Machine
boot rom_buffer =
    let c = Machine.new in
    record {
      cpu = record c { registers = boot_registers c.registers };
      mem = Memory.init_post_boot_state (Memory.init_rom_bank (Memory.new rom_buffer));
    }

-- A round of the inner loop: a step, its interrupts, and the cycles, a sum of type u32.
unfoldable pub round : Build → ℕ → Machine → Outcome (ℕ × Machine)
round b cycles s = do
  r ← Step.step b s
  total ← fit b 32 (cycles + r.0)
  ok (total, handle_interrupts r.1)

-- What has been printed of the serial output, and the length of the output that was seen last.
pub record Forwarded : Type 0 where
  pub last_serial_len : ℕ
  pub printed : List ℕ

abbrev pub nothing_forwarded : Forwarded
nothing_forwarded = record { last_serial_len = 0; printed = [] }

-- The serial output is forwarded as it arrives; the slice of the string panics inside a character.
unfoldable pub forward : Serial → Forwarded → Outcome Forwarded
forward serial f =
    let serial_output = get_output_string serial in
    let new_output = drop f.last_serial_len serial_output in
    if ltb f.last_serial_len (length serial_output)
    then if is_char_boundary f.last_serial_len serial_output
      then ok (record { last_serial_len = length serial_output; printed = f.printed ++ new_output })
      else panic
    else ok f

-- The inner loop, of at most `fuel` rounds; none where they were not enough.
unfoldable pub run_cycles : ℕ → Build → ℕ → Machine → Outcome (Option Machine)
run_cycles zero b cycles s = if ltb cycles 70224 then ok none else ok (some s)
run_cycles (suc fuel) b cycles s =
    if ltb cycles 70224
    then (elim (round b cycles s) [ ok r ↦ run_cycles fuel b r.0 r.1 | panic ↦ panic ])
    else ok (some s)

-- The inner loop with the forwarding of the serial output after each round.
unfoldable pub run_forwarding :
    ℕ → Build → ℕ → Machine → Forwarded → Outcome (Option (Machine × Forwarded))
run_forwarding zero b cycles s f = if ltb cycles 70224 then ok none else ok (some (s, f))
run_forwarding (suc fuel) b cycles s f =
    if ltb cycles 70224
    then (elim (round b cycles s) [
      | ok r ↦ elim (forward r.1.mem.serial f) [
        | ok f' ↦ run_forwarding fuel b r.0 r.1 f'
        | panic ↦ panic
      ]
      | panic ↦ panic
    ])
    else ok (some (s, f))

-- Where the outer loop stands: it goes on, an event has ended it, or the fuel was not enough for
-- the inner loop.
pub data Session : Type 0 where
  running : Machine → Session
  stopped unfinished : Session

-- A round of the outer loop.
unfoldable pub frame : ℕ → Build → List Event → Machine → Outcome Session
frame fuel b events s = elim (poll events s) [
  | none ↦ ok stopped
  | some s' ↦ elim (run_cycles fuel b 0 s') [
    | ok none ↦ ok unfinished
    | ok (some s'') ↦ ok (running s'')
    | panic ↦ panic
  ]
]

-- The outer loop, over the events that each of the frames to come finds.
unfoldable pub frames : ℕ → Build → List (List Event) → Machine → Outcome Session
frames fuel b [] s = ok (running s)
frames fuel b (events ∷ rest) s = elim (frame fuel b events s) [
  | ok (running s') ↦ frames fuel b rest s'
  | ok stopped ↦ ok stopped
  | ok unfinished ↦ ok unfinished
  | panic ↦ panic
]
