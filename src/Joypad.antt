-- ===== src/Joypad.antt =====
-- src/joypad.rs: the eight buttons, the register P1, and the joypad interrupt.
pub mod Register
pub mod Operations
pub mod Interrupt
mod Examples
use rust_gb_emulator.Base.{
  ℕ, bit_and, bit_or, Bool, true, false, not, ◌&&◌, ◌||◌, ◌==◌, if◌then◌else◌, inverted, List, [],
  ◌∷◌,
}
use mathlib.Core.List.{filter}

pub data JoypadButton : Type 0 where
  right left up down a b select start : JoypadButton

-- The hash map of the source has all eight keys from `new` on, and loses none: a flag for each.
pub record Buttons : Type 0 where
  pub right : Bool
  pub left : Bool
  pub up : Bool
  pub down : Bool
  pub a : Bool
  pub b : Bool
  pub select : Bool
  pub start : Bool

pub record Joypad : Type 0 where
  pub buttons : Buttons
  pub register : ℕ  -- u8
  pub interrupt_requested : Bool

unfoldable pub get : Buttons → JoypadButton → Bool
get m right = m.right
get m left = m.left
get m up = m.up
get m down = m.down
get m a = m.a
get m b = m.b
get m select = m.select
get m start = m.start

unfoldable pub put : Buttons → JoypadButton → Bool → Buttons
put m right v = record m { right = v }
put m left v = record m { left = v }
put m up v = record m { up = v }
put m down v = record m { down = v }
put m a v = record m { a = v }
put m b v = record m { b = v }
put m select v = record m { select = v }
put m start v = record m { start = v }

abbrev pub none_pressed : Buttons
none_pressed = record {
  right = false;
  left = false;
  up = false;
  down = false;
  a = false;
  b = false;
  select = false;
  start = false;
}

unfoldable pub new : Joypad
new = record { buttons = none_pressed; register = 0xCF; interrupt_requested = false }

unfoldable pub is_pressed : Joypad → JoypadButton → Bool
is_pressed j button = get j.buttons button

-- `if self.is_pressed(button) { lower &= !mask; }`
unfoldable pub lower_line : Bool → ℕ → ℕ → ℕ
lower_line pressed mask lower = if pressed then bit_and lower (inverted mask) else lower

unfoldable pub button_lines : Joypad → ℕ → ℕ
button_lines j lower = lower_line (is_pressed j a) 0x01 (
    lower_line (is_pressed j b) 0x02
      (lower_line (is_pressed j select) 0x04 (lower_line (is_pressed j start) 0x08 lower)))

unfoldable pub direction_lines : Joypad → ℕ → ℕ
direction_lines j lower = lower_line (is_pressed j right) 0x01 (
    lower_line (is_pressed j left) 0x02
      (lower_line (is_pressed j up) 0x04 (lower_line (is_pressed j down) 0x08 lower)))

unfoldable pub update_register : Joypad → Joypad
update_register j =
    let select_buttons = bit_and j.register 0x20 == 0 in
    let select_directions = bit_and j.register 0x10 == 0 in
    let value = bit_or (bit_and j.register 0xF0) 0xC0 in
    let after_buttons = if select_buttons then button_lines j 0x0F else 0x0F in
    let lower = if select_directions then direction_lines j after_buttons else after_buttons in
    let value' =
      if not select_buttons && not select_directions
      then bit_or value 0x0F
      else bit_or value lower in
    record j { register = bit_or value' 0xC0 }

unfoldable pub is_direction : JoypadButton → Bool
is_direction up = true
is_direction down = true
is_direction left = true
is_direction right = true
is_direction _ = false

-- A press of a button that is up.
unfoldable pub mark_pressed : Joypad → JoypadButton → Joypad
mark_pressed j button =
    let j' = record j { buttons = put j.buttons button true } in
    let is_button = not (is_direction button) in
    let select_directions = bit_and j.register 0x10 == 0 in
    let select_buttons = bit_and j.register 0x20 == 0 in
    if (is_direction button && select_directions) || (is_button && select_buttons)
    then record j' { interrupt_requested = true }
    else j'

unfoldable pub press : Joypad → JoypadButton → Joypad
press j button = update_register (if not (is_pressed j button) then mark_pressed j button else j)

unfoldable pub release : Joypad → JoypadButton → Joypad
release j button = update_register (record j { buttons = put j.buttons button false })

unfoldable pub release_button : Joypad → JoypadButton → Joypad
release_button j button = update_register (record j { buttons = put j.buttons button false })

unfoldable pub press_button : Joypad → JoypadButton → Joypad
press_button j button = press j button

unfoldable pub read : Joypad → ℕ
read j = j.register

unfoldable pub write : Joypad → ℕ → Joypad
write j value =
    update_register (record j { register = bit_or (bit_and j.register 0xC0) (bit_and value 0x30) })

unfoldable pub set_register_raw : Joypad → ℕ → Joypad
set_register_raw j value = update_register (record j { register = value })

unfoldable pub clear_interrupt : Joypad → Joypad
clear_interrupt j = record j { interrupt_requested = false }

-- The order in which the hash map gives its keys is the argument.
unfoldable pub get_pressed_buttons : List JoypadButton → Joypad → List JoypadButton
get_pressed_buttons [] j = []
get_pressed_buttons (button ∷ order) j =
    let rest = get_pressed_buttons order j in if get j.buttons button then button ∷ rest else rest
