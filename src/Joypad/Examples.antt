-- ===== src/Joypad/Examples.antt =====
-- Runs of the joypad, and its theorems at concrete states.
use rust_gb_emulator.Base.{◌≡◌, refl, arith, true, false, ltb, ◌||◌, inr}
use rust_gb_emulator.Joypad.{
  Joypad, right, left, none_pressed, new, get, put, lower_line, is_pressed, button_lines,
  direction_lines, update_register, mark_pressed, is_direction, press, release, write, read,
  set_register_raw,
}
use rust_gb_emulator.Joypad.Register.{line, lines, visible}
use rust_gb_emulator.Joypad.Operations.{register_after}
use rust_gb_emulator.Joypad.Interrupt.{IsShown, press-falls}

-- The directions are selected, and Right is down.
abbrev held : Joypad
held = record {
  buttons = record none_pressed { right = true };
  register = 0xEE;
  interrupt_requested = false;
}

-- 0x10 selects the action buttons, and the two upper bits read as set.
write_0x10 : read (write new 0x10) ≡ 0xDF
unfolding read write new update_register lower_line is_pressed get button_lines direction_lines
write_0x10 = refl

register_after_example :
    (read (press held right) ≡ 0xEE)
    × (read (release held right) ≡ 0xEF)
    × (read (write held 0x10) ≡ 0xDF)
    × (read (set_register_raw held 0x10) ≡ 0xDF)
unfolding visible lines line put
register_after_example = register_after held right 0x10 (omega arith) (omega arith)

held-IsShown : IsShown held
unfolding visible lines line
held-IsShown = record { register_u8 = omega arith; shown = refl; one_group = inr refl }

press-falls_example :
    (press held left).interrupt_requested ≡ (false || ltb (press held left).register 0xEE)
press-falls_example = press-falls held left held-IsShown

left_interrupts : (press held left).interrupt_requested ≡ true
unfolding press update_register mark_pressed is_pressed get is_direction
left_interrupts = refl
