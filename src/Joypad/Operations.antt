-- ===== src/Joypad/Operations.antt =====
-- What each operation makes of P1.
use rust_gb_emulator.Base.{
  ℕ, ◌+◌, ◌*◌, ◌/◌, ◌%◌, ◌<◌, bit_and, bit_or, true, false, ◌≡◌, arith, ◌∙◌, ap, sym, refl,
  Bool-cases, inl, inr,
}
use rust_gb_emulator.Base.Masks.{bit_and_field, bit_or_fields}
use rust_gb_emulator.Joypad.{
  Joypad, JoypadButton, right, left, up, down, a, b, select, start, Buttons, get, put, is_pressed,
  mark_pressed, press, release, write, read, set_register_raw, update_register,
}
use rust_gb_emulator.Joypad.Register.{visible, visible-select, update_register_lem}

select_bits :
    (r v : ℕ)
    → r < 256
    → v < 256
    → bit_or (bit_and r 0xC0) (bit_and v 0x30) ≡ r / 64 * 64 + v / 16 % 4 * 16
select_bits r v h k =
    ground
      (arith, bit_and_field 6 2 r, bit_and_field 4 2 v, bit_or_fields 6 (r / 64) (v / 16 % 4 * 16))

put-get : (m : Buttons) (button : JoypadButton) → get m button ≡ true → put m button true ≡ m
unfolding put get
put-get m right h = ground arith
put-get m left h = ground arith
put-get m up h = ground arith
put-get m down h = ground arith
put-get m a h = ground arith
put-get m b h = ground arith
put-get m select h = ground arith
put-get m start h = ground arith

mark_pressed_lem :
    (j : Joypad) (button : JoypadButton)
    → ((mark_pressed j button).buttons ≡ put j.buttons button true)
      × ((mark_pressed j button).register ≡ j.register)
unfolding mark_pressed
mark_pressed_lem j button = ground arith

updated_buttons : (j : Joypad) → (update_register j).buttons ≡ j.buttons
unfolding update_register
updated_buttons j = refl

pub press_buttons :
    (j : Joypad) (button : JoypadButton) → (press j button).buttons ≡ put j.buttons button true
unfolding press is_pressed
press_buttons j button = elim (Bool-cases (get j.buttons button)) [
  | inl down_already ↦
      rw down_already (updated_buttons j ∙ sym (put-get j.buttons button down_already))
  | inr was_up ↦ rw was_up (updated_buttons (mark_pressed j button) ∙ (mark_pressed_lem j button).0)
]

pub after_press :
    (j : Joypad) (button : JoypadButton)
    → j.register < 256
    → (press j button).register ≡ visible j.register (put j.buttons button true)
unfolding press is_pressed
after_press j button h = elim (Bool-cases (get j.buttons button)) [
  | inl down_already ↦
      rw down_already (ground (arith, update_register_lem j, put-get j.buttons button))
  | inr was_up ↦
      rw was_up
        (ground (arith, update_register_lem (mark_pressed j button), mark_pressed_lem j button))
]

-- After a press, a release or a write of a byte, a read of P1 shows the buttons as the hardware
-- wires them: a line is low exactly where a selected group has its button down. A press and a
-- release keep the select bits, and a write takes them from the byte.
pub register_after :
    (j : Joypad) (button : JoypadButton) (value : ℕ)
    → j.register < 256
    → value < 256
    → (read (press j button) ≡ visible j.register (put j.buttons button true))
      × (read (release j button) ≡ visible j.register (put j.buttons button false))
      × (read (write j value) ≡ visible value j.buttons)
      × (read (set_register_raw j value) ≡ visible value j.buttons)
unfolding read press release write set_register_raw mark_pressed
register_after j button value h k = (
  after_press j button h,
  ap (λ (x : Joypad). x.register)
      (update_register_lem (record j { buttons = put j.buttons button false }) h),
  ap (λ (x : Joypad). x.register)
        (update_register_lem
          (record j { register = bit_or (bit_and j.register 0xC0) (bit_and value 0x30) })
          (ground (arith, select_bits j.register value)))
      ∙ visible-select (bit_or (bit_and j.register 0xC0) (bit_and value 0x30)) value j.buttons
          (ground (arith, select_bits j.register value)),
  ap (λ (x : Joypad). x.register) (update_register_lem (record j { register = value }) k),
)
