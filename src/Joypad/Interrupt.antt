-- ===== src/Joypad/Interrupt.antt =====
-- When a press requests the joypad interrupt.
use rust_gb_emulator.Base.{
  ℕ, ◌+◌, ◌*◌, ◌/◌, ◌%◌, ◌<◌, Bool, true, false, not, ◌&&◌, ◌||◌, ltb, ◌==◌, if◌then◌else◌, ◌≡◌,
  arith, sym, ◌∙◌, ap, ◌⊎◌, inl, inr,
}
use rust_gb_emulator.Joypad.{
  Joypad, JoypadButton, right, left, up, down, a, b, select, start, Buttons, get, put, is_pressed,
  is_direction, update_register, mark_pressed, press,
}
use rust_gb_emulator.Joypad.Register.{line, lines, visible, selects-buttons, selects-directions}
use rust_gb_emulator.Joypad.Operations.{after_press}

-- Whether the group of a button is the one selected by `register`.
abbrev group_selected : ℕ → JoypadButton → Bool
group_selected register button =
    if is_direction button then register / 16 % 2 == 0 else register / 32 % 2 == 0

press-requests :
    (j : Joypad) (button : JoypadButton)
    → (press j button).interrupt_requested
      ≡ (j.interrupt_requested || (not (get j.buttons button) && group_selected j.register button))
unfolding press update_register mark_pressed is_pressed is_direction
press-requests j button = ground (arith, selects-buttons j.register, selects-directions j.register)

-- With the action buttons selected alone, a press lowers a line exactly if it is one of theirs,
-- and was up.
falls-buttons :
    (button : JoypadButton) (m : Buttons)
    → ltb (lines true false (put m button true)) (lines true false m)
      ≡ (not (get m button) && not (is_direction button))
unfolding lines line put get is_direction
falls-buttons right m = ground arith
falls-buttons left m = ground arith
falls-buttons up m = ground arith
falls-buttons down m = ground arith
falls-buttons a m = ground arith
falls-buttons b m = ground arith
falls-buttons select m = ground arith
falls-buttons start m = ground arith

falls-directions :
    (button : JoypadButton) (m : Buttons)
    → ltb (lines false true (put m button true)) (lines false true m)
      ≡ (not (get m button) && is_direction button)
unfolding lines line put get is_direction
falls-directions right m = ground arith
falls-directions left m = ground arith
falls-directions up m = ground arith
falls-directions down m = ground arith
falls-directions a m = ground arith
falls-directions b m = ground arith
falls-directions select m = ground arith
falls-directions start m = ground arith

-- A register that shows its buttons, with one of the two groups selected.
pub record IsShown (j : Joypad) : Type 0 where
  pub register_u8 : j.register < 256
  pub shown : j.register ≡ visible j.register j.buttons
  pub one_group : (j.register / 16 % 4 ≡ 1) ⊎ (j.register / 16 % 4 ≡ 2)

visible-lines :
    (sb sd : Bool) (r : ℕ) (m : Buttons)
    → (r / 32 % 2 == 0) ≡ sb
    → (r / 16 % 2 == 0) ≡ sd
    → visible r m ≡ 0xC0 + r / 16 % 4 * 16 + lines sb sd m
unfolding visible
visible-lines sb sd r m e f = rw (e, f)

ltb-shift : (k x y : ℕ) → ltb (k + x) (k + y) ≡ ltb x y
ltb-shift k x y = ground arith

press-lowers :
    (sb sd : Bool) (j : Joypad) (button : JoypadButton)
    → IsShown j
    → (j.register / 32 % 2 == 0) ≡ sb
    → (j.register / 16 % 2 == 0) ≡ sd
    → ltb (press j button).register j.register
      ≡ ltb (lines sb sd (put j.buttons button true)) (lines sb sd j.buttons)
press-lowers sb sd j button v e f =
    let k = 0xC0 + j.register / 16 % 4 * 16 in
    let after =
      after_press j button v.register_u8
      ∙ visible-lines sb sd j.register (put j.buttons button true) e f in
    let before = v.shown ∙ visible-lines sb sd j.register j.buttons e f in
    (λ i. ltb (after i) (before i))
    ∙ ltb-shift k (lines sb sd (put j.buttons button true)) (lines sb sd j.buttons)

-- With exactly one group selected, a press requests the interrupt exactly if it makes a line of P1
-- fall, as on the hardware; a request that was there stays.
pub press-falls :
    (j : Joypad) (button : JoypadButton)
    → IsShown j
    → (press j button).interrupt_requested
      ≡ (j.interrupt_requested || ltb (press j button).register j.register)
press-falls j button v = elim v.one_group [
  | inl one ↦
      press-requests j button
      ∙ ap (λ (x : Bool). j.interrupt_requested || x)
          (sym (
            press-lowers true false j button v (ground arith) (ground arith)
            ∙ falls-buttons button j.buttons
            ∙ (ground arith)))
  | inr two ↦
      press-requests j button
      ∙ ap (λ (x : Bool). j.interrupt_requested || x)
          (sym (
            press-lowers false true j button v (ground arith) (ground arith)
            ∙ falls-directions button j.buttons
            ∙ (ground arith)))
]
