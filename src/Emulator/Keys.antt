-- ===== src/Emulator/Keys.antt =====
-- The events of a frame reach the joypad and nothing else.
use rust_gb_emulator.Base.{
  ◌<◌, Bool, true, false, not, ◌&&◌, ◌||◌, if◌then◌else◌, ◌≡◌, refl, ap, ◌∙◌, arith, List, [], ◌∷◌,
  Option, none, some,
}
use rust_gb_emulator.Joypad
use rust_gb_emulator.Joypad.{
  Joypad, JoypadButton, right, left, up, down, a, b, select, start, Buttons, get, put, is_pressed,
  mark_pressed, press, press_button, release_button,
}
use rust_gb_emulator.Joypad.Register.{visible-lt}
use rust_gb_emulator.Joypad.Operations.{press_buttons, after_press}
use rust_gb_emulator.Memory.Typing.{update_register-lt}
use rust_gb_emulator.Cpu.Machine.{Machine}
use rust_gb_emulator.Cpu.Takes.{IsMachine}
use rust_gb_emulator.Memory.PowerOn.{joypad-IsBus}
use rust_gb_emulator.Emulator.{
  Keycode, map_keycode_to_button, Event, quit, key_down, key_up, other_event, with_joypad,
  press_key, release_key, poll,
}

unfoldable pub same_button : JoypadButton → JoypadButton → Bool
same_button right right = true
same_button left left = true
same_button up up = true
same_button down down = true
same_button a a = true
same_button b b = true
same_button select select = true
same_button start start = true
same_button _ _ = false

get-put :
    (m : Buttons) (v : Bool) (x y : JoypadButton)
    → get (put m x v) y ≡ (if same_button x y then v else get m y)
unfolding get put same_button
get-put m v x y = ground arith

-- Whether a key is one of the button's.
unfoldable pub is_key_of : JoypadButton → Keycode → Bool
is_key_of button key = elim (map_keycode_to_button key) [
  | some other ↦ same_button other button
  | none ↦ false
]

-- Whether a button is down after the events, from whether it was before.
unfoldable pub held : JoypadButton → List Event → Bool → Bool
held button [] was = was
held button (key_down key ∷ rest) was = held button rest (is_key_of button key || was)
held button (key_up key ∷ rest) was = held button rest (not (is_key_of button key) && was)
held button (_ ∷ rest) was = held button rest was

press-get :
    (j : Joypad) (x y : JoypadButton)
    → get (press_button j x).buttons y ≡ (same_button x y || get j.buttons y)
unfolding press_button
press-get j x y =
    ap (λ m. get m y) (press_buttons j x)
    ∙ get-put j.buttons true x y
    ∙ either_true (same_button x y) (get j.buttons y)
  where
    either_true : (p q : Bool) → (if p then true else q) ≡ (p || q)
    either_true p q = ground arith

release-get :
    (j : Joypad) (x y : JoypadButton)
    → get (release_button j x).buttons y ≡ (not (same_button x y) && get j.buttons y)
unfolding release_button Joypad.update_register
release-get j x y = get-put j.buttons false x y ∙ neither (same_button x y) (get j.buttons y)
  where
    neither : (p q : Bool) → (if p then false else q) ≡ (not p && q)
    neither p q = ground arith

-- The machine but for its joypad.
abbrev pub SameOtherwise : Machine → Machine → Type 0
SameOtherwise s s' = with_joypad (λ _. s'.mem.joypad) s ≡ s'

press_key_lem :
    (key : Keycode) (s : Machine) (y : JoypadButton)
    → (get (press_key key s).mem.joypad.buttons y ≡ (is_key_of y key || get s.mem.joypad.buttons y))
      × SameOtherwise s (press_key key s)
unfolding press_key is_key_of
press_key_lem key s y = by_button (map_keycode_to_button key)
  where
    by_button :
        (o : Option JoypadButton)
        → let key_of : Bool = elim o [ some other ↦ same_button other y | none ↦ false ] in
          let s' : Machine = elim o [ some x ↦ with_joypad (λ j. press_button j x) s | none ↦ s ] in
          (get s'.mem.joypad.buttons y ≡ (key_of || get s.mem.joypad.buttons y))
          × SameOtherwise s s'
    by_button (some x) = (press-get s.mem.joypad x y, refl)
    by_button none = (refl, refl)

release_key_lem :
    (key : Keycode) (s : Machine) (y : JoypadButton)
    → (get (release_key key s).mem.joypad.buttons y
        ≡ (not (is_key_of y key) && get s.mem.joypad.buttons y))
      × SameOtherwise s (release_key key s)
unfolding release_key is_key_of
release_key_lem key s y = by_button (map_keycode_to_button key)
  where
    by_button :
        (o : Option JoypadButton)
        → let key_of : Bool = elim o [ some other ↦ same_button other y | none ↦ false ] in
          let s' : Machine = elim o [
            | some x ↦ with_joypad (λ j. release_button j x) s
            | none ↦ s
          ] in
          (get s'.mem.joypad.buttons y ≡ (not (key_of) && get s.mem.joypad.buttons y))
          × SameOtherwise s s'
    by_button (some x) = (release-get s.mem.joypad x y, refl)
    by_button none = (refl, refl)

otherwise_again : (s t s' : Machine) → SameOtherwise s t → SameOtherwise t s' → SameOtherwise s s'
otherwise_again s t s' h k = ap (with_joypad (λ _. s'.mem.joypad)) h ∙ k

-- If the events of a frame do not close the window, a button is down after them exactly as the
-- last event of one of its keys left it, or as it was if there is none; of the machine nothing
-- but the joypad has changed.
pub poll-held :
    (events : List Event) (s s' : Machine) (button : JoypadButton)
    → poll events s ≡ some s'
    → (get s'.mem.joypad.buttons button ≡ held button events (get s.mem.joypad.buttons button))
      × SameOtherwise s s'
unfolding poll held
poll-held [] s s' button e = ground arith
poll-held (quit ∷ rest) s s' button e = cc
poll-held (key_down key ∷ rest) s s' button e =
    let (pressed, same) = press_key_lem key s button in
    let (later, again) = poll-held rest (press_key key s) s' button e in
    (later ∙ ap (held button rest) pressed, otherwise_again s (press_key key s) s' same again)
poll-held (key_up key ∷ rest) s s' button e =
    let (released, same) = release_key_lem key s button in
    let (later, again) = poll-held rest (release_key key s) s' button e in
    (later ∙ ap (held button rest) released, otherwise_again s (release_key key s) s' same again)
poll-held (other_event ∷ rest) s s' button e = poll-held rest s s' button e

press_button-lt :
    (j : Joypad) (x : JoypadButton) → j.register < 256 → (press_button j x).register < 256
unfolding press_button
press_button-lt j x h = rw (after_press j x h) (visible-lt j.register (put j.buttons x true))

release_button-lt :
    (j : Joypad) (x : JoypadButton) → j.register < 256 → (release_button j x).register < 256
unfolding release_button
release_button-lt j x h = update_register-lt (record j { buttons = put j.buttons x false }) h

with_joypad-IsMachine :
    (f : Joypad → Joypad) (s : Machine)
    → IsMachine s
    → (f s.mem.joypad).register < 256
    → IsMachine (with_joypad f s)
with_joypad-IsMachine f s v h = record {
  registers_ok = v.registers_ok;
  bus_ok = joypad-IsBus s.mem (f s.mem.joypad) v.bus_ok h;
}

key-IsMachine :
    (key : Keycode) (s : Machine)
    → IsMachine s
    → IsMachine (press_key key s) × IsMachine (release_key key s)
unfolding press_key release_key
key-IsMachine key s v = by_button (map_keycode_to_button key)
  where
    by_button :
        (o : Option JoypadButton)
        → let pressed : Machine = elim o [
          | some x ↦ with_joypad (λ j. press_button j x) s
          | none ↦ s
        ] in
          let released : Machine = elim o [
            | some x ↦ with_joypad (λ j. release_button j x) s
            | none ↦ s
          ] in
          IsMachine pressed × IsMachine released
    by_button (some x) =
        let p1 = v.bus_ok.p1_u8 in
        (
          with_joypad-IsMachine (λ j. press_button j x) s v (press_button-lt s.mem.joypad x p1),
          with_joypad-IsMachine (λ j. release_button j x) s v (release_button-lt s.mem.joypad x p1),
        )
    by_button none = (v, v)

pub poll-IsMachine :
    (events : List Event) (s s' : Machine) → IsMachine s → poll events s ≡ some s' → IsMachine s'
unfolding poll
poll-IsMachine [] s s' v e = ground arith
poll-IsMachine (quit ∷ rest) s s' v e = cc
poll-IsMachine (key_down key ∷ rest) s s' v e =
    poll-IsMachine rest (press_key key s) s' (key-IsMachine key s v).0 e
poll-IsMachine (key_up key ∷ rest) s s' v e =
    poll-IsMachine rest (release_key key s) s' (key-IsMachine key s v).1 e
poll-IsMachine (other_event ∷ rest) s s' v e = poll-IsMachine rest s s' v e
