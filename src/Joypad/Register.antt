-- ===== src/Joypad/Register.antt =====
-- What a read of P1 shows.
use rust_gb_emulator.Base.{
  ℕ, ◌≤◌, ◌+◌, ◌*◌, ◌/◌, ◌%◌, ◌<◌, bit_and, bit_or, Bool, true, false, ◌&&◌, ◌||◌, ◌==◌,
  if◌then◌else◌, ◌≡◌, refl, arith, ==_iff,
}
use rust_gb_emulator.Base.Masks.{every_below, byte_table, bit_and_bit, bit_or_fields}
use rust_gb_emulator.Joypad.{
  Joypad, Buttons, button_lines, direction_lines, update_register, is_pressed, lower_line, get,
}

-- A line of the lower half: 0 where a selected group has its button pressed, else its weight.
unfoldable pub line : Bool → Bool → Bool → Bool → ℕ → ℕ
line select_buttons button select_directions direction weight =
    if (select_buttons && button) || (select_directions && direction) then 0 else weight

-- The lower half of P1 as the hardware wires it.
unfoldable pub lines : Bool → Bool → Buttons → ℕ
unfolding line
lines sb sd m =
    line sb m.start sd m.down 8
    + line sb m.select sd m.up 4
    + line sb m.b sd m.left 2
    + line sb m.a sd m.right 1

-- P1 for the select bits of `register`: 0 selects, and bits 6 and 7 are set.
unfoldable pub visible : ℕ → Buttons → ℕ
visible register m =
    0xC0 + register / 16 % 4 * 16 + lines (register / 32 % 2 == 0) (register / 16 % 2 == 0) m

unfoldable pub both : (Bool → Bool) → Bool
both test = test true && test false

both_lem : (test : Bool → Bool) (v : Bool) → both test ≡ true → test v ≡ true
unfolding both
both_lem test true h = ground arith
both_lem test false h = ground arith

abbrev state_of : Bool → Bool → Bool → Bool → Bool → Bool → Bool → Bool → Buttons
state_of r l u d a b s t = record {
  right = r;
  left = l;
  up = u;
  down = d;
  a = a;
  b = b;
  select = s;
  start = t;
}

-- A test at all 256 states of the buttons.
unfoldable pub every_state : (Buttons → Bool) → Bool
every_state test = both λ r.
    both λ l.
      both λ u. both λ d. both λ a. both λ b. both λ s. both λ t. test (state_of r l u d a b s t)

pub every_state_lem :
    (test : Buttons → Bool) (m : Buttons) → every_state test ≡ true → test m ≡ true
unfolding every_state
every_state_lem test m h =
    both_lem (λ t. test (state_of m.right m.left m.up m.down m.a m.b m.select t)) m.start
      (both_lem (λ s. both λ t. test (state_of m.right m.left m.up m.down m.a m.b s t)) m.select
        (both_lem (λ b. both λ s. both λ t. test (state_of m.right m.left m.up m.down m.a b s t))
          m.b
          (both_lem
            (λ a. both λ b. both λ s. both λ t. test (state_of m.right m.left m.up m.down a b s t))
            m.a
            (both_lem
              (λ d.
                both
                  λ a. both λ b. both λ s. both λ t. test (state_of m.right m.left m.up d a b s t))
              m.down
              (both_lem
                (λ u. both λ d.
                  both
                    λ a. both λ b. both λ s. both λ t. test (state_of m.right m.left u d a b s t))
                m.up
                (both_lem
                  (λ l. both λ u. both λ d.
                    both λ a. both λ b. both λ s. both λ t. test (state_of m.right l u d a b s t))
                  m.left
                  (both_lem
                    (λ r. both λ l. both λ u.
                      both λ d.
                        both λ a. both λ b. both λ s. both λ t. test (state_of r l u d a b s t))
                    m.right h)))))))

-- The lower half of the register, from the two groups that it may show.
abbrev lower_half : Bool → Bool → Joypad → ℕ
lower_half sb sd j =
    let after_buttons = if sb then button_lines j 0x0F else 0x0F in
    if sd then direction_lines j after_buttons else after_buttons

abbrev with_buttons : Buttons → Joypad
with_buttons m = record { buttons = m; register = 0; interrupt_requested = false }

lower_half_lem : (sb sd : Bool) (m : Buttons) → lower_half sb sd (with_buttons m) ≡ lines sb sd m
unfolding every_state both button_lines direction_lines lines lower_line is_pressed get
lower_half_lem sb sd m =
    (==_iff _ _).0
      (every_state_lem (λ s. lower_half sb sd (with_buttons s) == lines sb sd s) m (table sb sd))
  where
    table : (p q : Bool) → every_state (λ s. lower_half p q (with_buttons s) == lines p q s) ≡ true
    table true true = refl
    table true false = refl
    table false true = refl
    table false false = refl

line-le : (sb button sd direction : Bool) (weight : ℕ) → line sb button sd direction weight ≤ weight
unfolding line
line-le sb button sd direction weight = ground arith

lines-lt : (sb sd : Bool) (m : Buttons) → lines sb sd m < 16
unfolding lines
lines-lt sb sd m = omega (
  arith,
  line-le sb m.start sd m.down 8,
  line-le sb m.select sd m.up 4,
  line-le sb m.b sd m.left 2,
  line-le sb m.a sd m.right 1,
)

upper_half : (r : ℕ) → r < 256 → bit_or (bit_and r 0xF0) 0xC0 ≡ (12 + r / 16 % 4) * 16
unfolding every_below
upper_half r h =
    byte_table (λ v. bit_or (bit_and v 0xF0) 0xC0) (λ v. (12 + v / 16 % 4) * 16) r refl h

top_bits : (r : ℕ) → r < 256 → bit_or r 0xC0 ≡ 192 + r % 64
unfolding every_below
top_bits r h = byte_table (λ v. bit_or v 0xC0) (λ v. 192 + v % 64) r refl h

lower_half_self : (sb sd : Bool) (j : Joypad) → lower_half sb sd j ≡ lines sb sd j.buttons
unfolding button_lines direction_lines is_pressed
lower_half_self sb sd j = lower_half_lem sb sd j.buttons

assemble :
    (r l : ℕ)
    → r < 256
    → l < 16
    → bit_or (bit_or (bit_or (bit_and r 0xF0) 0xC0) l) 0xC0 ≡ 0xC0 + r / 16 % 4 * 16 + l
assemble r l h k = ground (
  arith,
  upper_half r,
  bit_or_fields 4 (12 + r / 16 % 4) l,
  top_bits ((12 + r / 16 % 4) * 16 + l),
)

lines-unselected : (m : Buttons) → lines false false m ≡ 15
unfolding lines line
lines-unselected m = refl

update_register-selects :
    (sb sd : Bool) (j : Joypad)
    → j.register < 256
    → (bit_and j.register 0x20 == 0) ≡ sb
    → (bit_and j.register 0x10 == 0) ≡ sd
    → (update_register j).register ≡ 0xC0 + j.register / 16 % 4 * 16 + lines sb sd j.buttons
unfolding update_register
update_register-selects true true j h e f =
    rw (e, f, lower_half_self true true j)
      (assemble j.register (lines true true j.buttons) h (lines-lt true true j.buttons))
update_register-selects true false j h e f =
    rw (e, f, lower_half_self true false j)
      (assemble j.register (lines true false j.buttons) h (lines-lt true false j.buttons))
update_register-selects false true j h e f =
    rw (e, f, lower_half_self false true j)
      (assemble j.register (lines false true j.buttons) h (lines-lt false true j.buttons))
update_register-selects false false j h e f =
    rw (e, f, lines-unselected j.buttons) (assemble j.register 15 h (omega arith))

pub selects-buttons : (r : ℕ) → (bit_and r 0x20 == 0) ≡ (r / 32 % 2 == 0)
selects-buttons r = ground (arith, bit_and_bit 5 r)

pub selects-directions : (r : ℕ) → (bit_and r 0x10 == 0) ≡ (r / 16 % 2 == 0)
selects-directions r = ground (arith, bit_and_bit 4 r)

-- The register that `update_register` computes.
pub update_register_lem :
    (j : Joypad)
    → j.register < 256
    → update_register j ≡ record j { register = visible j.register j.buttons }
unfolding visible update_register
update_register_lem j h =
    let sb = j.register / 32 % 2 == 0 in
    let sd = j.register / 16 % 2 == 0 in
    let e =
      update_register-selects sb sd j h (selects-buttons j.register)
        (selects-directions j.register) in
    λ i. record j { register = e i }

pub visible-lt : (r : ℕ) (m : Buttons) → visible r m < 256
unfolding visible
visible-lt r m = omega (arith, lines-lt (r / 32 % 2 == 0) (r / 16 % 2 == 0) m)

-- Only the two select bits matter.
pub visible-select : (r q : ℕ) (m : Buttons) → r / 16 % 4 ≡ q / 16 % 4 → visible r m ≡ visible q m
unfolding visible
visible-select r q m e = ground (arith, same5, same4)
  where
    same5 : r / 32 % 2 ≡ q / 32 % 2
    same5 = omega arith

    same4 : r / 16 % 2 ≡ q / 16 % 2
    same4 = omega arith
