-- ===== src/Ppu/Frames.antt =====
-- Many steps, writes of registers, and the LCD off.
use rust_gb_emulator.Base.{
  ℕ, zero, suc, ◌+◌, ◌-◌, ◌*◌, ◌/◌, ◌%◌, ◌<◌, ◌≤◌, bit_and, bit_or, false, if◌then◌else◌, ◌≡◌, refl,
  arith, Build, Outcome, ok, ◌>>=◌, List, [], ◌∷◌,
}
use rust_gb_emulator.Base.Masks.{bit_and_ones, bit_and_bit, bit_and_field, bit_or_fields'}
use rust_gb_emulator.Ppu.State.{Ppu, new, write}
use rust_gb_emulator.Ppu.Step.{Stepped, step, lcd_off}
use rust_gb_emulator.Ppu.Fields.{set_mode_lem}
use rust_gb_emulator.Ppu.Timing.{IsTimed, position}
use rust_gb_emulator.Ppu.Clock.{step-Arrives, passes_vblank}

-- Steps of the sizes in the list, with the count of those that ask for VBlank.
unfoldable pub run : Build → List ℕ → Ppu → Outcome (Ppu × ℕ)
run b [] p = ok (p, 0)
run b (cycles ∷ rest) p = do
  r ← step b cycles p
  q ← run b rest r.0
  ok (q.0, if r.1 then q.1 + 1 else q.1)

abbrev pub total : List ℕ → ℕ
total [] = 0
total (cycles ∷ rest) = cycles + total rest

-- Every step is of at most 80 cycles; the processor's are of 4 to 24.
abbrev pub AllShort : List ℕ → Type 0
AllShort [] = Unit {0}
AllShort (cycles ∷ rest) = (cycles ≤ 80) × AllShort rest

pub sum_place :
    (x c t y z : ℕ) → y ≡ (x + c) % 70224 → z ≡ (y + t) % 70224 → z ≡ (x + (c + t)) % 70224
sum_place x c t y z e f = omega arith

sum_count :
    (x c t y n : ℕ)
    → x < 70224
    → c ≤ 80
    → y ≡ (x + c) % 70224
    → n ≡ (y + t + 4560) / 70224 - (y + 4560) / 70224
    → (if passes_vblank x (x + c) then n + 1 else n)
      ≡ (x + (c + t) + 4560) / 70224 - (x + 4560) / 70224
sum_count x c t y n h k e f = ground arith

pub position-lt : (p : Ppu) → IsTimed p → position p < 70224
position-lt p v = ground arith

-- With the LCD on, any steps of at most 80 cycles return in both builds and keep the unit well
-- timed, their sum is the way it goes in a frame of 70224 cycles, and VBlank is asked for once for
-- each time that the way passes cycle 65664 of a frame.
pub run-frames :
    (b : Build) (steps : List ℕ) (p : Ppu)
    → IsTimed p
    → p.lcdc / 128 % 2 ≡ 1
    → AllShort steps
    → (q : Ppu) × (n : ℕ) × (run b steps p ≡ ok (q, n))
      × IsTimed q
      × (position q ≡ (position p + total steps) % 70224)
      × (n ≡ (position p + total steps + 4560) / 70224 - (position p + 4560) / 70224)
unfolding run
run-frames b [] p v on h = (p, 0, refl, v, ground arith, ground arith)
run-frames b (cycles ∷ rest) p v on h =
    let (r, returns, arrives) = step-Arrives b cycles p v on h.0 in
    let (q, n, runs, timed, place, count) =
      run-frames b rest r.0 arrives.timed (ground arith) h.1 in
    (
      q,
      if r.1 then n + 1 else n,
      rw (returns, runs),
      timed,
      sum_place (position p) cycles (total rest) (position r.0) (position q) arrives.place place,
      rw arrives.asked (
          sum_count (position p) cycles (total rest) (position r.0) n (position-lt p v) h.0
            arrives.place count),
    )

-- What register writes and steps keep: STAT and LCDC are bytes, and the unit is well timed while
-- the LCD is on. While it is off the mode stays where it was, and LY is 0.
pub record IsPpu (p : Ppu) : Type 0 where
  pub stat_byte : p.stat < 256
  pub lcdc_byte : p.lcdc < 256
  pub timed_on : p.lcdc / 128 % 2 ≡ 1 → IsTimed p

lower_upper :
    (s v : ℕ) → s < 256 → v < 256 → bit_or (bit_and s 0x07) (bit_and v 0xF8) ≡ v / 8 * 8 + s % 8
lower_upper s v h k =
    ground (arith, bit_and_ones 3 s, bit_and_field 3 5 v, bit_or_fields' 3 (v / 8) (s % 8))

-- A new unit is well formed, and a write of a byte to any address keeps a unit so, one that
-- switches the LCD on included.
pub write-IsPpu :
    (p : Ppu) (address value : ℕ)
    → IsPpu p
    → value < 256
    → IsPpu new × IsPpu (write p address value)
unfolding new write
write-IsPpu p address value v h = (
  ground arith,
  ground (
    arith,
    bit_and_bit 7 p.lcdc,
    bit_and_bit 7 value,
    lower_upper p.stat value,
    set_mode_lem (record p { lcdc = value; ly = 0; mode_cycles = 0 }) 2,
  ),
)

pub step-off :
    (b : Build) (cycles : ℕ) (p : Ppu)
    → p.lcdc / 128 % 2 ≡ 0
    → step b cycles p ≡ ok (lcd_off p, false)
unfolding step
step-off b cycles p off = ground (arith, bit_and_bit 7 p.lcdc)

lcd_off-IsPpu : (p : Ppu) → p.lcdc / 128 % 2 ≡ 0 → IsPpu p → IsPpu (lcd_off p)
unfolding lcd_off
lcd_off-IsPpu p off v = ground arith

-- In both builds a step of at most 80 cycles of a well-formed unit returns, with the LCD on or
-- off, and leaves a well-formed unit.
pub step-IsPpu :
    (b : Build) (cycles : ℕ) (p : Ppu)
    → IsPpu p
    → cycles ≤ 80
    → (r : Stepped) × (step b cycles p ≡ ok r) × IsPpu r.0
step-IsPpu b cycles p v h = by_lcd (p.lcdc / 128 % 2) refl
  where
    by_lcd : (n : ℕ) → p.lcdc / 128 % 2 ≡ n → (r : Stepped) × (step b cycles p ≡ ok r) × IsPpu r.0
    by_lcd zero e = ((lcd_off p, false), step-off b cycles p e, lcd_off-IsPpu p e v)
    by_lcd (suc zero) e =
        let (r, returns, arrives) = step-Arrives b cycles p (v.timed_on e) e h in
        (
          r,
          returns,
          record {
            stat_byte = arrives.timed.stat_u8;
            lcdc_byte = rw arrives.lcdc_kept v.lcdc_byte;
            timed_on = λ on. arrives.timed;
          },
        )
    by_lcd (suc (suc n)) e = absurd (omega arith)
