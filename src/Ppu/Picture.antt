-- ===== src/Ppu/Picture.antt =====
-- The picture of a frame that no write interrupts, and the run that draws it.
use rust_gb_emulator.Base.{
  ℕ, zero, suc, ◌+◌, ◌*◌, ◌/◌, ◌%◌, ◌<◌, ◌≤◌, leb, if◌then◌else◌, ◌≡◌, ap, sym, ◌∙◌, arith, Build,
  Bool-cases, inl, inr, ◌⊎◌,
}
use rust_gb_emulator.Ppu.State.{Ppu}
use rust_gb_emulator.Ppu.Render.{Colour}
use rust_gb_emulator.Ppu.Step.{Stepped}
use rust_gb_emulator.Ppu.Timing.{IsTimed, position, Arrives}
use rust_gb_emulator.Ppu.Clock.{passes_vblank}
use rust_gb_emulator.Ppu.Kept.{SameRegisters}
use rust_gb_emulator.Ppu.Pixels.{colour_at}
use rust_gb_emulator.Ppu.Reference.{line_colour}
use rust_gb_emulator.Ppu.Effects.{Unpainted}
use rust_gb_emulator.Ppu.Scanline.{shows_window}
use rust_gb_emulator.Ppu.Scene.{at_line}

-- The lines above line y that show the window.
unfoldable pub window_lines : Ppu → ℕ → ℕ
window_lines p zero = 0
window_lines p (suc y) =
    let above = window_lines p y in if shows_window p y then above + 1 else above

-- The pixel of the picture at column x of line y.
abbrev pub picture : Ppu → ℕ → ℕ → Colour
picture p y x = line_colour (at_line p y (window_lines p y)) x

pub window_lines-le : (p : Ppu) (y : ℕ) → window_lines p y ≤ y
unfolding window_lines
window_lines-le p zero = omega arith
window_lines-le p (suc y) = let h = window_lines-le p y in ground arith

-- The window's counter at a place of the frame: 0 in VBlank, else by the lines already drawn.
abbrev pub counter_at : Ppu → ℕ → ℕ
counter_at p place = if leb 65664 place then 0 else window_lines p ((place + 204) / 456)

-- A unit q that has come from p without a write: the lines that the frame has drawn so far show the
-- picture of p, and the window's counter is the one of its place.
pub record Shows (p q : Ppu) : Type 0 where
  pub timed : IsTimed q
  pub registers : SameRegisters p q
  pub lcdc : q.lcdc ≡ p.lcdc
  pub counter : q.window_line_counter ≡ counter_at p (position q)
  pub lines :
      (y x : ℕ)
      → y < 144
      → x < 160
      → y * 456 + 252 ≤ position q
      → colour_at q.framebuffer y x ≡ picture p y x

-- The arithmetic of a step that draws no line: which lines are drawn, and the window's counter.
abbrev pub DrawsNone : ℕ → ℕ → Type 0
DrawsNone place after = (65664 ≤ place) ⊎ ((place + 204) / 456 ≡ (after + 204) / 456)

lines_before :
    (place cycles y : ℕ)
    → place < 70224
    → cycles ≤ 80
    → DrawsNone place (place + cycles)
    → y < 144
    → y * 456 + 252 ≤ (place + cycles) % 70224
    → y * 456 + 252 ≤ place
lines_before place cycles y h k (inl late) l m = omega arith
lines_before place cycles y h k (inr same) l m = omega arith

counter_late :
    (p : Ppu) (place cycles : ℕ)
    → place < 70224
    → cycles ≤ 80
    → 65664 ≤ place
    → counter_at p ((place + cycles) % 70224) ≡ 0
unfolding window_lines
counter_late p place cycles h k late = elim (Bool-cases (leb 70224 (place + cycles))) [
  | inl wraps ↦
      let first : ((place + cycles) % 70224 + 204) / 456 ≡ 0 = ground arith in
      rw first (ground arith)
  | inr stays ↦ ground arith
]

counter_moves :
    (p : Ppu) (place cycles : ℕ)
    → place < 70224
    → cycles ≤ 80
    → DrawsNone place (place + cycles)
    → (if passes_vblank place (place + cycles) then 0 else counter_at p place)
      ≡ counter_at p ((place + cycles) % 70224)
counter_moves p place cycles h k (inl late) = ground (arith, counter_late p place cycles)
counter_moves p place cycles h k (inr same) = elim (Bool-cases (leb 65664 place)) [
  | inl late ↦ ground (arith, counter_late p place cycles)
  | inr early ↦
      let stays : (place + cycles) % 70224 ≡ place + cycles = ground arith in
      rw (stays, sym same) (ground arith)
]

pub kept_on : (p q s : Ppu) → SameRegisters p q → SameRegisters q s → SameRegisters p s
kept_on p q s v w = ground arith

-- A step that is not the end of a drawing mode.
pub undrawn :
    (b : Build) (cycles : ℕ) (p q : Ppu) (r : Stepped)
    → Shows p q
    → cycles ≤ 80
    → Unpainted q r
    → SameRegisters q r.0
    → Arrives q (position q + cycles) (passes_vblank (position q) (position q + cycles)) r
    → DrawsNone (position q) (position q + cycles)
    → position q < 70224
    → Shows p r.0
undrawn b cycles p q r v h same kept arrives none l = record {
  timed = arrives.timed;
  registers = kept_on p q r.0 v.registers kept;
  lcdc = arrives.lcdc_kept ∙ v.lcdc;
  counter =
      same.counter
      ∙ (λ i. if arrives.asked i then 0 else v.counter i)
      ∙ counter_moves p (position q) cycles l h none
      ∙ ap (counter_at p) (sym arrives.place);
  lines = λ y x y_small x_small passed.
      ap (λ framebuffer. colour_at framebuffer y x) same.framebuffer
      ∙ v.lines y x y_small x_small
          (lines_before (position q) cycles y l h none y_small (rw (sym arrives.place) passed));
}
