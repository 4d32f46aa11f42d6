-- ===== src/Ppu/Drawn.antt =====
-- The step that ends a line's drawing mode, and the picture.
use rust_gb_emulator.Base.{
  ℕ, suc, ◌+◌, ◌-◌, ◌*◌, ◌/◌, ◌%◌, ◌<◌, ◌≤◌, false, ltb, ◌==◌, if◌then◌else◌, ◌≡◌, ◌≢◌, ap, sym,
  ◌∙◌, arith, Bool-cases, inl, inr, ◌⊎◌,
}
use rust_gb_emulator.Base.Tests.{==_iff}
use rust_gb_emulator.Ppu.State.{Ppu}
use rust_gb_emulator.Ppu.Window.{render_scanline}
use rust_gb_emulator.Ppu.Fields.{set_mode_lem}
use rust_gb_emulator.Ppu.Timing.{position, Arrives}
use rust_gb_emulator.Ppu.Clock.{passes_vblank, fed}
use rust_gb_emulator.Ppu.Kept.{SameRegisters, IsVideo, set_mode_kept}
use rust_gb_emulator.Ppu.Pixels.{colour_at}
use rust_gb_emulator.Ppu.Reference.{line_colour}
use rust_gb_emulator.Ppu.Outside.{render_scanline-both_at}
use rust_gb_emulator.Ppu.Effects.{set_mode-Untouched, drawing_ends}
use rust_gb_emulator.Ppu.Scanline.{
  render_scanline-line_colour, shows_window, render_scanline-window_line_counter,
}
use rust_gb_emulator.Ppu.Scene.{at_line, line_colour-at_line}
use rust_gb_emulator.Ppu.Picture.{window_lines, picture, window_lines-le, Shows, kept_on}

-- The unit whose line is drawn at the end of a drawing mode.
pub record Ends (q s : Ppu) : Type 0 where
  pub ly : s.ly ≡ q.ly
  pub registers : SameRegisters q s
  pub lcdc : s.lcdc ≡ q.lcdc
  pub counter : s.window_line_counter ≡ q.window_line_counter
  pub framebuffer : s.framebuffer ≡ q.framebuffer

pub ends : (cycles : ℕ) (q : Ppu) → q.stat < 256 → Ends q (drawing_ends (fed cycles q))
ends cycles q h =
    let t = record (fed cycles q) { mode_cycles = q.mode_cycles + cycles - 172 } in
    ground (arith, set_mode_lem t 0, set_mode_kept t 0, set_mode-Untouched t 0)

-- The pixels of the other lines stay.
pub other_line :
    (s : Ppu) (y x : ℕ)
    → y ≢ s.ly
    → x < 160
    → colour_at (render_scanline s).framebuffer y x ≡ colour_at s.framebuffer y x
other_line s y x n h =
    let kept : (j : ℕ)
        → (j < s.ly * 480) ⊎ (s.ly * 480 + 480 ≤ j)
        → (render_scanline s).framebuffer j ≡ s.framebuffer j =
      λ j out. (render_scanline-both_at s j (s.ly * 160 + 160) out (inr (omega arith))).0 in
    let j = (y * 160 + x) * 3 in
    let at : (k : ℕ) → j ≤ k → k < j + 3 → (render_scanline s).framebuffer k ≡ s.framebuffer k =
      λ k l m. elim (Bool-cases (ltb y s.ly)) [
        | inl above ↦ kept k (inl (ground arith))
        | inr below ↦ kept k (inr (ground arith))
      ] in
    λ i. record {
      red = at j (omega arith) (omega arith) i;
      green = at (j + 1) (omega arith) (omega arith) i;
      blue = at (j + 2) (omega arith) (omega arith) i;
    }

same_window :
    (p s : Ppu) → SameRegisters p s → s.lcdc ≡ p.lcdc → shows_window s s.ly ≡ shows_window p s.ly
same_window p s v e = λ i. shows_window (record p { lcdc = e i; wy = v.wy i; wx = v.wx i }) s.ly

-- The window's counter after line y is drawn.
counted_on :
    (p : Ppu) (y n : ℕ)
    → y < 144
    → n ≡ window_lines p y
    → (if shows_window p y then (n + 1) % 256 else n) ≡ window_lines p (suc y)
unfolding window_lines
counted_on p y n h e = let l = window_lines-le p y in ground arith

-- A line that is drawn shows the picture's.
drawn_line :
    (p s : Ppu) (x : ℕ)
    → IsVideo s
    → SameRegisters p s
    → s.lcdc ≡ p.lcdc
    → s.ly < 144
    → s.window_line_counter ≡ window_lines p s.ly
    → x < 160
    → colour_at (render_scanline s).framebuffer s.ly x ≡ picture p s.ly x
drawn_line p s x video same lcdc low counter h =
    render_scanline-line_colour s x video (ground (arith, window_lines-le p s.ly)) low h
    ∙ line_colour-at_line p s x same lcdc
    ∙ ap (λ n. line_colour (at_line p s.ly n) x) counter

drawn_counter :
    (p s : Ppu)
    → IsVideo s
    → SameRegisters p s
    → s.lcdc ≡ p.lcdc
    → s.ly < 144
    → s.window_line_counter ≡ window_lines p s.ly
    → (render_scanline s).window_line_counter ≡ window_lines p (suc s.ly)
drawn_counter p s video same lcdc low counter =
    let n = s.window_line_counter in
    render_scanline-window_line_counter s video (ground (arith, window_lines-le p s.ly)) low
    ∙ ap (λ test. if test then (n + 1) % 256 else n) (same_window p s same lcdc)
    ∙ counted_on p s.ly n low counter

-- The step that ends the drawing of a line.
pub drawn :
    (cycles : ℕ) (p q s : Ppu)
    → IsVideo p
    → Shows p q
    → Ends q s
    → q.stat % 4 ≡ 3
    → 172 ≤ q.mode_cycles + cycles
    → cycles ≤ 80
    → Arrives q
        (position q + cycles)
        (passes_vblank (position q) (position q + cycles))
        (render_scanline s, false)
    → SameRegisters q (render_scanline s)
    → Shows p (render_scanline s)
drawn cycles p q s video v w m over h arrives kept =
    let low : q.ly < 144 = ground arith in
    let low' : s.ly < 144 = ground arith in
    let lines : (position q + 204) / 456 ≡ q.ly = ground arith in
    let before : q.window_line_counter ≡ window_lines p q.ly =
      v.counter ∙ (ground arith) ∙ ap (window_lines p) lines in
    let registers = kept_on p q s v.registers w.registers in
    let lcdc : s.lcdc ≡ p.lcdc = w.lcdc ∙ v.lcdc in
    let counter : s.window_line_counter ≡ window_lines p s.ly =
      w.counter ∙ before ∙ ap (window_lines p) (sym w.ly) in
    let is_video : IsVideo s = ground arith in
    let after : (position (render_scanline s) + 204) / 456 ≡ suc s.ly = ground arith in
    record {
      timed = arrives.timed;
      registers = kept_on p q (render_scanline s) v.registers kept;
      lcdc = arrives.lcdc_kept ∙ v.lcdc;
      counter =
          drawn_counter p s is_video registers lcdc low' counter
          ∙ sym (ap (window_lines p) after)
          ∙ (ground arith);
      lines = λ y x y_small x_small passed. elim (Bool-cases (y == s.ly)) [
        | inl same ↦
            rw ((==_iff y s.ly).0 same)
              (drawn_line p s x is_video registers lcdc low' counter x_small)
        | inr differs ↦
            other_line s y x (ground arith) x_small
            ∙ ap (λ framebuffer. colour_at framebuffer y x) w.framebuffer
            ∙ v.lines y x y_small x_small (ground arith)
      ];
    }
