-- ===== src/Ppu/Scanline.antt =====
-- A whole line: background, window and sprites together, against the reference.
use rust_gb_emulator.Base.{
  ℕ, ◌+◌, ◌%◌, ◌<◌, bit_and, Bool, true, false, not, ◌&&◌, ltb, leb, ◌!=◌, if◌then◌else◌, ◌≡◌, refl,
  ap, ◌∙◌, arith,
}
use rust_gb_emulator.Ppu.State.{Ppu, lcdc_bg_enable, lcdc_window_enable}
use rust_gb_emulator.Ppu.Kept.{AllBytes, IsVideo}
use rust_gb_emulator.Ppu.Render.{Colour, Canvas, white_line, render_background_line}
use rust_gb_emulator.Ppu.Window.{render_window_line, draw_line, render_scanline}
use rust_gb_emulator.Ppu.Pixels.{Pixel, pixel_at, colour_at}
use rust_gb_emulator.Ppu.Reference.{
  lcdc_bit, background_number, window_number, shown, white, behind, overlaid, crossed, first_of,
  line_colour,
}
use rust_gb_emulator.Ppu.Tiles.{bit_tests}
use rust_gb_emulator.Ppu.Passes.{white_line-at, render_background_line-at}
use rust_gb_emulator.Ppu.WindowPass.{view_of, render_window_line-at, render_window_line-counter}
use rust_gb_emulator.Ppu.SpritePass.{render_sprites_line-at}

-- The canvas before a line, and behind its sprites.
abbrev before : Ppu → Canvas
before p = record { framebuffer = p.framebuffer; bg_color_index = p.bg_color_index }

abbrev first_pass : Ppu → Canvas → Canvas
first_pass p c =
    if bit_and p.lcdc lcdc_bg_enable != 0
    then render_background_line p p.ly c
    else white_line p.ly c

abbrev second_pass : Ppu → Canvas → Canvas × ℕ
second_pass p c =
    if bit_and p.lcdc lcdc_window_enable != 0 && bit_and p.lcdc lcdc_bg_enable != 0
    then render_window_line p p.ly c
    else (c, p.window_line_counter)

first_pass-at :
    (p : Ppu) (x : ℕ) (c : Canvas)
    → AllBytes p.vram
    → x < 160
    → pixel_at p.ly x (first_pass p c)
      ≡ (if lcdc_bit p 0 then shown p (background_number p x) else white)
first_pass-at p x c bytes h =
    let on = bit_and p.lcdc lcdc_bg_enable != 0 in
    view_of on (pixel_at p.ly x) (render_background_line p p.ly c) (white_line p.ly c)
    ∙ ap (λ q. if on then q else pixel_at p.ly x (white_line p.ly c))
        (render_background_line-at p x c bytes h)
    ∙ ap (λ q. if on then shown p (background_number p x) else q) (white_line-at p.ly x c h)
    ∙ ap (λ t. if t then shown p (background_number p x) else white) (bit_tests p.lcdc 0)

-- The three layers in one choice.
layers :
    {A : Type 0} (enabled background inside : Bool) (window back blank_line : A)
    → (if enabled && background
        then if inside then window else if background then back else blank_line
        else if background
        then back
        else blank_line)
      ≡ (if not background then blank_line else if enabled && inside then window else back)
layers true true inside window back blank_line = refl
layers true false inside window back blank_line = refl
layers false true inside window back blank_line = refl
layers false false inside window back blank_line = refl

second_pass-at :
    (p : Ppu) (x : ℕ) (c : Canvas)
    → IsVideo p
    → p.window_line_counter < 256
    → x < 160
    → pixel_at p.ly x (second_pass p (first_pass p c)).0 ≡ behind p x
unfolding behind
second_pass-at p x c v small h =
    let c1 = first_pass p c in
    let enabled = bit_and p.lcdc lcdc_window_enable != 0 in
    let background = bit_and p.lcdc lcdc_bg_enable != 0 in
    let inside = leb p.wy p.ly && leb p.wx (x + 7) in
    let window = shown p (window_number p x) in
    let back = shown p (background_number p x) in
    let under : Pixel = if lcdc_bit p 0 then back else white in
    view_of (enabled && background) (λ (r : Canvas × ℕ). pixel_at p.ly x r.0)
      (render_window_line p p.ly c1) (c1, p.window_line_counter)
    ∙ ap (λ q. if enabled && background then q else pixel_at p.ly x c1)
        (render_window_line-at p x c1 v.vram_bytes small v.wx_u8 v.ly_u8 h)
    ∙ ap (λ q. if enabled && background then if inside then window else q else q)
        (first_pass-at p x c v.vram_bytes h)
    ∙ ap (λ t. if t && background then if inside then window else under else under)
        (bit_tests p.lcdc 5)
    ∙ ap (λ t. if lcdc_bit p 5 && t then if inside then window else under else under)
        (bit_tests p.lcdc 0)
    ∙ layers (lcdc_bit p 5) (lcdc_bit p 0) inside window back white

-- With bytes in the registers, VRAM and OAM, a line below 144 that is drawn shows, at each of its 160
-- columns, the colour that the reference gives: the background as it scrolls, the window on it, and
-- on both the first ten sprites that the line crosses, the last visible one on top.
pub render_scanline-line_colour :
    (p : Ppu) (x : ℕ)
    → IsVideo p
    → p.window_line_counter < 256
    → p.ly < 144
    → x < 160
    → colour_at (render_scanline p).framebuffer p.ly x ≡ line_colour p x
unfolding render_scanline draw_line line_colour
render_scanline-line_colour p x v small low h =
    let c2 = (second_pass p (first_pass p (before p))).0 in
    let over : Pixel → Colour =
      λ under. overlaid p under.number (first_of 10 (crossed p 40 0)) x under.colour in
    not_below (leb 144 p.ly) (λ (q : Ppu). colour_at q.framebuffer p.ly x) p _ (ground arith)
    ∙ render_sprites_line-at p x c2 v.oam_bytes h
    ∙ ap over (second_pass-at p x (before p) v small h)
  where
    not_below :
        (test : Bool) (view : Ppu → Colour) (a b : Ppu)
        → test ≡ false
        → view (if test then a else b) ≡ view b
    not_below true view a b e = cc
    not_below false view a b e = refl

-- Whether a line shows a column of the window.
abbrev pub shows_window : Ppu → ℕ → Bool
shows_window p y = lcdc_bit p 5 && lcdc_bit p 0 && (leb p.wy y && ltb p.wx 167)

-- The window's counter goes on by one, in eight bits, on a line that shows a column of the window,
-- and on no other.
pub render_scanline-window_line_counter :
    (p : Ppu)
    → IsVideo p
    → p.window_line_counter < 256
    → p.ly < 144
    → (render_scanline p).window_line_counter
      ≡ (if shows_window p p.ly then (p.window_line_counter + 1) % 256 else p.window_line_counter)
unfolding render_scanline draw_line
render_scanline-window_line_counter p v small low =
    let c1 = first_pass p (before p) in
    let enabled = bit_and p.lcdc lcdc_window_enable != 0 in
    let background = bit_and p.lcdc lcdc_bg_enable != 0 in
    let count : Bool → ℕ =
      λ t. if t then (p.window_line_counter + 1) % 256 else p.window_line_counter in
    let inside = leb p.wy p.ly && ltb p.wx 167 in
    drawn (leb 144 p.ly) _ (ground arith)
    ∙ view_of (enabled && background) (λ (r : Canvas × ℕ). r.1) (render_window_line p p.ly c1)
        (c1, p.window_line_counter)
    ∙ ap (λ n. if enabled && background then n else p.window_line_counter)
        (render_window_line-counter p c1 v.vram_bytes small v.wx_u8 v.ly_u8)
    ∙ ap (λ t. if t && background then count inside else p.window_line_counter) (bit_tests p.lcdc 5)
    ∙ ap (λ t. if lcdc_bit p 5 && t then count inside else p.window_line_counter)
        (bit_tests p.lcdc 0)
    ∙ under (lcdc_bit p 5 && lcdc_bit p 0) inside
  where
    drawn :
        (test : Bool) (q : Ppu)
        → test ≡ false
        → (if test then p else q).window_line_counter ≡ q.window_line_counter
    drawn true q e = cc
    drawn false q e = refl

    under :
        (on inside : Bool)
        → (if on
            then if inside then (p.window_line_counter + 1) % 256 else p.window_line_counter
            else p.window_line_counter)
          ≡ (if on && inside then (p.window_line_counter + 1) % 256 else p.window_line_counter)
    under true inside = refl
    under false inside = refl
