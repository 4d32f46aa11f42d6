-- ===== src/Ppu/Outside.antt =====
-- What the drawing of a line leaves alone: the bytes of the other lines.
use rust_gb_emulator.Base.{
  ℕ, zero, suc, ◌+◌, ◌-◌, ◌*◌, ◌/◌, ◌%◌, ◌<◌, ◌≤◌, bit_and, Bool, true, false, ◌&&◌, ltb, leb, ◌!=◌,
  if◌then◌else◌, u8, List, [], ◌∷◌, ◌≡◌, refl, ◌∙◌, arith, Bool-cases, inl, inr, ◌⊎◌, set_at,
}
use rust_gb_emulator.Ppu.State.{
  Ppu, lcdc_bg_enable, lcdc_window_enable, lcdc_window_tilemap, lcdc_bg_tilemap,
}
use rust_gb_emulator.Ppu.Render.{
  Colour, Canvas, TilePixel, skipped, blank, coloured, colors, tile_pixel, paint, paint_tile,
  get_palette, color_id_at, white_line, render_background_line, for_range,
}
use rust_gb_emulator.Ppu.Window.{
  WindowPass, window_pixel, window_start, window_pass, render_window_line, sprite_pixel, sprite_row,
  draw_sprite, draw_all, collect_sprites, render_sprites_line, draw_line, render_scanline,
}
use rust_gb_emulator.Ppu.Pixels.{put_pixel-outside, for_range-kept}

-- A byte of the framebuffer, and an entry of the colour numbers, that are none of a line's.
abbrev NotInLine : ℕ → ℕ → ℕ → Type 0
NotInLine ly j m =
    ((if leb (ly * 480) j then ltb j (ly * 480 + 480) else false) ≡ false)
    × ((if leb (ly * 160) m then ltb m (ly * 160 + 160) else false) ≡ false)

abbrev pub both_at : ℕ → ℕ → Canvas → ℕ × ℕ
both_at j m c = (c.framebuffer j, c.bg_color_index m)

module _ (ly j m : ℕ) (out : NotInLine ly j m) where
  paint-both_at :
      (k : ℕ) (colour : Colour) (number : ℕ) (c : Canvas)
      → k < 160
      → both_at j m (paint ly k colour number c) ≡ both_at j m c
  unfolding paint
  paint-both_at k colour number c h =
      let first = put_pixel-outside c.framebuffer ly k j colour h out.0 in
      let second : set_at c.bg_color_index (ly * 160 + k) number m ≡ c.bg_color_index m =
        ground (arith, out.1) in
      λ i. (first i, second i)

  paint_tile-both_at :
      (p : Ppu) (k : ℕ) (t : TilePixel) (c : Canvas)
      → k < 160
      → both_at j m (paint_tile p ly k t c) ≡ both_at j m c
  unfolding paint_tile
  paint_tile-both_at p k skipped c h = refl
  paint_tile-both_at p k blank c h = paint-both_at k (get_palette p.bgp 0) 0 c h
  paint_tile-both_at p k (coloured n) c h = paint-both_at k (get_palette p.bgp n) n c h

  white_line-both_at : (c : Canvas) → both_at j m (white_line ly c) ≡ both_at j m c
  unfolding white_line colors
  white_line-both_at c =
      for_range-kept (both_at j m) (λ k. paint ly k (colors 0) 0) 160
        (λ k s h. paint-both_at k (colors 0) 0 s h) 160 0 c (omega arith)

  render_background_line-both_at :
      (p : Ppu) (c : Canvas) → both_at j m (render_background_line p ly c) ≡ both_at j m c
  unfolding render_background_line
  render_background_line-both_at p c =
      let y = u8 (u8 ly + p.scy) in
      let base : ℕ = if bit_and p.lcdc lcdc_bg_tilemap != 0 then 0x9C00 else 0x9800 in
      let shows : ℕ → TilePixel = λ k. tile_pixel p base (y / 8 % 32) (y % 8) (u8 (u8 k + p.scx)) in
      for_range-kept (both_at j m) (λ k. paint_tile p ly k (shows k)) 160
        (λ k s h. paint_tile-both_at p k (shows k) s h) 160 0 c (omega arith)

  window_pass-both_at :
      (p : Ppu) (w : WindowPass) → both_at j m (window_pass p ly w).canvas ≡ both_at j m w.canvas
  unfolding window_pass window_pixel for_range
  window_pass-both_at p w =
      let start = (window_start p.wx).0 in
      let y = p.window_line_counter in
      let base : ℕ = if bit_and p.lcdc lcdc_window_tilemap != 0 then 0x9C00 else 0x9800 in
      let shows : ℕ → TilePixel =
        λ k. tile_pixel p base (y / 8 % 32) (y % 8) ((window_start p.wx).1 + (k - start)) in
      elim (Bool-cases (leb start 160)) [
        | inl some_columns ↦
            for_range-kept (λ (v : WindowPass). both_at j m v.canvas)
              (λ k. window_pixel p ly k (shows k)) 160
              (λ k s h. paint_tile-both_at p k (shows k) s.canvas h) (160 - start) start w
              (ground arith)
        | inr beyond ↦
            none_left (160 - start) (ground arith) (λ k. window_pixel p ly k (shows k)) start w
      ]
    where
      none_left :
          (n : ℕ)
          → n ≡ 0
          → (body : ℕ → WindowPass → WindowPass) (start : ℕ) (w : WindowPass)
          → both_at j m (for_range n start body w).canvas ≡ both_at j m w.canvas
      none_left zero e body start w = refl
      none_left (suc n) e body start w = absurd (omega arith)

  render_window_line-both_at :
      (p : Ppu) (c : Canvas) → both_at j m (render_window_line p ly c).0 ≡ both_at j m c
  unfolding render_window_line
  render_window_line-both_at p c =
      let passed = window_pass-both_at p (record { canvas = c; rendered = false }) in
      ground (arith, passed)

  sprite_pixel-both_at :
      (p : Ppu) (oam_x attr byte1 byte2 px : ℕ) (c : Canvas)
      → both_at j m (sprite_pixel p ly oam_x attr byte1 byte2 px c) ≡ both_at j m c
  unfolding sprite_pixel
  sprite_pixel-both_at p oam_x attr byte1 byte2 px c =
      let shift = if bit_and attr 0x20 != 0 then px else 7 - px in
      let x = oam_x + px - 8 in
      let colour =
        get_palette (if bit_and attr 0x10 != 0 then p.obp1 else p.obp0)
          (color_id_at byte1 byte2 shift) in
      elim (Bool-cases (leb 8 (oam_x + px) && ltb (oam_x + px) 168)) [
        | inl on ↦
            let kept = put_pixel-outside c.framebuffer ly x j colour (ground arith) out.0 in
            ground (arith, kept)
        | inr off ↦ rw off (ground arith)
      ]

  draw_sprite-both_at :
      (p : Ppu) (i : ℕ) (c : Canvas) → both_at j m (draw_sprite p ly i c) ≡ both_at j m c
  unfolding draw_sprite
  draw_sprite-both_at p i c =
      let row = sprite_row p ly i in
      let pixel =
        sprite_pixel p ly (p.oam (i * 4 + 1)) (p.oam (i * 4 + 3)) (p.vram row) (p.vram (row + 1)) in
      either (leb 0x2000 (row + 1)) (for_range 8 0 pixel c) (
        for_range-kept (both_at j m) pixel 8
          (λ k s h.
            sprite_pixel-both_at p (p.oam (i * 4 + 1)) (p.oam (i * 4 + 3)) (p.vram row)
              (p.vram (row + 1)) k s)
          8 0 c (omega arith))
    where
      either :
          (test : Bool) (drawn : Canvas)
          → both_at j m drawn ≡ both_at j m c
          → both_at j m (if test then c else drawn) ≡ both_at j m c
      either true drawn h = refl
      either false drawn h = h

  draw_all-both_at :
      (p : Ppu) (l : List ℕ) (c : Canvas) → both_at j m (draw_all p ly l c) ≡ both_at j m c
  unfolding draw_all
  draw_all-both_at p [] c = refl
  draw_all-both_at p (i ∷ l) c =
      draw_all-both_at p l (draw_sprite p ly i c) ∙ draw_sprite-both_at p i c

  render_sprites_line-both_at :
      (p : Ppu) (c : Canvas) → both_at j m (render_sprites_line p ly c) ≡ both_at j m c
  unfolding render_sprites_line
  render_sprites_line-both_at p c = draw_all-both_at p (collect_sprites p ly 40 0 []) c

kept_by {ℓ κ} :
    {A : Type ℓ} {B : Type κ} (test : Bool) (view : A → B) (a b : A) (c : B)
    → view a ≡ c
    → view b ≡ c
    → view (if test then a else b) ≡ c
kept_by true view a b c h k = h
kept_by false view a b c h k = k

draw_line-both_at :
    (p : Ppu) (j m : ℕ) (c : Canvas)
    → NotInLine p.ly j m
    → both_at j m (draw_line p c).0 ≡ both_at j m c
unfolding draw_line
draw_line-both_at p j m c out =
    let background = bit_and p.lcdc lcdc_bg_enable != 0 in
    let enabled = bit_and p.lcdc lcdc_window_enable != 0 in
    let c1 = if background then render_background_line p p.ly c else white_line p.ly c in
    let r =
      if enabled && background then render_window_line p p.ly c1 else (c1, p.window_line_counter) in
    render_sprites_line-both_at p.ly j m out p r.0
    ∙ kept_by (enabled && background) (λ (s : Canvas × ℕ). both_at j m s.0)
        (render_window_line p p.ly c1) (c1, p.window_line_counter) (both_at j m c1)
        (render_window_line-both_at p.ly j m out p c1) refl
    ∙ kept_by background (both_at j m) (render_background_line p p.ly c) (white_line p.ly c)
        (both_at j m c) (render_background_line-both_at p.ly j m out p c)
        (white_line-both_at p.ly j m out c)

-- Drawing a line writes no byte of the framebuffer but the line's own 480, and no colour number but
-- its 160, whatever the registers, VRAM and OAM hold.
pub render_scanline-both_at :
    (p : Ppu) (j m : ℕ)
    → (j < p.ly * 480) ⊎ (p.ly * 480 + 480 ≤ j)
    → (m < p.ly * 160) ⊎ (p.ly * 160 + 160 ≤ m)
    → ((render_scanline p).framebuffer j ≡ p.framebuffer j)
      × ((render_scanline p).bg_color_index m ≡ p.bg_color_index m)
unfolding render_scanline
render_scanline-both_at p j m out out' =
    let kept =
      draw_line-both_at p j m
        (record { framebuffer = p.framebuffer; bg_color_index = p.bg_color_index })
        (ground arith, ground arith) in
    (
      kept_by (leb 144 p.ly) (λ (q : Ppu). q.framebuffer j) p _ (p.framebuffer j) refl
          (λ i. (kept i).0),
      kept_by (leb 144 p.ly) (λ (q : Ppu). q.bg_color_index m) p _ (p.bg_color_index m) refl
          (λ i. (kept i).1),
    )
