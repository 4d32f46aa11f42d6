-- ===== src/Ppu/Window.antt =====
-- src/ppu.rs: the window and the sprites of a scanline.
use rust_gb_emulator.Base.{
  ℕ, zero, suc, ◌+◌, ◌-◌, ◌*◌, ◌/◌, ◌%◌, bit_and, Bool, true, false, not, ◌&&◌, ◌||◌, ltb, leb,
  ◌==◌, ◌!=◌, if◌then◌else◌, u8, List, [], ◌∷◌, ◌++◌, length,
}
use rust_gb_emulator.Ppu.State.{
  Ppu, lcdc_window_enable, lcdc_window_tilemap, lcdc_bg_enable, lcdc_obj_size,
}
use rust_gb_emulator.Ppu.Render.{
  Canvas, TilePixel, skipped, blank, coloured, tile_pixel, paint_tile, for_range, color_id_at,
  get_palette, put_pixel, white_line, render_background_line,
}

-- The canvas, and `rendered_window`.
pub record WindowPass : Type 0 where
  pub canvas : Canvas
  pub rendered : Bool

unfoldable pub is_rendered : TilePixel → Bool
is_rendered skipped = false
is_rendered blank = true
is_rendered (coloured color_id) = true

unfoldable pub window_pixel : Ppu → ℕ → ℕ → TilePixel → WindowPass → WindowPass
unfolding is_rendered
window_pixel p ly screen_x pixel w = record {
  canvas = paint_tile p ly screen_x pixel w.canvas;
  rendered = w.rendered || is_rendered pixel;
}

-- `WX - 7` may be negative: the first screen column, and the window's column that it shows.
unfoldable pub window_start : ℕ → ℕ × ℕ
window_start wx = if ltb wx 7 then (0, 7 - wx) else (wx - 7, 0)

-- The columns `start..160`, none where `start` is beyond them.
unfoldable pub window_pass : Ppu → ℕ → WindowPass → WindowPass
unfolding window_pixel window_start for_range
window_pass p ly w =
    let window_y = p.window_line_counter in
    let tile_y = (window_y / 8) % 32 in
    let tilemap_base = if bit_and p.lcdc lcdc_window_tilemap != 0 then 0x9C00 else 0x9800 in
    let (screen_x_start, window_pixel_x_start) = window_start p.wx in
    for_range (160 - screen_x_start) screen_x_start
      (λ screen_x. window_pixel p ly screen_x (
        tile_pixel p tilemap_base tile_y (window_y % 8)
          (window_pixel_x_start + (screen_x - screen_x_start))))
      w

-- The canvas, and the window's line counter.
unfoldable pub render_window_line : Ppu → ℕ → Canvas → Canvas × ℕ
unfolding window_pass
render_window_line p ly c =
    let w = window_pass p ly (record { canvas = c; rendered = false }) in
    if ltb (u8 ly) p.wy
    then (c, p.window_line_counter)
    else (w.canvas, if w.rendered then u8 (p.window_line_counter + 1) else p.window_line_counter)

unfoldable pub obj_size : Ppu → ℕ
obj_size p = if bit_and p.lcdc lcdc_obj_size != 0 then 16 else 8

-- `ly >= sprite_y && ly < sprite_y + obj_size` for `sprite_y = oam[base] - 16`, which may be
-- negative: 16 is added on both sides.
unfoldable pub on_line : Ppu → ℕ → ℕ → Bool
unfolding obj_size
on_line p ly i =
    let oam_y = p.oam (i * 4) in leb oam_y (ly + 16) && ltb (ly + 16) (oam_y + obj_size p)

-- The loop over the forty entries of OAM, which breaks when it has ten; `left` entries are to go.
unfoldable pub collect_sprites : Ppu → ℕ → ℕ → ℕ → List ℕ → List ℕ
unfolding on_line
collect_sprites p ly zero i found = found
collect_sprites p ly (suc left) i found =
    let found' = if on_line p ly i then found ++ i ∷ [] else found in
    let rest = collect_sprites p ly left (i + 1) found' in
    if on_line p ly i && leb 10 (length found') then found' else rest

-- One of the eight pixels of a sprite's row. `x = sprite_x + px` for `sprite_x = oam[base + 1] - 8`,
-- which may be negative: `x8` is 8 more.
unfoldable pub sprite_pixel : Ppu → ℕ → ℕ → ℕ → ℕ → ℕ → ℕ → Canvas → Canvas
unfolding color_id_at put_pixel
sprite_pixel p ly oam_x attr byte1 byte2 px c =
    let bit_index = if bit_and attr 0x20 != 0 then px else 7 - px in
    let color_id = color_id_at byte1 byte2 bit_index in
    let x8 = oam_x + px in
    let x = x8 - 8 in
    let palette_byte = if bit_and attr 0x10 != 0 then p.obp1 else p.obp0 in
    let drawn = record c {
      framebuffer =
          put_pixel c.framebuffer ((ly * 160 + x) * 3) (get_palette palette_byte color_id);
    } in
    if color_id == 0
    then c
    else if not (leb 8 x8 && ltb x8 168)
    then c
    else if bit_and attr 0x80 != 0 && c.bg_color_index (ly * 160 + x) != 0
    then c
    else drawn

-- The offset in VRAM of a sprite's row; `y` is the row that the line shows.
unfoldable pub sprite_row : Ppu → ℕ → ℕ → ℕ
unfolding obj_size
sprite_row p ly i =
    let y = ly + 16 - p.oam (i * 4) in
    let attr = p.oam (i * 4 + 3) in
    let y_eff = if bit_and attr 0x40 != 0 then obj_size p - 1 - y else y in
    let tile = p.oam (i * 4 + 2) in
    let tile' = if obj_size p == 16 then bit_and tile 0xFE else tile in
    0x8000 + (tile' + y_eff / 8) * 16 + y_eff % 8 * 2 - 0x8000

unfoldable pub draw_sprite : Ppu → ℕ → ℕ → Canvas → Canvas
unfolding sprite_row sprite_pixel for_range
draw_sprite p ly i c =
    let tile_offset = sprite_row p ly i in
    let byte1 = p.vram tile_offset in
    let byte2 = p.vram (tile_offset + 1) in
    if leb 0x2000 (tile_offset + 1)
    then c
    else for_range 8 0 (sprite_pixel p ly (p.oam (i * 4 + 1)) (p.oam (i * 4 + 3)) byte1 byte2) c

unfoldable pub draw_all : Ppu → ℕ → List ℕ → Canvas → Canvas
draw_all p ly [] c = c
draw_all p ly (i ∷ sprites) c = draw_all p ly sprites (draw_sprite p ly i c)

unfoldable pub render_sprites_line : Ppu → ℕ → Canvas → Canvas
unfolding draw_all draw_sprite collect_sprites
render_sprites_line p ly c = draw_all p ly (collect_sprites p ly 40 0 []) c

-- The background or its white line, the window on it, and the sprites on both.
unfoldable pub draw_line : Ppu → Canvas → Canvas × ℕ
draw_line p c =
    let bg_enabled = bit_and p.lcdc lcdc_bg_enable != 0 in
    let window_enabled = bit_and p.lcdc lcdc_window_enable != 0 in
    let c1 = if bg_enabled then render_background_line p p.ly c else white_line p.ly c in
    let (c2, counter) =
      if window_enabled && bg_enabled
      then render_window_line p p.ly c1
      else (c1, p.window_line_counter) in
    (render_sprites_line p p.ly c2, counter)

unfoldable pub render_scanline : Ppu → Ppu
unfolding draw_line
render_scanline p =
    let (c, counter) =
      draw_line p (record { framebuffer = p.framebuffer; bg_color_index = p.bg_color_index }) in
    if leb 144 p.ly then p else record p {
      framebuffer = c.framebuffer;
      bg_color_index = c.bg_color_index;
      window_line_counter = counter;
    }
