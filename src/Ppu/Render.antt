-- ===== src/Ppu/Render.antt =====
-- src/ppu.rs: the drawing of a scanline. A pass reads the registers, VRAM and OAM, which it never
-- writes, and writes the frame buffer and the colour indices, the canvas.
use rust_gb_emulator.Base.{
  ℕ, zero, suc, ◌+◌, ◌-◌, ◌*◌, ◌/◌, ◌%◌, bit_and, bit_or, Bool, ltb, leb, ◌==◌, ◌!=◌, if◌then◌else◌,
  u8, ◌<<<◌, ◌>>>◌, Bytes, set_at,
}
use rust_gb_emulator.Ppu.State.{Ppu, lcdc_bg_tilemap, lcdc_bg_window_tiles}

pub record Colour : Type 0 where
  pub red : ℕ
  pub green : ℕ
  pub blue : ℕ

pub record Canvas : Type 0 where
  pub framebuffer : Bytes
  pub bg_color_index : Bytes

-- The table COLORS of `get_palette`, at the four values of two bits.
unfoldable pub colors : ℕ → Colour
colors zero = record { red = 0x9B; green = 0xBC; blue = 0x0F }
colors (suc zero) = record { red = 0x8B; green = 0xAC; blue = 0x0F }
colors (suc (suc zero)) = record { red = 0x30; green = 0x62; blue = 0x30 }
colors _ = record { red = 0x0F; green = 0x38; blue = 0x0F }

-- The palette's entry `i`, below 4.
unfoldable pub get_palette : ℕ → ℕ → Colour
unfolding colors
get_palette palette_byte i = colors (bit_and (palette_byte >>> (i * 2)) 0x03)

-- The three bytes of a pixel.
unfoldable pub put_pixel : Bytes → ℕ → Colour → Bytes
put_pixel framebuffer idx color =
    set_at (set_at (set_at framebuffer idx color.red) (idx + 1) color.green) (idx + 2) color.blue

-- `for i in start..start + count`
unfoldable pub for_range {ℓ} : {S : Type ℓ} → ℕ → ℕ → (ℕ → S → S) → S → S
for_range zero start body s = s
for_range (suc count) start body s = for_range count (start + 1) body (body start s)

unfoldable pub paint : ℕ → ℕ → Colour → ℕ → Canvas → Canvas
unfolding put_pixel
paint ly screen_x color color_id c = record {
  framebuffer = put_pixel c.framebuffer ((ly * 160 + screen_x) * 3) color;
  bg_color_index = set_at c.bg_color_index (ly * 160 + screen_x) color_id;
}

-- The line of a disabled background.
unfoldable pub white_line : ℕ → Canvas → Canvas
unfolding paint for_range
white_line ly c =
    for_range 160 0 (λ x. paint ly x (record { red = 0x9B; green = 0xBC; blue = 0x0F }) 0) c

-- `tile_num as i8 as i16 + 128`, and the address of a tile's first byte.
unfoldable pub tile_address : Bool → ℕ → ℕ
tile_address signed_addressing tile_num =
    if signed_addressing
    then 0x8800 + (if ltb tile_num 128 then tile_num + 128 else tile_num - 128) * 16
    else 0x8000 + tile_num * 16

-- The two bits of a pixel, from the two bytes of its row.
unfoldable pub color_id_at : ℕ → ℕ → ℕ → ℕ
color_id_at byte1 byte2 shift =
    let color_low = bit_and (byte1 >>> shift) 1 in
    let color_high = bit_and (byte2 >>> shift) 1 in bit_or (color_high <<< 1) color_low

-- What the background and the window show at a place of their map: nothing where an index lies
-- outside VRAM's maps, colour 0 where the tile's data does.
pub data TilePixel : Type 0 where
  skipped blank : TilePixel
  coloured : ℕ → TilePixel

unfoldable pub tile_pixel : Ppu → ℕ → ℕ → ℕ → ℕ → TilePixel
unfolding tile_address color_id_at
tile_pixel p tilemap_base tile_y tile_y_offset x =
    let tile_x = (x / 8) % 32 in
    let tile_x_offset = 7 - x % 8 in
    let tilemap_offset = tile_y * 32 + tile_x in
    let vram_index = tilemap_base + tilemap_offset - 0x8000 in
    let signed_addressing = bit_and p.lcdc lcdc_bg_window_tiles == 0 in
    let tile_addr = tile_address signed_addressing (p.vram vram_index) in
    let tile_data_offset = tile_addr + tile_y_offset * 2 - 0x8000 in
    if leb 1024 tilemap_offset
    then skipped
    else if leb 0x2000 vram_index
    then skipped
    else if leb 0x1FFF tile_data_offset
    then blank
    else coloured
        (color_id_at (p.vram tile_data_offset) (p.vram (tile_data_offset + 1)) tile_x_offset)

unfoldable pub paint_tile : Ppu → ℕ → ℕ → TilePixel → Canvas → Canvas
unfolding paint
paint_tile p ly screen_x skipped c = c
paint_tile p ly screen_x blank c = paint ly screen_x (get_palette p.bgp 0) 0 c
paint_tile p ly screen_x (coloured color_id) c =
    paint ly screen_x (get_palette p.bgp color_id) color_id c

unfoldable pub render_background_line : Ppu → ℕ → Canvas → Canvas
unfolding paint_tile for_range
render_background_line p ly c =
    let y = u8 (u8 ly + p.scy) in
    let tile_y = (y / 8) % 32 in
    let tilemap_base = if bit_and p.lcdc lcdc_bg_tilemap != 0 then 0x9C00 else 0x9800 in
    for_range 160 0
      (λ screen_x.
        paint_tile p ly screen_x
          (tile_pixel p tilemap_base tile_y (y % 8) (u8 (u8 screen_x + p.scx))))
      c
