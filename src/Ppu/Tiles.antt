-- ===== src/Ppu/Tiles.antt =====
-- The pixels of tiles: the source's look-up, with its tests of bounds, against the reference.
use rust_gb_emulator.Base.{
  ℕ, zero, suc, ◌+◌, ◌-◌, ◌*◌, ◌/◌, ◌%◌, ◌^◌, ◌<◌, ◌≤◌, bit_and, Bool, true, false, not, ltb, leb,
  ◌==◌, ◌!=◌, if◌then◌else◌, ◌≡◌, refl, ap, ◌∙◌, arith,
}
use native.Mathlib.Nat.{one-le-pow}
use rust_gb_emulator.Base.Masks.{bit_and_ones, bit_and_bit, bit_or_fields}
use rust_gb_emulator.Ppu.State.{Ppu, lcdc_bg_window_tiles}
use rust_gb_emulator.Ppu.Kept.{AllBytes}
use rust_gb_emulator.Ppu.Render.{
  Canvas, TilePixel, skipped, blank, coloured, colors, color_id_at, tile_address, tile_pixel,
  get_palette, paint, paint_tile,
}
use rust_gb_emulator.Ppu.Reference.{lcdc_bit, shade, row_number, tile_data, map_number}

-- A test of a bit.
pub bit_tests : (a k : ℕ) → (bit_and a (2 ^ k) != 0) ≡ (a / 2 ^ k % 2 == 1)
bit_tests a k =
    from_bit (a / 2 ^ k % 2) (2 ^ k) (bit_and a (2 ^ k)) (omega (arith, one-le-pow k 2))
      (omega arith) (bit_and_bit k a)
  where
    from_bit : (d w n : ℕ) → 0 < w → d < 2 → n ≡ d * w → (n != 0) ≡ (d == 1)
    from_bit zero w n h k e = ground arith
    from_bit (suc zero) w n h k e = ground arith
    from_bit (suc (suc d)) w n h k e = absurd (omega arith)

pub color_id_at_lem :
    (byte1 byte2 shift : ℕ)
    → color_id_at byte1 byte2 shift ≡ byte1 / 2 ^ shift % 2 + 2 * (byte2 / 2 ^ shift % 2)
unfolding color_id_at
color_id_at_lem byte1 byte2 shift = ground (
  arith,
  bit_and_ones 1 (byte1 / 2 ^ shift),
  bit_and_ones 1 (byte2 / 2 ^ shift),
  bit_or_fields 1 (byte2 / 2 ^ shift % 2) (byte1 / 2 ^ shift % 2),
)

pub get_palette_lem : (palette n : ℕ) → get_palette palette n ≡ shade palette n
unfolding get_palette
get_palette_lem palette n = ap colors (bit_and_ones 2 (palette / 2 ^ (n * 2)))

-- The address of a tile.
tile_address_lem :
    (p : Ppu) (tile : ℕ)
    → tile < 256
    → tile_address (not (lcdc_bit p 4)) tile ≡ 0x8000 + tile_data p tile
unfolding tile_address
tile_address_lem p tile h = by_bit (lcdc_bit p 4)
  where
    by_bit :
        (bit : Bool)
        → tile_address (not bit) tile
          ≡ 0x8000
            + (if bit
                then tile * 16
                else if ltb tile 128
                then 0x1000 + tile * 16
                else 0x1000 - (256 - tile) * 16)
    by_bit true = refl
    by_bit false = ground arith

tile_data-lt : (p : Ppu) (tile : ℕ) → tile < 256 → tile_data p tile < 0x1800
tile_data-lt p tile h = by_bit (lcdc_bit p 4)
  where
    by_bit :
        (bit : Bool)
        → (if bit
            then tile * 16
            else if ltb tile 128
            then 0x1000 + tile * 16
            else 0x1000 - (256 - tile) * 16)
          < 0x1800
    by_bit true = omega arith
    by_bit false = ground arith

within_bounds :
    (a b c : ℕ) (v : TilePixel)
    → a < 1024
    → b < 0x2000
    → c < 0x1FFF
    → (if leb 1024 a
        then skipped
        else if leb 0x2000 b
        then skipped
        else if leb 0x1FFF c
        then blank
        else v)
      ≡ v
within_bounds a b c v h k l = ground arith

signed : (p : Ppu) → (bit_and p.lcdc lcdc_bg_window_tiles == 0) ≡ not (lcdc_bit p 4)
signed p = opposite (bit_and p.lcdc 16) ∙ ap not (bit_tests p.lcdc 4)
  where
    opposite : (n : ℕ) → (n == 0) ≡ not (n != 0)
    opposite n = ground arith

-- With a map at one of its two places, no test of bounds ever fails: the look-up gives the number of
-- the place.
pub tile_pixel_lem :
    (p : Ppu) (offset x y : ℕ)
    → AllBytes p.vram
    → offset ≤ 0x1C00
    → x < 256
    → y < 256
    → tile_pixel p (offset + 0x8000) (y / 8 % 32) (y % 8) x ≡ coloured (map_number p offset x y)
unfolding tile_pixel map_number
tile_pixel_lem p offset x y bytes low h k =
    let index' = offset + y / 8 * 32 + x / 8 in
    let index = offset + 0x8000 + (y / 8 % 32 * 32 + x / 8 % 32) - 0x8000 in
    let place : index ≡ index' = omega arith in
    let tile = p.vram index in
    let is_signed = bit_and p.lcdc lcdc_bg_window_tiles == 0 in
    let data' = tile_data p tile + y % 8 * 2 in
    let data_at = tile_address is_signed tile + y % 8 * 2 - 0x8000 in
    let address : tile_address is_signed tile ≡ 0x8000 + tile_data p tile =
      ap (λ s. tile_address s tile) (signed p) ∙ tile_address_lem p tile (bytes index) in
    let row : data_at ≡ data' = omega (arith, address) in
    let small = tile_data-lt p tile (bytes index) in
    within_bounds (y / 8 % 32 * 32 + x / 8 % 32) index data_at _ (omega arith) (omega arith)
      (omega (arith, row, small))
    ∙ ap coloured (
        color_id_at_lem (p.vram data_at) (p.vram (data_at + 1)) (7 - x % 8)
        ∙ ap (λ d. row_number p d (x % 8)) row
        ∙ ap (λ i. row_number p (tile_data p (p.vram i) + y % 8 * 2) (x % 8)) place)

pub paint_tile_lem :
    (p : Ppu) (ly column n : ℕ) (c : Canvas)
    → paint_tile p ly column (coloured n) c ≡ paint ly column (shade p.bgp n) n c
unfolding paint_tile
paint_tile_lem p ly column n c = ap (λ colour. paint ly column colour n c) (get_palette_lem p.bgp n)
