-- ===== src/Ppu/Passes.antt =====
-- The background of a line, at each of its columns.
use rust_gb_emulator.Base.{
  ℕ, ◌+◌, ◌/◌, ◌%◌, ◌^◌, ◌<◌, ◌≤◌, bit_and, Bool, true, false, ◌&&◌, ltb, leb, ◌==◌, ◌!=◌,
  if◌then◌else◌, u8, ◌≡◌, refl, ap, sym, ◌∙◌, arith, Bool-cases, inl, inr,
}
use rust_gb_emulator.Base.Tests.{==_iff}
use rust_gb_emulator.Ppu.State.{Ppu, lcdc_bg_tilemap}
use rust_gb_emulator.Ppu.Kept.{AllBytes}
use rust_gb_emulator.Ppu.Render.{
  Canvas, colors, tile_pixel, paint, paint_tile, white_line, render_background_line,
}
use rust_gb_emulator.Ppu.Pixels.{Pixel, pixel_at, pixel_at-paint, for_range-at}
use rust_gb_emulator.Ppu.Reference.{
  lcdc_bit, shade, map_offset, map_number, background_number, shown, white,
}
use rust_gb_emulator.Ppu.Tiles.{bit_tests, tile_pixel_lem, paint_tile_lem}

-- A column's own value, under the test that it is that column.
pub own_column {ℓ} :
    {A : Type ℓ} (f : ℕ → A) (x k : ℕ) (other : A)
    → (if x == k then f k else other) ≡ (if x == k then f x else other)
own_column f x k other = elim (Bool-cases (x == k)) [
  | inl same ↦ ap (λ n. if x == k then f n else other) (sym ((==_iff x k).0 same))
  | inr differs ↦ rw differs refl
]

pub white_line-at : (ly x : ℕ) (c : Canvas) → x < 160 → pixel_at ly x (white_line ly c) ≡ white
unfolding white_line colors
white_line-at ly x c h =
    for_range-at (pixel_at ly x) x white (λ k. paint ly k (colors 0) 0) 160
      (λ k s l. pixel_at-paint ly x k (colors 0) 0 s) 160 0 c (omega arith)
    ∙ ground arith

-- The base address of a map.
pub map_base :
    (p : Ppu) (k : ℕ)
    → (if bit_and p.lcdc (2 ^ k) != 0 then 0x9C00 else 0x9800) ≡ map_offset p k + 0x8000
map_base p k =
    ap (λ test. if test then 0x9C00 else 0x9800) (bit_tests p.lcdc k) ∙ by_bit (lcdc_bit p k)
  where
    by_bit :
        (bit : Bool) → (if bit then 0x9C00 else 0x9800) ≡ (if bit then 0x1C00 else 0x1800) + 0x8000
    by_bit true = refl
    by_bit false = refl

pub map_offset-le : (p : Ppu) (k : ℕ) → map_offset p k ≤ 0x1C00
map_offset-le p k = by_bit (lcdc_bit p k)
  where
    by_bit : (bit : Bool) → (if bit then 0x1C00 else 0x1800) ≤ 0x1C00
    by_bit true = omega arith
    by_bit false = omega arith

-- The pixel that the look-up of a place paints.
pub painted :
    (p : Ppu) (base offset ly x column place y : ℕ) (s : Canvas)
    → AllBytes p.vram
    → base ≡ offset + 0x8000
    → offset ≤ 0x1C00
    → place < 256
    → y < 256
    → pixel_at ly x (paint_tile p ly column (tile_pixel p base (y / 8 % 32) (y % 8) place) s)
      ≡ (if x == column then shown p (map_number p offset place y) else pixel_at ly x s)
painted p base offset ly x column place y s bytes at low h k =
    ap (λ t. pixel_at ly x (paint_tile p ly column t s))
      (ap (λ n. tile_pixel p n (y / 8 % 32) (y % 8) place) at
        ∙ tile_pixel_lem p offset place y bytes low h k)
    ∙ ap (pixel_at ly x) (paint_tile_lem p ly column n s)
    ∙ pixel_at-paint ly x column (shade p.bgp n) n s
  where
    n : ℕ
    n = map_number p offset place y

pub render_background_line-at :
    (p : Ppu) (x : ℕ) (c : Canvas)
    → AllBytes p.vram
    → x < 160
    → pixel_at p.ly x (render_background_line p p.ly c) ≡ shown p (background_number p x)
unfolding render_background_line background_number
render_background_line-at p x c bytes h =
    let y = u8 (u8 p.ly + p.scy) in
    let base : ℕ = if bit_and p.lcdc lcdc_bg_tilemap != 0 then 0x9C00 else 0x9800 in
    let offset = map_offset p 3 in
    let line : y ≡ (p.ly + p.scy) % 256 = omega arith in
    let at : ℕ → ℕ → Pixel = λ y k. shown p (map_number p offset ((k + p.scx) % 256) y) in
    let place : ℕ → ℕ = λ k. u8 (u8 k + p.scx) in
    for_range-at (pixel_at p.ly x) x (at y x)
      (λ k. paint_tile p p.ly k (tile_pixel p base (y / 8 % 32) (y % 8) (place k))) 160
      (λ k s l.
        painted p base offset p.ly x k (place k) y s bytes (map_base p 3) (map_offset-le p 3)
          (omega arith) (omega arith)
        ∙ ap (λ q. if x == k then shown p (map_number p offset q y) else pixel_at p.ly x s)
            (omega arith)
        ∙ own_column (at y) x k (pixel_at p.ly x s))
      160 0 c (omega arith)
    ∙ all_columns (at y x) (pixel_at p.ly x c)
    ∙ ap (λ l. at l x) line
  where
    all_columns : (a b : Pixel) → (if leb 0 x && ltb x (0 + 160) then a else b) ≡ a
    all_columns a b = ground arith
