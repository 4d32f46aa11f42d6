-- ===== src/Ppu/SpriteLine.antt =====
-- A column of the line after its sprites.
use rust_gb_emulator.Base.{
  ℕ, ◌+◌, ◌-◌, ◌*◌, ◌/◌, ◌%◌, ◌^◌, ◌<◌, bit_and, Bool, true, false, not, ◌&&◌, ◌||◌, ltb, leb, ◌==◌,
  ◌!=◌, if◌then◌else◌, ◌≡◌, refl, ap, ◌∙◌, arith,
}
use rust_gb_emulator.Base.Masks.{bit_and_field}
use rust_gb_emulator.Ppu.State.{Ppu}
use rust_gb_emulator.Ppu.Kept.{AllBytes}
use rust_gb_emulator.Ppu.Render.{Colour, Canvas, get_palette, for_range}
use rust_gb_emulator.Ppu.Window.{obj_size, sprite_pixel, sprite_row, draw_sprite}
use rust_gb_emulator.Ppu.Pixels.{Pixel, pixel_at}
use rust_gb_emulator.Ppu.Reference.{
  lcdc_bit, attribute, sprite_address, sprite_number, is_visible, sprite_colour, crosses,
}
use rust_gb_emulator.Ppu.Tiles.{bit_tests, color_id_at_lem, get_palette_lem}
use rust_gb_emulator.Ppu.SpritePixels.{columns-at, id_at, drawn_on, pixel_of}

-- The source's offset of a row, from its tests.
abbrev row_offset : ℕ → ℕ → Bool → Bool → ℕ → ℕ
row_offset down tile tall mirrored even =
    let size : ℕ = if tall then 16 else 8 in
    let y = if mirrored then size - 1 - down else down in
    let tile' = if size == 16 then even else tile in
    0x8000 + (tile' + y / 8) * 16 + y % 8 * 2 - 0x8000

abbrev row_address : ℕ → ℕ → Bool → Bool → ℕ
row_address down tile tall mirrored =
    let size : ℕ = if tall then 16 else 8 in
    let row = if mirrored then size - 1 - down else down in
    let first = if tall then tile / 2 * 2 else tile in (first + row / 8) * 16 + row % 8 * 2

same_row :
    (down tile : ℕ) (tall mirrored : Bool)
    → down < (if tall then 16 else 8)
    → tile < 256
    → (row_offset down tile tall mirrored (tile / 2 * 2) ≡ row_address down tile tall mirrored)
      × (row_address down tile tall mirrored + 1 < 0x2000)
same_row down tile true true h k = (omega arith, omega arith)
same_row down tile true false h k = (omega arith, omega arith)
same_row down tile false true h k = (omega arith, omega arith)
same_row down tile false false h k = (omega arith, omega arith)

down_lt :
    (tall : Bool) (top ly : ℕ)
    → (leb top ly && ltb ly (top + (if tall then 16 else 8))) ≡ true
    → ly - top < (if tall then 16 else 8)
down_lt true top ly e = ground arith
down_lt false top ly e = ground arith

sprite_row_lem :
    (p : Ppu) (i : ℕ)
    → crosses p i ≡ true
    → p.oam (i * 4 + 2) < 256
    → (sprite_row p p.ly i ≡ sprite_address p i) × (sprite_address p i + 1 < 0x2000)
unfolding sprite_row obj_size
sprite_row_lem p i on small =
    let down = p.ly + 16 - p.oam (i * 4) in
    let tile = p.oam (i * 4 + 2) in
    let attr = p.oam (i * 4 + 3) in
    let tall = lcdc_bit p 2 in
    let same =
      same_row down tile tall (attribute p i 6) (down_lt tall (p.oam (i * 4)) (p.ly + 16) on)
        small in
    let even : bit_and tile 0xFE ≡ tile / 2 * 2 = omega (arith, bit_and_field 1 7 tile) in
    (
      ap (λ t. row_offset down tile t (bit_and attr 0x40 != 0) (bit_and tile 0xFE))
            (bit_tests p.lcdc 2)
          ∙ ap (λ t. row_offset down tile tall t (bit_and tile 0xFE)) (bit_tests attr 6)
          ∙ ap (row_offset down tile tall (attribute p i 6)) even
          ∙ same.0,
      same.1,
    )

-- The colour number that the loop finds at a column is the reference's.
number_lem :
    (p : Ppu) (i x : ℕ)
    → x + 8 - p.oam (i * 4 + 1) < 8
    → let a = sprite_address p i in
      id_at (p.oam (i * 4 + 3)) (p.vram a) (p.vram (a + 1)) (x + 8 - p.oam (i * 4 + 1))
      ≡ sprite_number p i x
unfolding sprite_number
number_lem p i x h =
    let a = sprite_address p i in
    let attr = p.oam (i * 4 + 3) in
    let across = x + 8 - p.oam (i * 4 + 1) in
    color_id_at_lem (p.vram a) (p.vram (a + 1))
      (if bit_and attr 0x20 != 0 then across else 7 - across)
    ∙ ap (λ k. p.vram a / 2 ^ k % 2 + 2 * (p.vram (a + 1) / 2 ^ k % 2))
        (ap (λ t. if t then across else 7 - across) (bit_tests attr 5)
          ∙ mirrored (attribute p i 5) across h)
  where
    mirrored : (t : Bool) (n : ℕ) → n < 8 → (if t then n else 7 - n) ≡ 7 - (if t then 7 - n else n)
    mirrored true n h = omega arith
    mirrored false n h = refl

-- What the sprite leaves of a pixel.
abbrev under_sprite : Ppu → ℕ → ℕ → Pixel → Pixel
under_sprite p i x under = record {
  colour = if is_visible p under.number i x then sprite_colour p i x else under.colour;
  number = under.number;
}

-- A number that matters only under two tests.
guarded :
    (g1 g2 : Bool) (f : ℕ → Bool) (pixel : ℕ → Pixel) (m n : ℕ) (old : Pixel)
    → (g1 ≡ true → g2 ≡ true → m ≡ n)
    → (if g1 && g2 && f m then pixel m else old) ≡ (if g1 && g2 && f n then pixel n else old)
guarded true true f pixel m n old h =
    ap (λ k. if true && true && f k then pixel k else old) (h refl refl)
guarded true false f pixel m n old h = refl
guarded false g2 f pixel m n old h = refl

same_tests :
    (g1 g2 behind_back : Bool) (id n : ℕ)
    → (g1 && g2 && (not (id == 0) && not (behind_back && n != 0)))
      ≡ (g1 && g2 && id != 0 && (not behind_back || n == 0))
same_tests g1 g2 behind_back id n = ground arith

coloured_if :
    (test : Bool) (a b : Colour) (n : ℕ)
    → ◌≡◌ {A = Pixel}
        (if test then record { colour = a; number = n } else record { colour = b; number = n })
        (record { colour = if test then a else b; number = n })
coloured_if true a b n = refl
coloured_if false a b n = refl

-- A sprite that the line crosses, at a column of the line.
pub draw_sprite-at :
    (p : Ppu) (i x : ℕ) (c : Canvas)
    → crosses p i ≡ true
    → AllBytes p.oam
    → x < 160
    → pixel_at p.ly x (draw_sprite p p.ly i c) ≡ under_sprite p i x (pixel_at p.ly x c)
unfolding draw_sprite is_visible
draw_sprite-at p i x c on bytes h =
    let a = sprite_address p i in
    let attr = p.oam (i * 4 + 3) in
    let left = p.oam (i * 4 + 1) in
    let old = pixel_at p.ly x c in
    let n = old.number in
    let (at, low) = sprite_row_lem p i on (bytes (i * 4 + 2)) in
    let k = x + 8 - left in
    let m = sprite_number p i x in
    let pixel : Colour → Pixel = λ q. record { colour = q; number = n } in
    let tests : Bool =
      leb left (x + 8)
      && ltb (x + 8) (left + 8)
      && (not (m == 0) && not (attribute p i 7 && n != 0)) in
    let plus_zero : left + 0 ≡ left = omega arith in
    let id = id_at attr (p.vram a) (p.vram (a + 1)) k in
    let colour : Bool → ℕ → Colour = λ t id. get_palette (if t then p.obp1 else p.obp0) id in
    let loop : ℕ → Canvas = λ offset.
      for_range 8 0 (sprite_pixel p p.ly left attr (p.vram offset) (p.vram (offset + 1))) c in
    ap (λ offset. pixel_at p.ly x (if leb 0x2000 (offset + 1) then c else loop offset)) at
    ∙ ap (pixel_at p.ly x) (in_vram (a + 1) c (loop a) low)
    ∙ columns-at p p.ly left attr (p.vram a) (p.vram (a + 1)) x n h 8 0 c refl
    ∙ ap
        (λ l.
          if leb l (x + 8) && ltb (x + 8) (l + 8) && drawn_on attr (p.vram a) (p.vram (a + 1)) n k
          then pixel_of p attr (p.vram a) (p.vram (a + 1)) n k
          else old)
        plus_zero
    ∙ guarded (leb left (x + 8)) (ltb (x + 8) (left + 8))
        (λ m. not (m == 0) && not (bit_and attr 0x80 != 0 && n != 0))
        (λ m. record { colour = colour (bit_and attr 0x10 != 0) m; number = n }) id
        (sprite_number p i x) old (λ g1 g2. number_lem p i x (ground arith))
    ∙ ap
        (λ t.
          if leb left (x + 8) && ltb (x + 8) (left + 8) && (not (m == 0) && not (t && n != 0))
          then pixel (colour (bit_and attr 0x10 != 0) m)
          else old)
        (bit_tests attr 7)
    ∙ ap (λ q. if tests then pixel q else old)
        (ap (λ t. colour t m) (bit_tests attr 4)
          ∙ get_palette_lem (if attribute p i 4 then p.obp1 else p.obp0) m)
    ∙ ap (λ t. if t then pixel (sprite_colour p i x) else old)
        (same_tests (leb left (x + 8)) (ltb (x + 8) (left + 8)) (attribute p i 7) m n)
    ∙ coloured_if
        (leb left (x + 8) && ltb (x + 8) (left + 8) && m != 0 && (not (attribute p i 7) || n == 0))
        (sprite_colour p i x) old.colour n
  where
    in_vram : (n : ℕ) (a b : Canvas) → n < 0x2000 → (if leb 0x2000 n then a else b) ≡ b
    in_vram n a b h = ground arith
