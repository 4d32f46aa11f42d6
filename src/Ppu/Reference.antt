-- ===== src/Ppu/Reference.antt =====
-- The picture pixel by pixel, with no loop over columns and no buffer: the background as a map of 256
-- by 256 places that scrolls, the window as a map laid over it, and the sprites on both, where the
-- last visible one shows (the order in which src/ppu.rs draws them).
use rust_gb_emulator.Base.{
  ℕ, zero, suc, ◌+◌, ◌-◌, ◌*◌, ◌/◌, ◌%◌, ◌^◌, Bool, not, ◌&&◌, ◌||◌, ltb, leb, ◌==◌, ◌!=◌,
  if◌then◌else◌, List, [], ◌∷◌,
}
use rust_gb_emulator.Ppu.State.{Ppu}
use rust_gb_emulator.Ppu.Render.{Colour, colors}
use rust_gb_emulator.Ppu.Pixels.{Pixel}

-- The bit of LCDC at a place.
abbrev pub lcdc_bit : Ppu → ℕ → Bool
lcdc_bit p k = p.lcdc / 2 ^ k % 2 == 1

-- A palette holds the shade of number n in its bits 2 n and 2 n + 1.
abbrev pub shade : ℕ → ℕ → Colour
shade palette n = colors (palette / 2 ^ (n * 2) % 4)

-- The number of a pixel in a row of a tile, of two bytes: its low bit is in the first, its high bit in
-- the second, the leftmost pixel in the top bits.
abbrev pub row_number : Ppu → ℕ → ℕ → ℕ
row_number p address column =
    p.vram address / 2 ^ (7 - column) % 2 + 2 * (p.vram (address + 1) / 2 ^ (7 - column) % 2)

-- The offset in VRAM of a tile of the background: from 0x0000 on for all tiles, or, where bit 4 of
-- LCDC is clear, around 0x1000 by the tile's signed number.
abbrev pub tile_data : Ppu → ℕ → ℕ
tile_data p tile =
    if lcdc_bit p 4
    then tile * 16
    else if ltb tile 128
    then 0x1000 + tile * 16
    else 0x1000 - (256 - tile) * 16

-- The second map is at 0x1C00, the first at 0x1800.
abbrev pub map_offset : Ppu → ℕ → ℕ
map_offset p k = if lcdc_bit p k then 0x1C00 else 0x1800

-- The number at a place of a map of 32 by 32 tiles.
unfoldable pub map_number : Ppu → ℕ → ℕ → ℕ → ℕ
map_number p offset x y =
    row_number p (tile_data p (p.vram (offset + y / 8 * 32 + x / 8)) + y % 8 * 2) (x % 8)

unfoldable pub background_number : Ppu → ℕ → ℕ
background_number p x = map_number p (map_offset p 3) ((x + p.scx) % 256) ((p.ly + p.scy) % 256)

unfoldable pub window_number : Ppu → ℕ → ℕ
window_number p x = map_number p (map_offset p 6) (x + 7 - p.wx) p.window_line_counter

abbrev pub shown : Ppu → ℕ → Pixel
shown p n = record { colour = shade p.bgp n; number = n }

abbrev pub white : Pixel
white = record { colour = colors 0; number = 0 }

-- Whether the window covers a column of the line.
abbrev pub in_window : Ppu → ℕ → Bool
in_window p x = lcdc_bit p 5 && (leb p.wy p.ly && leb p.wx (x + 7))

-- The pixel behind the sprites.
unfoldable pub behind : Ppu → ℕ → Pixel
behind p x =
    if not (lcdc_bit p 0)
    then white
    else if in_window p x
    then shown p (window_number p x)
    else shown p (background_number p x)

abbrev pub sprite_size : Ppu → ℕ
sprite_size p = if lcdc_bit p 2 then 16 else 8

abbrev pub attribute : Ppu → ℕ → ℕ → Bool
attribute p i k = p.oam (i * 4 + 3) / 2 ^ k % 2 == 1

-- The offset in VRAM of the row of sprite i that the line crosses: mirrored by bit 6 of its
-- attributes, and of one of its two tiles where sprites have 16 lines.
abbrev pub sprite_address : Ppu → ℕ → ℕ
sprite_address p i =
    let down = p.ly + 16 - p.oam (i * 4) in
    let row = if attribute p i 6 then sprite_size p - 1 - down else down in
    let tile = p.oam (i * 4 + 2) in
    let first = if lcdc_bit p 2 then tile / 2 * 2 else tile in (first + row / 8) * 16 + row % 8 * 2

-- The number of sprite i at a column that it covers, mirrored by bit 5 of its attributes.
unfoldable pub sprite_number : Ppu → ℕ → ℕ → ℕ
sprite_number p i x =
    let across = x + 8 - p.oam (i * 4 + 1) in
    row_number p (sprite_address p i) (if attribute p i 5 then 7 - across else across)

-- Whether sprite i covers a column with a colour, and is not behind the background there.
unfoldable pub is_visible : Ppu → ℕ → ℕ → ℕ → Bool
is_visible p under i x =
    let left = p.oam (i * 4 + 1) in
    leb left (x + 8)
    && ltb (x + 8) (left + 8)
    && sprite_number p i x != 0
    && (not (attribute p i 7) || under == 0)

abbrev pub sprite_colour : Ppu → ℕ → ℕ → Colour
sprite_colour p i x = shade (if attribute p i 4 then p.obp1 else p.obp0) (sprite_number p i x)

-- The colour with sprites drawn one over the other: the last one that is visible shows.
unfoldable pub overlaid : Ppu → ℕ → List ℕ → ℕ → Colour → Colour
overlaid p under [] x colour = colour
overlaid p under (i ∷ rest) x colour =
    overlaid p under rest x (if is_visible p under i x then sprite_colour p i x else colour)

-- Whether a line crosses sprite i, and the sprites from i on that it crosses, in their order.
abbrev pub crosses : Ppu → ℕ → Bool
crosses p i = leb (p.oam (i * 4)) (p.ly + 16) && ltb (p.ly + 16) (p.oam (i * 4) + sprite_size p)

unfoldable pub crossed : Ppu → ℕ → ℕ → List ℕ
crossed p zero i = []
crossed p (suc left) i = let rest = crossed p left (i + 1) in if crosses p i then i ∷ rest else rest

abbrev pub first_of {ℓ} : {A : Type ℓ} → ℕ → List A → List A
first_of zero xs = []
first_of (suc n) [] = []
first_of (suc n) (x ∷ xs) = x ∷ first_of n xs

-- The pixel of the line: the first ten sprites of OAM that the line crosses, on what is behind them.
unfoldable pub line_colour : Ppu → ℕ → Colour
line_colour p x =
    let under = behind p x in overlaid p under.number (first_of 10 (crossed p 40 0)) x under.colour
