-- ===== src/Ppu/Scene.antt =====
-- What the reference picture of a line depends on.
use rust_gb_emulator.Base.{ℕ, zero, suc, ◌+◌, if◌then◌else◌, List, [], ◌∷◌, ◌≡◌, refl, ap, ◌∙◌}
use rust_gb_emulator.Ppu.State.{Ppu}
use rust_gb_emulator.Ppu.Kept.{SameRegisters}
use rust_gb_emulator.Ppu.Render.{Colour}
use rust_gb_emulator.Ppu.Reference.{
  map_number, background_number, window_number, behind, sprite_number, is_visible, sprite_colour,
  overlaid, crosses, crossed, first_of, line_colour,
}

-- A unit at another line, with another value of the window's counter.
abbrev pub at_line : Ppu → ℕ → ℕ → Ppu
at_line p y counter = record p { ly = y; window_line_counter = counter }

-- The rest of a unit p with what the picture of q depends on.
abbrev with_scene : Ppu → Ppu → Ppu
with_scene p q = record p {
  vram = q.vram;
  oam = q.oam;
  lcdc = q.lcdc;
  scy = q.scy;
  scx = q.scx;
  ly = q.ly;
  bgp = q.bgp;
  obp0 = q.obp0;
  obp1 = q.obp1;
  wy = q.wy;
  wx = q.wx;
  window_line_counter = q.window_line_counter;
}

crossed-scene : (p q : Ppu) (left i : ℕ) → crossed q left i ≡ crossed (with_scene p q) left i
unfolding crossed
crossed-scene p q zero i = refl
crossed-scene p q (suc left) i =
    ap (λ rest. if crosses q i then i ∷ rest else rest) (crossed-scene p q left (i + 1))

overlaid-scene :
    (p q : Ppu) (under : ℕ) (l : List ℕ) (x : ℕ) (colour : Colour)
    → overlaid q under l x colour ≡ overlaid (with_scene p q) under l x colour
unfolding overlaid is_visible sprite_number
overlaid-scene p q under [] x colour = refl
overlaid-scene p q under (i ∷ rest) x colour =
    overlaid-scene p q under rest x (if is_visible q under i x then sprite_colour q i x else colour)

line_colour-scene : (p q : Ppu) (x : ℕ) → line_colour q x ≡ line_colour (with_scene p q) x
unfolding line_colour behind background_number window_number map_number
line_colour-scene p q x =
    let under = behind q x in
    overlaid-scene p q under.number (first_of 10 (crossed q 40 0)) x under.colour
    ∙ ap (λ l. overlaid (with_scene p q) under.number (first_of 10 l) x under.colour)
        (crossed-scene p q 40 0)

-- A unit with the same registers and memory shows the same line.
pub line_colour-at_line :
    (p q : Ppu) (x : ℕ)
    → SameRegisters p q
    → q.lcdc ≡ p.lcdc
    → line_colour q x ≡ line_colour (at_line p q.ly q.window_line_counter) x
line_colour-at_line p q x same lcdc = line_colour-scene p q x ∙ λ i.
    line_colour
      (record p {
        vram = same.vram i;
        oam = same.oam i;
        lcdc = lcdc i;
        scy = same.scy i;
        scx = same.scx i;
        ly = q.ly;
        bgp = same.bgp i;
        obp0 = same.obp0 i;
        obp1 = same.obp1 i;
        wy = same.wy i;
        wx = same.wx i;
        window_line_counter = q.window_line_counter;
      })
      x
