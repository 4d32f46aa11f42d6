-- ===== src/Ppu/SpritePass.antt =====
-- The sprites of a line drawn one over the other, at each of its columns.
use rust_gb_emulator.Base.{
  ℕ, zero, suc, ◌+◌, ◌<◌, true, ◌≡◌, refl, ap, ◌∙◌, Bool-cases, inl, inr, List, [], ◌∷◌,
}
use rust_gb_emulator.Ppu.State.{Ppu}
use rust_gb_emulator.Ppu.Kept.{AllBytes}
use rust_gb_emulator.Ppu.Render.{Canvas}
use rust_gb_emulator.Ppu.Window.{draw_sprite, draw_all, render_sprites_line}
use rust_gb_emulator.Ppu.Pixels.{Pixel, pixel_at}
use rust_gb_emulator.Ppu.Reference.{overlaid, crosses, crossed, first_of}
use rust_gb_emulator.Ppu.Sprites.{collected}
use rust_gb_emulator.Ppu.SpriteLine.{draw_sprite-at}

-- Lists of sprites that the line crosses.
abbrev AllCross : Ppu → List ℕ → Type 0
AllCross p [] = Unit {0}
AllCross p (i ∷ rest) = (crosses p i ≡ true) × AllCross p rest

crossed-AllCross : (p : Ppu) (left i : ℕ) → AllCross p (crossed p left i)
unfolding crossed
crossed-AllCross p zero i = tt
crossed-AllCross p (suc left) i = elim (Bool-cases (crosses p i)) [
  | inl on ↦ rw on (on, crossed-AllCross p left (i + 1))
  | inr off ↦ rw off (crossed-AllCross p left (i + 1))
]

first_of-AllCross : (p : Ppu) (n : ℕ) (l : List ℕ) → AllCross p l → AllCross p (first_of n l)
first_of-AllCross p zero l h = tt
first_of-AllCross p (suc n) [] h = tt
first_of-AllCross p (suc n) (i ∷ rest) (on, h) = (on, first_of-AllCross p n rest h)

draw_all-at :
    (p : Ppu) (l : List ℕ) (x : ℕ) (c : Canvas)
    → AllCross p l
    → AllBytes p.oam
    → x < 160
    → let under = pixel_at p.ly x c in
      pixel_at p.ly x (draw_all p p.ly l c)
      ≡ record { colour = overlaid p under.number l x under.colour; number = under.number }
unfolding draw_all overlaid
draw_all-at p [] x c h bytes small = refl
draw_all-at p (i ∷ rest) x c (on, h) bytes small =
    draw_all-at p rest x (draw_sprite p p.ly i c) h bytes small
    ∙ ap
        (λ under. record {
          colour = overlaid p under.number rest x under.colour;
          number = under.number;
        })
        (draw_sprite-at p i x c on bytes small)

pub render_sprites_line-at :
    (p : Ppu) (x : ℕ) (c : Canvas)
    → AllBytes p.oam
    → x < 160
    → let under = pixel_at p.ly x c in
      (pixel_at p.ly x (render_sprites_line p p.ly c)).colour
      ≡ overlaid p under.number (first_of 10 (crossed p 40 0)) x under.colour
unfolding render_sprites_line
render_sprites_line-at p x c bytes h =
    let l = first_of 10 (crossed p 40 0) in
    ap (λ l. (pixel_at p.ly x (draw_all p p.ly l c)).colour) (collected p)
    ∙ ap (λ (q : Pixel). q.colour)
        (draw_all-at p l x c (first_of-AllCross p 10 (crossed p 40 0) (crossed-AllCross p 40 0))
          bytes h)
