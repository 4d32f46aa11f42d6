-- ===== src/Ppu/Pixels.antt =====
-- The canvas seen pixel by pixel: what a write of a pixel, and a loop over the columns, shows there.
use rust_gb_emulator.Base.{
  ℕ, zero, suc, ◌+◌, ◌*◌, ◌<◌, ◌≤◌, Bool, true, false, ◌&&◌, ltb, leb, ◌==◌, if◌then◌else◌, Bytes,
  ◌≡◌, refl, ap, ◌∙◌, arith,
}
use rust_gb_emulator.Ppu.Render.{Colour, Canvas, put_pixel, paint, for_range}

-- The pixel of a line at a column.
abbrev pub colour_at : Bytes → ℕ → ℕ → Colour
colour_at framebuffer ly x = record {
  red = framebuffer ((ly * 160 + x) * 3);
  green = framebuffer ((ly * 160 + x) * 3 + 1);
  blue = framebuffer ((ly * 160 + x) * 3 + 2);
}

pub colour_at-put_pixel :
    (framebuffer : Bytes) (ly x column : ℕ) (colour : Colour)
    → colour_at (put_pixel framebuffer ((ly * 160 + column) * 3) colour) ly x
      ≡ (if x == column then colour else colour_at framebuffer ly x)
unfolding put_pixel
colour_at-put_pixel framebuffer ly x column colour = ground arith

-- The bytes that are no part of a line.
pub put_pixel-outside :
    (framebuffer : Bytes) (ly column j : ℕ) (colour : Colour)
    → column < 160
    → (if leb (ly * 480) j then ltb j (ly * 480 + 480) else false) ≡ false
    → put_pixel framebuffer ((ly * 160 + column) * 3) colour j ≡ framebuffer j
unfolding put_pixel
put_pixel-outside framebuffer ly column j colour h outside = ground arith

-- What the canvas holds of a pixel: its colour, and the background's colour number.
pub record Pixel : Type 0 where
  pub colour : Colour
  pub number : ℕ

abbrev pub pixel_at : ℕ → ℕ → Canvas → Pixel
pixel_at ly x c = record {
  colour = colour_at c.framebuffer ly x;
  number = c.bg_color_index (ly * 160 + x);
}

pub pixel_at-paint :
    (ly x column : ℕ) (colour : Colour) (number : ℕ) (c : Canvas)
    → pixel_at ly x (paint ly column colour number c)
      ≡ (if x == column then record { colour = colour; number = number } else pixel_at ly x c)
unfolding paint
pixel_at-paint ly x column colour number c =
    both (x == column) colour (colour_at c.framebuffer ly x) number
      (c.bg_color_index (ly * 160 + x)) (colour_at-put_pixel c.framebuffer ly x column colour)
      (ground arith)
  where
    both :
        (test : Bool) (s t : Colour) (m n : ℕ) {v : Colour} {k : ℕ}
        → v ≡ (if test then s else t)
        → k ≡ (if test then m else n)
        → ◌≡◌ {A = Pixel}
            (record { colour = v; number = k })
            (if test then record { colour = s; number = m } else record { colour = t; number = n })
    both true s t m n e f = λ i. record { colour = e i; number = f i }
    both false s t m n e f = λ i. record { colour = e i; number = f i }

-- A loop each of whose rounds writes one column.
pub for_range-at {ℓ κ} :
    {S : Type ℓ} {A : Type κ} (view : S → A) (x : ℕ) (value : A) (body : ℕ → S → S) (stop : ℕ)
    → ((k : ℕ) (s : S) → k < stop → view (body k s) ≡ (if x == k then value else view s))
    → (count start : ℕ) (s : S) → start + count ≤ stop
    → view (for_range count start body s)
      ≡ (if leb start x && ltb x (start + count) then value else view s)
unfolding for_range
for_range-at view x value body stop step zero start s h = ground arith
for_range-at view x value body stop step (suc count) start s h =
    for_range-at view x value body stop step count (start + 1) (body start s) (omega arith)
    ∙ ap (λ a. if leb (start + 1) x && ltb x (start + 1 + count) then value else a)
        (step start s (omega arith))
    ∙ joined
  where
    joined :
        (if leb (start + 1) x && ltb x (start + 1 + count)
          then value
          else if x == start
          then value
          else view s)
        ≡ (if leb start x && ltb x (start + suc count) then value else view s)
    joined = ground arith

-- A loop of at least one round, each of which leaves the same to be seen.
pub for_range-last {ℓ κ} :
    {S : Type ℓ} {A : Type κ} (view : S → A) (value : A) (body : ℕ → S → S) (stop : ℕ)
    → ((k : ℕ) (s : S) → k < stop → view (body k s) ≡ value)
    → (count start : ℕ) (s : S) → start + suc count ≤ stop
    → view (for_range (suc count) start body s) ≡ value
unfolding for_range
for_range-last view value body stop step zero start s h = step start s (omega arith)
for_range-last view value body stop step (suc count) start s h =
    for_range-last view value body stop step count (start + 1) (body start s) (omega arith)

-- A loop whose rounds keep what is seen.
pub for_range-kept {ℓ κ} :
    {S : Type ℓ} {A : Type κ} (view : S → A) (body : ℕ → S → S) (stop : ℕ)
    → ((k : ℕ) (s : S) → k < stop → view (body k s) ≡ view s)
    → (count start : ℕ) (s : S) → start + count ≤ stop
    → view (for_range count start body s) ≡ view s
unfolding for_range
for_range-kept view body stop step zero start s h = refl
for_range-kept view body stop step (suc count) start s h =
    for_range-kept view body stop step count (start + 1) (body start s) (omega arith)
    ∙ step start s (omega arith)
