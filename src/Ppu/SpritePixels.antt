-- ===== src/Ppu/SpritePixels.antt =====
-- The loop over a sprite's eight columns, at one column of the screen.
use rust_gb_emulator.Base.{
  ℕ, zero, suc, ◌+◌, ◌-◌, ◌*◌, ◌<◌, bit_and, Bool, true, false, not, ◌&&◌, ltb, leb, ◌==◌, ◌!=◌,
  if◌then◌else◌, ◌≡◌, refl, ap, sym, ◌∙◌, arith, Bool-cases, inl, inr,
}
use rust_gb_emulator.Base.Tests.{==_iff}
use rust_gb_emulator.Ppu.State.{Ppu}
use rust_gb_emulator.Ppu.Render.{Colour, Canvas, put_pixel, color_id_at, get_palette, for_range}
use rust_gb_emulator.Ppu.Window.{sprite_pixel}
use rust_gb_emulator.Ppu.Pixels.{Pixel, pixel_at, colour_at, colour_at-put_pixel}

chain {ℓ κ} :
    {A : Type ℓ} {B : Type κ} (view : A → B) (t1 t2 t3 : Bool) (c d : A)
    → view (if t1 then c else if not t2 then c else if t3 then c else d)
      ≡ (if not t1 && (t2 && not t3) then view d else view c)
chain view true t2 t3 c d = refl
chain view false true true c d = refl
chain view false true false c d = refl
chain view false false t3 c d = refl

-- A column of the screen against a column of a sprite, whose x coordinate is 8 more.
column_test :
    {A : Type 0} (x x8 : ℕ) (opaque : Bool) (behind_at : ℕ → Bool) (new old : A)
    → x < 160
    → (if opaque && ((leb 8 x8 && ltb x8 168) && not (behind_at (x8 - 8)))
        then if x == x8 - 8 then new else old
        else old)
      ≡ (if x + 8 == x8 && (opaque && not (behind_at x)) then new else old)
column_test x x8 opaque behind_at new old h = elim (Bool-cases (x + 8 == x8)) [
  | inl same ↦
      let e : x8 ≡ x + 8 = sym ((==_iff (x + 8) x8).0 same) in
      ap
        (λ y.
          if opaque && ((leb 8 y && ltb y 168) && not (behind_at (y - 8)))
          then if x == y - 8 then new else old
          else old)
        e
      ∙ ap
          (λ y.
            if opaque && ((leb 8 (x + 8) && ltb (x + 8) 168) && not (behind_at y))
            then if x == y then new else old
            else old)
          (omega arith)
      ∙ inside opaque (behind_at x)
      ∙ sym (ap (λ t. if t && (opaque && not (behind_at x)) then new else old) same)
  | inr other ↦
      outside (behind_at (x8 - 8)) other
      ∙ sym (ap (λ t. if t && (opaque && not (behind_at x)) then new else old) other)
]
  where
    inside :
        (o b : Bool)
        → (if o && ((leb 8 (x + 8) && ltb (x + 8) 168) && not b)
            then if x == x then new else old
            else old)
          ≡ (if true && (o && not b) then new else old)
    inside o b = ground arith

    outside :
        (b : Bool)
        → (x + 8 == x8) ≡ false
        → (if opaque && ((leb 8 x8 && ltb x8 168) && not b)
            then if x == x8 - 8 then new else old
            else old)
          ≡ old
    outside b e = ground arith

-- The colour number of a sprite's column, and whether it is drawn on a background number.
abbrev pub id_at : ℕ → ℕ → ℕ → ℕ → ℕ
id_at attr byte1 byte2 k = color_id_at byte1 byte2 (if bit_and attr 0x20 != 0 then k else 7 - k)

abbrev pub drawn_on : ℕ → ℕ → ℕ → ℕ → ℕ → Bool
drawn_on attr byte1 byte2 number k =
    not (id_at attr byte1 byte2 k == 0) && not (bit_and attr 0x80 != 0 && number != 0)

abbrev pub pixel_of : Ppu → ℕ → ℕ → ℕ → ℕ → ℕ → Pixel
pixel_of p attr byte1 byte2 number k = record {
  colour =
      get_palette (if bit_and attr 0x10 != 0 then p.obp1 else p.obp0) (id_at attr byte1 byte2 k);
  number = number;
}

sprite_pixel-at :
    (p : Ppu) (ly left attr byte1 byte2 k x : ℕ) (c : Canvas)
    → x < 160
    → let n = (pixel_at ly x c).number in
      pixel_at ly x (sprite_pixel p ly left attr byte1 byte2 k c) ≡ (
        if x + 8 == left + k && drawn_on attr byte1 byte2 n k
        then pixel_of p attr byte1 byte2 n k
        else pixel_at ly x c)
unfolding sprite_pixel
sprite_pixel-at p ly left attr byte1 byte2 k x c h =
    let x8 = left + k in
    let n = c.bg_color_index (ly * 160 + x) in
    let id = id_at attr byte1 byte2 k in
    let colour = get_palette (if bit_and attr 0x10 != 0 then p.obp1 else p.obp0) id in
    let behind_at : ℕ → Bool =
      λ y. bit_and attr 0x80 != 0 && c.bg_color_index (ly * 160 + y) != 0 in
    let drawn : Canvas = record c {
      framebuffer = put_pixel c.framebuffer ((ly * 160 + (x8 - 8)) * 3) colour;
    } in
    chain (pixel_at ly x) (id == 0) (leb 8 x8 && ltb x8 168) (behind_at (x8 - 8)) c drawn
    ∙ ap
        (λ v.
          if not (id == 0) && ((leb 8 x8 && ltb x8 168) && not (behind_at (x8 - 8)))
          then v
          else pixel_at ly x c)
        (ap (λ q. record { colour = q; number = n })
            (colour_at-put_pixel c.framebuffer ly x (x8 - 8) colour)
          ∙ numbered (x == x8 - 8) colour (colour_at c.framebuffer ly x) n)
    ∙ column_test x x8 (not (id == 0)) behind_at (pixel_of p attr byte1 byte2 n k) (pixel_at ly x c)
        h
  where
    numbered :
        (test : Bool) (a b : Colour) (n : ℕ)
        → ◌≡◌ {A = Pixel}
            (record { colour = if test then a else b; number = n })
            (if test then record { colour = a; number = n } else record { colour = b; number = n })
    numbered true a b n = refl
    numbered false a b n = refl

number_kept :
    (test : Bool) (a b : Pixel) (n : ℕ)
    → a.number ≡ n
    → b.number ≡ n
    → (if test then a else b).number ≡ n
number_kept true a b n e f = e
number_kept false a b n e f = f

own :
    (x left k : ℕ) (drawn : ℕ → Bool) (pixel : ℕ → Pixel) (other : Pixel)
    → (if x == left + k && drawn k then pixel k else other)
      ≡ (if x == left + k && drawn (x - left) then pixel (x - left) else other)
own x left k drawn pixel other = elim (Bool-cases (x == left + k)) [
  | inl same ↦
      let e : k ≡ x - left = omega (arith, (==_iff x (left + k)).0 same) in
      ap (λ n. if x == left + k && drawn n then pixel n else other) e
  | inr differs ↦
      ap (λ t. if t && drawn k then pixel k else other) differs
      ∙ sym (ap (λ t. if t && drawn (x - left) then pixel (x - left) else other) differs)
]

-- The columns of a sprite: the one at x, if it is among them and is drawn there.
pub columns-at :
    (p : Ppu) (ly left attr byte1 byte2 x n : ℕ)
    → x < 160
    → (count start : ℕ) (c : Canvas) → (pixel_at ly x c).number ≡ n
    → pixel_at ly x (for_range count start (sprite_pixel p ly left attr byte1 byte2) c) ≡ (
        if leb (left + start) (x + 8)
          && ltb (x + 8) (left + start + count)
          && drawn_on attr byte1 byte2 n (x + 8 - left)
        then pixel_of p attr byte1 byte2 n (x + 8 - left)
        else pixel_at ly x c)
unfolding for_range
columns-at p ly left attr byte1 byte2 x n h zero start c e =
    none_left (drawn_on attr byte1 byte2 n (x + 8 - left))
      (pixel_of p attr byte1 byte2 n (x + 8 - left)) (pixel_at ly x c)
  where
    none_left :
        (w : Bool) (a b : Pixel)
        → b ≡ (if leb (left + start) (x + 8) && ltb (x + 8) (left + start + 0) && w then a else b)
    none_left w a b = ground arith
columns-at p ly left attr byte1 byte2 x n h (suc count) start c e =
    let drawn = drawn_on attr byte1 byte2 n in
    let pixel = pixel_of p attr byte1 byte2 n in
    let old = pixel_at ly x c in
    let first : pixel_at ly x (sprite_pixel p ly left attr byte1 byte2 start c)
        ≡ (if x + 8 == left + start && drawn start then pixel start else old) =
      sprite_pixel-at p ly left attr byte1 byte2 start x c h
      ∙ ap
          (λ m.
            if x + 8 == left + start && drawn_on attr byte1 byte2 m start
            then pixel_of p attr byte1 byte2 m start
            else old)
          e in
    columns-at p ly left attr byte1 byte2 x n h count (start + 1)
      (sprite_pixel p ly left attr byte1 byte2 start c)
      (ap (λ (q : Pixel). q.number) first
        ∙ number_kept (x + 8 == left + start && drawn start) (pixel start) old n refl e)
    ∙ ap
        (λ v.
          if leb (left + (start + 1)) (x + 8)
            && ltb (x + 8) (left + (start + 1) + count)
            && drawn (x + 8 - left)
          then pixel (x + 8 - left)
          else v)
        (first ∙ own (x + 8) left start drawn pixel old)
    ∙ joined (drawn (x + 8 - left)) (pixel (x + 8 - left)) old
  where
    joined :
        (w : Bool) (a b : Pixel)
        → (if leb (left + (start + 1)) (x + 8) && ltb (x + 8) (left + (start + 1) + count) && w
            then a
            else if x + 8 == left + start && w
            then a
            else b)
          ≡ (if leb (left + start) (x + 8) && ltb (x + 8) (left + start + suc count) && w
              then a
              else b)
    joined w a b = ground arith
