-- ===== src/Ppu/WindowPass.antt =====
-- The window of a line, at each of its columns, and its counter of lines.
use rust_gb_emulator.Base.{
  ℕ, zero, suc, ◌+◌, ◌-◌, ◌/◌, ◌%◌, ◌<◌, bit_and, Bool, true, false, ◌&&◌, ◌||◌, ltb, leb, ◌==◌,
  ◌!=◌, if◌then◌else◌, u8, ◌≡◌, refl, ap, ◌∙◌, arith, Bool-cases, inl, inr,
}
use rust_gb_emulator.Ppu.State.{Ppu, lcdc_window_tilemap}
use rust_gb_emulator.Ppu.Kept.{AllBytes}
use rust_gb_emulator.Ppu.Render.{Canvas, coloured, tile_pixel, for_range}
use rust_gb_emulator.Ppu.Window.{
  WindowPass, window_pixel, window_start, window_pass, is_rendered, render_window_line,
}
use rust_gb_emulator.Ppu.Pixels.{Pixel, pixel_at, for_range-at, for_range-last}
use rust_gb_emulator.Ppu.Reference.{map_offset, map_number, window_number, shown}
use rust_gb_emulator.Ppu.Tiles.{tile_pixel_lem}
use rust_gb_emulator.Ppu.Passes.{own_column, map_base, map_offset-le, painted}

-- Where the window's loop starts, and the place k + 7 - WX of the window that a column k shows.
record Starts (wx start first : ℕ) : Type 0 where
  place : (k : ℕ) → first + (k - start) ≡ k + 7 - wx
  narrow : (k : ℕ) → k < start + (160 - start) → first + (k - start) < 256
  covers : (x : ℕ) → x < 160 → (leb start x && ltb x (start + (160 - start))) ≡ leb wx (x + 7)
  any : ltb start 160 ≡ ltb wx 167

starts : (wx : ℕ) → wx < 256 → Starts wx (window_start wx).0 (window_start wx).1
unfolding window_start
starts wx h = elim (Bool-cases (ltb wx 7)) [
  | inl left ↦ rw left (record {
    place = λ k. ground arith;
    narrow = λ k l. ground arith;
    covers = λ x l. ground arith;
    any = ground arith;
  })
  | inr right ↦ rw right (record {
    place = λ k. ground arith;
    narrow = λ k l. ground arith;
    covers = λ x l. ground arith;
    any = ground arith;
  })
]

-- A round of the window's loop, and the loop.
abbrev window_round : Ppu → ℕ → ℕ → ℕ → ℕ → WindowPass → WindowPass
window_round p base start first k =
    let y = p.window_line_counter in
    window_pixel p p.ly k (tile_pixel p base (y / 8 % 32) (y % 8) (first + (k - start)))

window_round-at :
    (p : Ppu) (base start first x k : ℕ) (w : WindowPass)
    → AllBytes p.vram
    → base ≡ map_offset p 6 + 0x8000
    → p.window_line_counter < 256
    → Starts p.wx start first
    → k < start + (160 - start)
    → (pixel_at p.ly x (window_round p base start first k w).canvas
        ≡ (if x == k then shown p (window_number p x) else pixel_at p.ly x w.canvas))
      × ((window_round p base start first k w).rendered ≡ true)
unfolding window_pixel window_number is_rendered
window_round-at p base start first x k w bytes at small s l =
    let y = p.window_line_counter in
    let offset = map_offset p 6 in
    let q = first + (k - start) in
    let found : tile_pixel p base (y / 8 % 32) (y % 8) q ≡ coloured (map_number p offset q y) =
      ap (λ n. tile_pixel p n (y / 8 % 32) (y % 8) q) at
      ∙ tile_pixel_lem p offset q y bytes (map_offset-le p 6) (s.narrow k l) small in
    let at_place : ℕ → Pixel = λ n. shown p (map_number p offset n y) in
    (
      painted p base offset p.ly x k q y w.canvas bytes at (map_offset-le p 6) (s.narrow k l) small
          ∙ ap (λ n. if x == k then at_place n else pixel_at p.ly x w.canvas) (s.place k)
          ∙ own_column (λ n. at_place (n + 7 - p.wx)) x k (pixel_at p.ly x w.canvas),
      ap (λ t. w.rendered || is_rendered t) found ∙ or_true w.rendered,
    )
  where
    or_true : (b : Bool) → (b || true) ≡ true
    or_true b = ground arith

rendered_after :
    (p : Ppu) (base start first x : ℕ) (c : Canvas)
    → AllBytes p.vram
    → base ≡ map_offset p 6 + 0x8000
    → p.window_line_counter < 256
    → Starts p.wx start first
    → (n : ℕ) → n ≡ 160 - start
    → (for_range n start
        (window_round p base start first)
        (record { canvas = c; rendered = false })).rendered
      ≡ ltb start 160
unfolding for_range
rendered_after p base start first x c bytes at small s zero e = ground arith
rendered_after p base start first x c bytes at small s (suc n) e =
    for_range-last (λ w. w.rendered) true (window_round p base start first) (start + suc n)
      (λ k w l. (window_round-at p base start first x k w bytes at small s (omega arith)).1) n start
      (record { canvas = c; rendered = false }) (omega arith)
    ∙ ground arith

-- After the window's pass a column shows the window exactly from WX - 7 on, and the pass reports
-- that it has drawn exactly if there is such a column.
window_pass-at :
    (p : Ppu) (x : ℕ) (c : Canvas)
    → AllBytes p.vram
    → p.window_line_counter < 256
    → p.wx < 256
    → x < 160
    → let w = window_pass p p.ly (record { canvas = c; rendered = false }) in
      (pixel_at p.ly x w.canvas
        ≡ (if leb p.wx (x + 7) then shown p (window_number p x) else pixel_at p.ly x c))
      × (w.rendered ≡ ltb p.wx 167)
unfolding window_pass
window_pass-at p x c bytes small wide h =
    let start = (window_start p.wx).0 in
    let first = (window_start p.wx).1 in
    let s = starts p.wx wide in
    let base : ℕ = if bit_and p.lcdc lcdc_window_tilemap != 0 then 0x9C00 else 0x9800 in
    let stop = start + (160 - start) in
    let w0 : WindowPass = record { canvas = c; rendered = false } in
    (
      for_range-at (λ w. pixel_at p.ly x w.canvas) x (shown p (window_number p x))
            (window_round p base start first) stop
            (λ k w l. (window_round-at p base start first x k w bytes (map_base p 6) small s l).0)
            (160 - start) start w0 (omega arith)
          ∙ ap (λ test. if test then shown p (window_number p x) else pixel_at p.ly x c)
              (s.covers x h),
      rendered_after p base start first x c bytes (map_base p 6) small s (160 - start) refl ∙ s.any,
    )

pub view_of {ℓ κ} :
    {A : Type ℓ} {B : Type κ} (test : Bool) (view : A → B) (a b : A)
    → view (if test then a else b) ≡ (if test then view a else view b)
view_of true view a b = refl
view_of false view a b = refl

counted :
    (test : Bool) (wy ly : ℕ) (a b : Pixel)
    → ly < 256
    → (if ltb (u8 ly) wy then b else if test then a else b) ≡ (if leb wy ly && test then a else b)
counted test wy ly a b h = ground arith

pub render_window_line-at :
    (p : Ppu) (x : ℕ) (c : Canvas)
    → AllBytes p.vram
    → p.window_line_counter < 256
    → p.wx < 256
    → p.ly < 256
    → x < 160
    → pixel_at p.ly x (render_window_line p p.ly c).0 ≡ (
        if leb p.wy p.ly && leb p.wx (x + 7)
        then shown p (window_number p x)
        else pixel_at p.ly x c)
unfolding render_window_line
render_window_line-at p x c bytes small wide low h =
    let w = window_pass p p.ly (record { canvas = c; rendered = false }) in
    let later : ℕ = if w.rendered then u8 (p.window_line_counter + 1) else p.window_line_counter in
    view_of (ltb (u8 p.ly) p.wy) (λ (r : Canvas × ℕ). pixel_at p.ly x r.0)
      (c, p.window_line_counter) (w.canvas, later)
    ∙ ap (λ v. if ltb (u8 p.ly) p.wy then pixel_at p.ly x c else v)
        (window_pass-at p x c bytes small wide h).0
    ∙ counted (leb p.wx (x + 7)) p.wy p.ly (shown p (window_number p x)) (pixel_at p.ly x c) low

-- The window's counter goes on exactly on a line that shows the window.
pub render_window_line-counter :
    (p : Ppu) (c : Canvas)
    → AllBytes p.vram
    → p.window_line_counter < 256
    → p.wx < 256
    → p.ly < 256
    → (render_window_line p p.ly c).1 ≡ (
        if leb p.wy p.ly && ltb p.wx 167
        then (p.window_line_counter + 1) % 256
        else p.window_line_counter)
unfolding render_window_line
render_window_line-counter p c bytes small wide low =
    let w = window_pass p p.ly (record { canvas = c; rendered = false }) in
    let count : Bool → ℕ =
      λ r. if r then u8 (p.window_line_counter + 1) else p.window_line_counter in
    view_of (ltb (u8 p.ly) p.wy) (λ (r : Canvas × ℕ). r.1) (c, p.window_line_counter)
      (w.canvas, count w.rendered)
    ∙ ap (λ r. if ltb (u8 p.ly) p.wy then p.window_line_counter else count r)
        (window_pass-at p 0 c bytes small wide (omega arith)).1
    ∙ ground arith
