-- ===== src/Ppu/Effects.antt =====
-- What a step does to the picture and to the window's counter, by mode.
use rust_gb_emulator.Base.{
  ℕ, zero, suc, ◌+◌, ◌-◌, ◌%◌, Bool, true, false, leb, if◌then◌else◌, u8, ◌≡◌, ◌≢◌, refl, ap, arith,
  Build, debug, release, ok,
}
use rust_gb_emulator.Ppu.State.{Ppu, set_mode, set_ly}
use rust_gb_emulator.Ppu.Window.{render_scanline}
use rust_gb_emulator.Ppu.Step.{
  Stepped, step_mode, step_oam_scan, step_drawing, step_hblank, end_line, step_vblank,
}

-- The framebuffer is as it was, and the window's counter too, or 0 where VBlank begins.
pub record Unpainted (p : Ppu) (r : Stepped) : Type 0 where
  pub framebuffer : r.0.framebuffer ≡ p.framebuffer
  pub counter : r.0.window_line_counter ≡ (if r.1 then 0 else p.window_line_counter)

abbrev pub Untouched : Ppu → Ppu → Type 0
Untouched p q = (q.framebuffer ≡ p.framebuffer) × (q.window_line_counter ≡ p.window_line_counter)

pub set_mode-Untouched : (p : Ppu) (mode : ℕ) → Untouched p (set_mode p mode)
unfolding set_mode
set_mode-Untouched p mode = ground arith

set_ly-Untouched : (p : Ppu) (value : ℕ) → Untouched p (set_ly p value)
unfolding set_ly
set_ly-Untouched p value = ground arith

end_line-Unpainted : (p : Ppu) → Unpainted p (end_line p)
unfolding end_line
end_line-Unpainted p = ground (arith, set_mode-Untouched p 1, set_mode-Untouched p 2)

step_hblank-Unpainted : (b : Build) (p : Ppu) (r : Stepped) → step_hblank b p ≡ ok r → Unpainted p r
unfolding step_hblank
step_hblank-Unpainted debug p r e =
    let p0 = record p { mode_cycles = p.mode_cycles - 204 } in
    let n = p.ly + 1 in ground (arith, e, set_ly-Untouched p0 n, end_line-Unpainted (set_ly p0 n))
step_hblank-Unpainted release p r e =
    let p0 = record p { mode_cycles = p.mode_cycles - 204 } in
    let n = (p.ly + 1) % 256 in
    ground (arith, e, set_ly-Untouched p0 n, end_line-Unpainted (set_ly p0 n))

step_vblank-Unpainted : (p : Ppu) → Unpainted p (step_vblank p)
unfolding step_vblank
step_vblank-Unpainted p =
    let p0 = record p { mode_cycles = p.mode_cycles - 456 } in
    let p1 = set_ly p0 (u8 (p.ly + 1)) in
    ground (
      arith,
      set_ly-Untouched p0 (u8 (p.ly + 1)),
      set_ly-Untouched p1 0,
      set_mode-Untouched (set_ly p1 0) 2,
    )

step_oam_scan-Unpainted : (p : Ppu) → Unpainted p (step_oam_scan p)
unfolding step_oam_scan
step_oam_scan-Unpainted p =
    ground (arith, set_mode-Untouched (record p { mode_cycles = p.mode_cycles - 80 }) 3)

-- Only the mode that draws changes the picture.
pub step_mode-Unpainted :
    (b : Build) (mode : ℕ) (p : Ppu) (r : Stepped)
    → mode ≢ 3
    → step_mode b mode p ≡ ok r
    → Unpainted p r
unfolding step_mode
step_mode-Unpainted b zero p r n e = step_hblank-Unpainted b p r e
step_mode-Unpainted b (suc zero) p r n e = ground (arith, e, step_vblank-Unpainted p)
step_mode-Unpainted b (suc (suc zero)) p r n e = ground (arith, e, step_oam_scan-Unpainted p)
step_mode-Unpainted b (suc (suc (suc zero))) p r n e = absurd (n refl)
step_mode-Unpainted b (suc (suc (suc (suc m)))) p r n e = ground (arith, e)

-- The line that is drawn: the unit at the end of its drawing mode.
abbrev pub drawing_ends : Ppu → Ppu
drawing_ends p = set_mode (record p { mode_cycles = p.mode_cycles - 172 }) 0

pub step_mode-drawing :
    (b : Build) (p : Ppu)
    → step_mode b 3 p
      ≡ ok (if leb 172 p.mode_cycles then render_scanline (drawing_ends p) else p, false)
unfolding step_mode step_drawing
step_mode-drawing b p = ap ok (by_test (leb 172 p.mode_cycles) (render_scanline (drawing_ends p)))
  where
    by_test :
        (test : Bool) (a : Ppu)
        → ◌≡◌ {A = Stepped} (if test then (a, false) else (p, false)) (if test then a else p, false)
    by_test true a = refl
    by_test false a = refl
