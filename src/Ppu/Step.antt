-- ===== src/Ppu/Step.antt =====
-- src/ppu.rs: the mode machine.
use rust_gb_emulator.Base.{
  ℕ, ◌+◌, ◌-◌, bit_and, Bool, true, false, ltb, leb, ◌==◌, ◌!=◌, if◌then◌else◌, u8, Build, Outcome,
  ok, ◌>>=◌, fit,
}
use rust_gb_emulator.Ppu.State.{
  Ppu, mode_hblank, mode_vblank, mode_oam_scan, mode_drawing, lcdc_lcd_enable, stat_mode_mask,
  oam_scan_cycles, drawing_cycles, hblank_cycles, scanline_cycles, set_mode, set_ly,
}
use rust_gb_emulator.Ppu.Window.{render_scanline}

-- A picture unit, and whether it has asked for VBlank.
abbrev pub Stepped : Type 0
Stepped = Ppu × Bool

unfoldable pub step_oam_scan : Ppu → Stepped
step_oam_scan p =
    if leb oam_scan_cycles p.mode_cycles
    then (set_mode (record p { mode_cycles = p.mode_cycles - oam_scan_cycles }) mode_drawing, false)
    else (p, false)

unfoldable pub step_drawing : Ppu → Stepped
step_drawing p =
    if leb drawing_cycles p.mode_cycles
    then (
      render_scanline
          (set_mode (record p { mode_cycles = p.mode_cycles - drawing_cycles }) mode_hblank),
      false,
    )
    else (p, false)

-- After `set_ly` in HBlank: the last line enters VBlank.
unfoldable pub end_line : Ppu → Stepped
end_line p =
    if p.ly == 144
    then (
      record (set_mode p mode_vblank) { vblank_interrupt = true; window_line_counter = 0 },
      true,
    )
    else if ltb p.ly 144
    then (set_mode p mode_oam_scan, false)
    else (p, false)

-- `self.ly + 1` is a sum of type u8.
unfoldable pub step_hblank : Build → Ppu → Outcome Stepped
step_hblank b p =
    if leb hblank_cycles p.mode_cycles
    then (do
      next_ly ← fit b 8 (p.ly + 1)
      ok (end_line (set_ly (record p { mode_cycles = p.mode_cycles - hblank_cycles }) next_ly)))
    else ok (p, false)

unfoldable pub step_vblank : Ppu → Stepped
step_vblank p =
    let next_ly = u8 (p.ly + 1) in
    let p' = set_ly (record p { mode_cycles = p.mode_cycles - scanline_cycles }) next_ly in
    if leb scanline_cycles p.mode_cycles
    then (if ltb 153 p'.ly then (set_mode (set_ly p' 0) mode_oam_scan, false) else (p', false))
    else (p, false)

-- The arms of the `match` on the mode, two bits of STAT.
unfoldable pub step_mode : Build → ℕ → Ppu → Outcome Stepped
step_mode b current_mode p =
    if current_mode == mode_oam_scan
    then ok (step_oam_scan p)
    else if current_mode == mode_drawing
    then ok (step_drawing p)
    else if current_mode == mode_hblank
    then step_hblank b p
    else if current_mode == mode_vblank
    then ok (step_vblank p)
    else ok (p, false)

unfoldable pub lcd_off : Ppu → Ppu
lcd_off p =
    if p.prev_lcd_enabled
    then record p { ly = 0; mode_cycles = 0; prev_lcd_enabled = false }
    else record p { prev_lcd_enabled = false }

-- `self.mode_cycles += cycles` is a sum of type u32.
unfoldable pub step : Build → ℕ → Ppu → Outcome Stepped
step b cycles p =
    if bit_and p.lcdc lcdc_lcd_enable != 0
    then (do
      total ← fit b 32 (p.mode_cycles + cycles)
      step_mode b (bit_and p.stat stat_mode_mask)
          (record p { prev_lcd_enabled = true; mode_cycles = total }))
    else ok (lcd_off p, false)
