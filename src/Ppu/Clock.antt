-- ===== src/Ppu/Clock.antt =====
-- A step of the picture unit as a step of a clock of 70224 cycles a frame.
use rust_gb_emulator.Base.{
  ℕ, zero, suc, ◌+◌, ◌/◌, ◌%◌, ◌≤◌, Bool, true, ltb, leb, ◌&&◌, ◌≡◌, refl, ◌∙◌, arith, Build, debug,
  release, ok,
}
use rust_gb_emulator.Base.Masks.{bit_and_ones, bit_and_bit}
use rust_gb_emulator.Ppu.State.{Ppu}
use rust_gb_emulator.Ppu.Step.{Stepped, step, step_mode, step_oam_scan, step_drawing, step_vblank}
use rust_gb_emulator.Ppu.Timing.{
  IsTimed, position, Arrives, oam_scan-Arrives, drawing-Arrives, vblank-Arrives, hblank-Arrives,
}

-- The lines from 144 on are VBlank: the frame's cycle 65664 is where it starts.
abbrev pub vblank_start : ℕ
vblank_start = 65664

abbrev pub passes_vblank : ℕ → ℕ → Bool
passes_vblank before after = ltb before vblank_start && leb vblank_start after

-- `mode_cycles` with the cycles of the step added.
abbrev pub fed : ℕ → Ppu → Ppu
fed cycles p = record p { prev_lcd_enabled = true; mode_cycles = p.mode_cycles + cycles }

step_mode-Arrives :
    (mode : ℕ) (b : Build) (cycles : ℕ) (p : Ppu)
    → p.stat % 4 ≡ mode
    → IsTimed p
    → cycles ≤ 80
    → (r : Stepped) × (step_mode b mode (fed cycles p) ≡ ok r)
      × Arrives p (position p + cycles) (passes_vblank (position p) (position p + cycles)) r
unfolding step_mode
step_mode-Arrives zero b cycles p m v h =
    let (r, returns, arrives) =
      hblank-Arrives b (fed cycles p) (ground arith) m (ground arith) (ground arith) in
    (r, returns, ground arith)
step_mode-Arrives (suc zero) b cycles p m v h =
    (step_vblank (fed cycles p), refl, ground (arith, vblank-Arrives (fed cycles p)))
step_mode-Arrives (suc (suc zero)) b cycles p m v h =
    (step_oam_scan (fed cycles p), refl, ground (arith, oam_scan-Arrives (fed cycles p)))
step_mode-Arrives (suc (suc (suc zero))) b cycles p m v h =
    (step_drawing (fed cycles p), refl, ground (arith, drawing-Arrives (fed cycles p)))
step_mode-Arrives (suc (suc (suc (suc k)))) b cycles p m v h = absurd (omega arith)

-- With the LCD on, the step of a well-timed unit is its mode's.
pub step-step_mode :
    (b : Build) (cycles : ℕ) (p : Ppu)
    → IsTimed p
    → p.lcdc / 128 % 2 ≡ 1
    → cycles ≤ 80
    → step b cycles p ≡ step_mode b (p.stat % 4) (fed cycles p)
unfolding step
step-step_mode debug cycles p v on h = ground (arith, bit_and_bit 7 p.lcdc, bit_and_ones 2 p.stat)
step-step_mode release cycles p v on h = ground (arith, bit_and_bit 7 p.lcdc, bit_and_ones 2 p.stat)

-- With the LCD on, a step of at most 80 cycles panics in neither build and moves the unit on by
-- exactly its cycles in a frame of 70224: mode and line are again those of the new place. VBlank
-- is asked for, and its flag set, exactly if the step passes the start of line 144; else the flag
-- is as it was.
pub step-Arrives :
    (b : Build) (cycles : ℕ) (p : Ppu)
    → IsTimed p
    → p.lcdc / 128 % 2 ≡ 1
    → cycles ≤ 80
    → (r : Stepped) × (step b cycles p ≡ ok r)
      × Arrives p (position p + cycles) (passes_vblank (position p) (position p + cycles)) r
step-Arrives b cycles p v on h =
    let (r, returns, arrives) = step_mode-Arrives (p.stat % 4) b cycles p refl v h in
    (r, step-step_mode b cycles p v on h ∙ returns, arrives)
