-- ===== src/Ppu/Timing.antt =====
-- The mode machine as a clock of 70224 cycles a frame.
use rust_gb_emulator.Base.{
  ℕ, ◌+◌, ◌-◌, ◌*◌, ◌%◌, ◌<◌, ◌≤◌, Bool, true, false, leb, ◌==◌, if◌then◌else◌, ◌≡◌, ◌≢◌, arith,
  Build, debug, release, ok, Bool-cases, inl, inr,
}
use rust_gb_emulator.Ppu.State.{Ppu, set_mode, set_ly}
use rust_gb_emulator.Ppu.Step.{
  Stepped, step_oam_scan, step_drawing, step_hblank, end_line, step_vblank,
}
use rust_gb_emulator.Ppu.Fields.{set_mode_lem, set_ly_lem, render_scanline_lem}

-- How long a mode lasts, and where it begins in its line.
abbrev pub duration : ℕ → ℕ
duration mode = if mode == 0 then 204 else if mode == 1 then 456 else if mode == 2 then 80 else 172

abbrev pub offset : ℕ → ℕ
offset mode = if mode == 0 then 252 else if mode == 3 then 80 else 0

-- The mode has cycles left, and the line fits the mode: 144 to 153 are VBlank.
pub record IsTimed (p : Ppu) : Type 0 where
  pub stat_u8 : p.stat < 256
  pub in_mode : p.mode_cycles < duration (p.stat % 4)
  pub visible_line : p.stat % 4 ≢ 1 → p.ly < 144
  pub blank_line : p.stat % 4 ≡ 1 → (144 ≤ p.ly) × (p.ly < 154)

-- The cycles since the frame began.
abbrev pub position : Ppu → ℕ
position p = p.ly * 456 + offset (p.stat % 4) + p.mode_cycles

-- A step's result: well timed, at the place `total` of the frame, and VBlank asked for exactly
-- if the place has passed line 144's start.
pub record Arrives (p : Ppu) (total : ℕ) (asks : Bool) (r : Stepped) : Type 0 where
  pub timed : IsTimed r.0
  pub place : position r.0 ≡ total % 70224
  pub asked : r.1 ≡ asks
  pub lcdc_kept : r.0.lcdc ≡ p.lcdc
  pub vblank_flag : r.0.vblank_interrupt ≡ (if asks then true else p.vblank_interrupt)

pub oam_scan-Arrives :
    (p : Ppu)
    → p.stat < 256
    → p.stat % 4 ≡ 2
    → p.ly < 144
    → p.mode_cycles < 160
    → Arrives p (p.ly * 456 + p.mode_cycles) false (step_oam_scan p)
unfolding step_oam_scan
oam_scan-Arrives p h m l c =
    ground (arith, set_mode_lem (record p { mode_cycles = p.mode_cycles - 80 }) 3)

pub drawing-Arrives :
    (p : Ppu)
    → p.stat < 256
    → p.stat % 4 ≡ 3
    → p.ly < 144
    → p.mode_cycles < 252
    → Arrives p (p.ly * 456 + 80 + p.mode_cycles) false (step_drawing p)
unfolding step_drawing
drawing-Arrives p h m l c =
    let p' = record p { mode_cycles = p.mode_cycles - 172 } in
    ground (arith, set_mode_lem p' 0, render_scanline_lem (set_mode p' 0))

pub vblank-Arrives :
    (p : Ppu)
    → p.stat < 256
    → p.stat % 4 ≡ 1
    → 144 ≤ p.ly
    → p.ly < 154
    → p.mode_cycles < 536
    → Arrives p (p.ly * 456 + p.mode_cycles) false (step_vblank p)
unfolding step_vblank
vblank-Arrives p h m l g c =
    let p' = record p { mode_cycles = p.mode_cycles - 456 } in
    let q = set_ly p' (p.ly + 1) in
    ground (arith, set_ly_lem p' (p.ly + 1), set_ly_lem q 0, set_mode_lem (set_ly q 0) 2)

end_line-Arrives :
    (p : Ppu)
    → p.stat < 256
    → p.stat % 4 ≡ 0
    → p.ly ≤ 144
    → p.mode_cycles < 80
    → Arrives p (p.ly * 456 + p.mode_cycles) (p.ly == 144) (end_line p)
unfolding end_line
end_line-Arrives p h m l c = ground (arith, set_mode_lem p 1, set_mode_lem p 2)

pub hblank-Arrives :
    (b : Build) (p : Ppu)
    → p.stat < 256
    → p.stat % 4 ≡ 0
    → p.ly < 144
    → p.mode_cycles < 284
    → (r : Stepped) × (step_hblank b p ≡ ok r)
      × Arrives p
          (p.ly * 456 + 252 + p.mode_cycles)
          (leb 65664 (p.ly * 456 + 252 + p.mode_cycles))
          r
unfolding step_hblank
hblank-Arrives b p h m l c = elim (Bool-cases (leb 204 p.mode_cycles)) [
  | inl over ↦
      let p' = record p { mode_cycles = p.mode_cycles - 204 } in
      let q = set_ly p' (p.ly + 1) in
      (end_line q, next_line b over, ground (arith, set_ly_lem p' (p.ly + 1), end_line-Arrives q))
  | inr more ↦ ((p, false), ground arith, ground arith)
]
  where
    next_line :
        (c : Build)
        → leb 204 p.mode_cycles ≡ true
        → step_hblank c p
          ≡ ok (end_line (set_ly (record p { mode_cycles = p.mode_cycles - 204 }) (p.ly + 1)))
    next_line debug over = ground arith
    next_line release over = ground arith
