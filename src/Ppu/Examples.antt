-- ===== src/Ppu/Examples.antt =====
-- The picture unit's theorems at concrete units.
use rust_gb_emulator.Ppu.Kept.{IsVideo}
use rust_gb_emulator.Base.{
  ℕ, ◌+◌, ◌≡◌, refl, arith, inr, true, false, filled, set_at, debug, release, ok, [], ◌∷◌,
}
use rust_gb_emulator.Ppu.State.{Ppu, new}
use rust_gb_emulator.Ppu.Step.{Stepped, step}
use rust_gb_emulator.Ppu.Timing.{IsTimed, position, Arrives}
use rust_gb_emulator.Ppu.Clock.{step-Arrives, passes_vblank}
use rust_gb_emulator.Ppu.Pixels.{colour_at}
use rust_gb_emulator.Ppu.Window.{render_scanline}
use rust_gb_emulator.Ppu.Reference.{line_colour}
use rust_gb_emulator.Ppu.Outside.{render_scanline-both_at}
use rust_gb_emulator.Ppu.Scanline.{render_scanline-line_colour}
use rust_gb_emulator.Ppu.Picture.{picture}
use rust_gb_emulator.Ppu.Draws.{run-picture}
use rust_gb_emulator.Ppu.Stat.{StatSteps}
use rust_gb_emulator.Ppu.StatSteps.{step-StatSteps}
use rust_gb_emulator.Ppu.Frames.{run, run-frames}

-- Line 143, 4 cycles before its end, with the LCD on.
abbrev last_line : Ppu
last_line = record (unfold new in new) { lcdc = 0x91; stat = 0x80; ly = 143; mode_cycles = 200 }

abbrev last_line-IsTimed : IsTimed last_line
last_line-IsTimed = record {
  stat_u8 = omega arith;
  in_mode = omega arith;
  visible_line = λ h. omega arith;
  blank_line = λ h. absurd (omega arith);
}

step-Arrives_example :
    (r : Stepped) × (step debug 8 last_line ≡ ok r)
    × Arrives last_line
        (position last_line + 8)
        (passes_vblank (position last_line) (position last_line + 8))
        r
step-Arrives_example = step-Arrives debug 8 last_line last_line-IsTimed refl (omega arith)

run-frames_example :
    (q : Ppu) × (n : ℕ) × (run release (24 ∷ 4 ∷ 80 ∷ []) last_line ≡ ok (q, n))
    × IsTimed q
    × (position q ≡ 65768)
    × (n ≡ 1)
run-frames_example =
    run-frames release (24 ∷ 4 ∷ 80 ∷ []) last_line last_line-IsTimed refl
      (omega arith, (omega arith, (omega arith, tt)))

-- The window over the background, and sprite 0 at the window's corner, at the start of a frame.
abbrev scene : Ppu
scene = record {
  vram = filled 0x3C;
  oam = set_at (set_at (filled 0) 0 26) 1 88;
  lcdc = 0xB3;
  stat = 0x82;
  scy = 0;
  scx = 0;
  ly = 0;
  lyc = 0;
  bgp = 0xE4;
  obp0 = 0xE4;
  obp1 = 0xE4;
  wy = 10;
  wx = 87;
  framebuffer = filled 0;
  bg_color_index = filled 0;
  mode_cycles = 0;
  vblank_interrupt = false;
  stat_interrupt = false;
  window_line_counter = 0;
  prev_lcd_enabled = true;
}

abbrev scene-IsTimed : IsTimed scene
scene-IsTimed = record {
  stat_u8 = omega arith;
  in_mode = omega arith;
  visible_line = λ h. omega arith;
  blank_line = λ h. absurd (omega arith);
}

scene-IsVideo : IsVideo scene
scene-IsVideo = record {
  vram_bytes = λ i. omega arith;
  oam_bytes = λ i. ground arith;
  scy_u8 = omega arith;
  scx_u8 = omega arith;
  ly_u8 = omega arith;
  lyc_u8 = omega arith;
  bgp_u8 = omega arith;
  obp0_u8 = omega arith;
  obp1_u8 = omega arith;
  wy_u8 = omega arith;
  wx_u8 = omega arith;
}

render_scanline-line_colour_example :
    colour_at (render_scanline scene).framebuffer 0 80 ≡ line_colour scene 80
render_scanline-line_colour_example =
    render_scanline-line_colour scene 80 scene-IsVideo (omega arith) (omega arith) (omega arith)

render_scanline-both_at_example :
    ((render_scanline scene).framebuffer 480 ≡ 0) × ((render_scanline scene).bg_color_index 160 ≡ 0)
render_scanline-both_at_example =
    render_scanline-both_at scene 480 160 (inr (omega arith)) (inr (omega arith))

run-picture_example :
    (q : Ppu) × (n : ℕ) × (run debug (80 ∷ 80 ∷ 80 ∷ 12 ∷ []) scene ≡ ok (q, n))
    × (colour_at q.framebuffer 0 80 ≡ picture scene 0 80)
run-picture_example =
    run-picture debug (80 ∷ 80 ∷ 80 ∷ 12 ∷ []) scene 0 80 scene-IsTimed scene-IsVideo refl refl refl
      refl (omega arith, (omega arith, (omega arith, (omega arith, tt)))) (omega arith)
      (omega arith) (omega arith)

-- The last cycles of line 153, where LYC is 154 and its interrupt is enabled.
abbrev late : Ppu
late = record (unfold new in new) {
  lcdc = 0x91;
  stat = 0xC1;
  ly = 153;
  lyc = 154;
  mode_cycles = 450;
  stat_interrupt = false;
}

abbrev late-IsTimed : IsTimed late
late-IsTimed = record {
  stat_u8 = omega arith;
  in_mode = omega arith;
  visible_line = λ h. absurd (h refl);
  blank_line = λ h. (omega arith, omega arith);
}

step-StatSteps_example : (r : Stepped) × (step debug 8 late ≡ ok r) × StatSteps late r.0
step-StatSteps_example = step-StatSteps debug 8 late late-IsTimed refl (omega arith)
