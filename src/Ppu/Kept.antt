-- ===== src/Ppu/Kept.antt =====
-- The registers and the memory of the picture unit that its mode machine leaves alone.
use rust_gb_emulator.Base.{
  ℕ, zero, suc, ◌+◌, ◌-◌, ◌/◌, ◌%◌, ◌^◌, ◌<◌, ◌≤◌, bit_and, true, ◌≡◌, refl, arith, Build, debug,
  release, ok, u8, Bytes,
}
use rust_gb_emulator.Ppu.State.{Ppu, set_mode, set_ly}
use rust_gb_emulator.Ppu.Window.{render_scanline}
use rust_gb_emulator.Ppu.Step.{
  Stepped, step, step_mode, step_oam_scan, step_drawing, step_hblank, end_line, step_vblank,
  lcd_off,
}
use rust_gb_emulator.Ppu.Timing.{IsTimed}
use rust_gb_emulator.Ppu.Clock.{step-Arrives}
use rust_gb_emulator.Ppu.Frames.{IsPpu, step-off, step-IsPpu}

pub record SameRegisters (p q : Ppu) : Type 0 where
  pub vram : q.vram ≡ p.vram
  pub oam : q.oam ≡ p.oam
  pub scy : q.scy ≡ p.scy
  pub scx : q.scx ≡ p.scx
  pub lyc : q.lyc ≡ p.lyc
  pub bgp : q.bgp ≡ p.bgp
  pub obp0 : q.obp0 ≡ p.obp0
  pub obp1 : q.obp1 ≡ p.obp1
  pub wy : q.wy ≡ p.wy
  pub wx : q.wx ≡ p.wx

pub set_mode_kept : (p : Ppu) (mode : ℕ) → SameRegisters p (set_mode p mode)
unfolding set_mode
set_mode_kept p mode = ground arith

pub set_ly_kept : (p : Ppu) (value : ℕ) → SameRegisters p (set_ly p value)
unfolding set_ly
set_ly_kept p value = ground arith

render_scanline_kept : (p : Ppu) → SameRegisters p (render_scanline p)
unfolding render_scanline
render_scanline_kept p = ground arith

step_oam_scan_kept : (p : Ppu) → SameRegisters p (step_oam_scan p).0
unfolding step_oam_scan
step_oam_scan_kept p =
    let p' = record p { mode_cycles = p.mode_cycles - 80 } in ground (arith, set_mode_kept p' 3)

step_drawing_kept : (p : Ppu) → SameRegisters p (step_drawing p).0
unfolding step_drawing
step_drawing_kept p =
    let p' = record p { mode_cycles = p.mode_cycles - 172 } in
    ground (arith, set_mode_kept p' 0, render_scanline_kept (set_mode p' 0))

end_line_kept : (p : Ppu) → SameRegisters p (end_line p).0
unfolding end_line
end_line_kept p = ground (arith, set_mode_kept p 1, set_mode_kept p 2)

step_vblank_kept : (p : Ppu) → SameRegisters p (step_vblank p).0
unfolding step_vblank
step_vblank_kept p =
    let p0 = record p { mode_cycles = p.mode_cycles - 456 } in
    let p1 = set_ly p0 (u8 (p.ly + 1)) in
    ground (arith, set_ly_kept p0 (u8 (p.ly + 1)), set_ly_kept p1 0, set_mode_kept (set_ly p1 0) 2)

step_hblank_kept :
    (b : Build) (p : Ppu) (r : Stepped) → step_hblank b p ≡ ok r → SameRegisters p r.0
unfolding step_hblank
step_hblank_kept debug p r e =
    let p0 = record p { mode_cycles = p.mode_cycles - 204 } in
    let n = p.ly + 1 in ground (arith, e, set_ly_kept p0 n, end_line_kept (set_ly p0 n))
step_hblank_kept release p r e =
    let p0 = record p { mode_cycles = p.mode_cycles - 204 } in
    let n = (p.ly + 1) % 256 in ground (arith, e, set_ly_kept p0 n, end_line_kept (set_ly p0 n))

step_mode_kept :
    (b : Build) (mode : ℕ) (p : Ppu) (r : Stepped) → step_mode b mode p ≡ ok r → SameRegisters p r.0
unfolding step_mode
step_mode_kept b zero p r e = step_hblank_kept b p r e
step_mode_kept b (suc zero) p r e = ground (arith, e, step_vblank_kept p)
step_mode_kept b (suc (suc zero)) p r e = ground (arith, e, step_oam_scan_kept p)
step_mode_kept b (suc (suc (suc zero))) p r e = ground (arith, e, step_drawing_kept p)
step_mode_kept b (suc (suc (suc (suc m)))) p r e = ground (arith, e)

-- Whatever the mode, a step that returns leaves VRAM, OAM, the scroll and window registers, LYC and
-- the palettes as they were.
pub step_kept :
    (b : Build) (cycles : ℕ) (p : Ppu) (r : Stepped) → step b cycles p ≡ ok r → SameRegisters p r.0
unfolding step lcd_off
step_kept debug cycles p r e =
    let p0 = record p { prev_lcd_enabled = true; mode_cycles = p.mode_cycles + cycles } in
    ground (arith, e, step_mode_kept debug (bit_and p.stat 3) p0 r)
step_kept release cycles p r e =
    let p0 = record p {
      prev_lcd_enabled = true;
      mode_cycles = (p.mode_cycles + cycles) % 2 ^ 32;
    } in
    ground (arith, e, step_mode_kept release (bit_and p.stat 3) p0 r)

abbrev pub AllBytes : Bytes → Type 0
AllBytes bytes = (i : ℕ) → bytes i < 256

pub record IsVideo (p : Ppu) : Type 0 where
  pub vram_bytes : AllBytes p.vram
  pub oam_bytes : AllBytes p.oam
  pub scy_u8 : p.scy < 256
  pub scx_u8 : p.scx < 256
  pub ly_u8 : p.ly < 256
  pub lyc_u8 : p.lyc < 256
  pub bgp_u8 : p.bgp < 256
  pub obp0_u8 : p.obp0 < 256
  pub obp1_u8 : p.obp1 < 256
  pub wy_u8 : p.wy < 256
  pub wx_u8 : p.wx < 256

timed-ly : (p : Ppu) → IsTimed p → p.ly < 256
timed-ly p v = ground arith

-- With the LCD on or off, in both builds, a step of at most 80 cycles returns and leaves bytes in
-- all registers, in VRAM and in OAM.
pub step-IsVideo :
    (b : Build) (cycles : ℕ) (p : Ppu)
    → IsPpu p
    → IsVideo p
    → cycles ≤ 80
    → (r : Stepped) × (step b cycles p ≡ ok r) × IsPpu r.0 × IsVideo r.0
unfolding lcd_off
step-IsVideo b cycles p v w h =
    let (r, returns, keeps) = step-IsPpu b cycles p v h in (r, returns, keeps, video r returns)
  where
    line : (n : ℕ) (r : Stepped) → p.lcdc / 128 % 2 ≡ n → step b cycles p ≡ ok r → r.0.ly < 256
    line zero r off e = ground (arith, e, step-off b cycles p off)
    line (suc zero) r on e =
        let (r', returns, arrives) = step-Arrives b cycles p (v.timed_on on) on h in
        ground (arith, e, returns, timed-ly r'.0 arrives.timed)
    line (suc (suc n)) r e f = absurd (omega arith)

    video : (r : Stepped) → step b cycles p ≡ ok r → IsVideo r.0
    video r e =
        let same = step_kept b cycles p r e in
        let below = line (p.lcdc / 128 % 2) r refl e in ground arith
