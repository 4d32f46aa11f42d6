-- ===== src/Ppu/Fields.antt =====
-- What the helpers of the mode machine do to the fields that time depends on.
use rust_gb_emulator.Base.{
  ℕ, ◌+◌, ◌*◌, ◌/◌, ◌%◌, ◌<◌, bit_and, bit_or, ◌==◌, if◌then◌else◌, ◌≡◌, refl, arith,
}
use rust_gb_emulator.Base.Masks.{
  every_below, byte_table, bit_and_field, bit_and_ones, bit_or_fields, bit_or_bit,
}
use rust_gb_emulator.Ppu.State.{Ppu, set_mode, set_ly}
use rust_gb_emulator.Ppu.Window.{render_scanline}

-- Everything but STAT, LY and the STAT interrupt is as it was.
pub record SameClock (p q : Ppu) : Type 0 where
  pub mode_cycles : q.mode_cycles ≡ p.mode_cycles
  pub lcdc : q.lcdc ≡ p.lcdc
  pub prev_lcd_enabled : q.prev_lcd_enabled ≡ p.prev_lcd_enabled
  pub vblank_interrupt : q.vblank_interrupt ≡ p.vblank_interrupt

pub mode_bits :
    (s m : ℕ) → s < 256 → m < 4 → bit_or (bit_and s 0xFC) (bit_and m 0x03) ≡ s / 4 * 4 + m
mode_bits s m h k = ground (arith, bit_and_field 2 6 s, bit_and_ones 2 m, bit_or_fields 2 (s / 4) m)

-- `set_mode` changes the two mode bits of STAT alone.
pub set_mode_lem :
    (p : Ppu) (mode : ℕ)
    → p.stat < 256
    → mode < 4
    → ((set_mode p mode).stat ≡ p.stat / 4 * 4 + mode)
      × ((set_mode p mode).ly ≡ p.ly)
      × SameClock p (set_mode p mode)
unfolding set_mode
set_mode_lem p mode h k = ground (arith, mode_bits p.stat mode)

clear_bit2 : (s : ℕ) → s < 256 → bit_and s 0xFB ≡ s / 8 * 8 + s % 4
unfolding every_below
clear_bit2 s h = byte_table (λ v. bit_and v 0xFB) (λ v. v / 8 * 8 + v % 4) s refl h

-- `set_ly` makes bit 2 of STAT the coincidence of LY with LYC, and keeps the other bits.
pub set_ly_lem :
    (p : Ppu) (value : ℕ)
    → p.stat < 256
    → ((set_ly p value).stat ≡ p.stat / 8 * 8 + (if value == p.lyc then 4 else 0) + p.stat % 4)
      × ((set_ly p value).ly ≡ value)
      × SameClock p (set_ly p value)
unfolding set_ly
set_ly_lem p value h = ground (arith, clear_bit2 p.stat, bit_or_bit 2 p.stat)

-- Drawing changes neither STAT nor LY.
pub render_scanline_lem :
    (p : Ppu)
    → ((render_scanline p).stat ≡ p.stat)
      × ((render_scanline p).ly ≡ p.ly)
      × SameClock p (render_scanline p)
unfolding render_scanline
render_scanline_lem p = ground arith
