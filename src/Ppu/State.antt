-- ===== src/Ppu/State.antt =====
-- src/ppu.rs: the state of the picture unit, its constants, registers and palettes.
use rust_gb_emulator.Base.{
  ℕ, bit_and, bit_or, Bool, true, false, ◌&&◌, ◌==◌, ◌!=◌, if◌then◌else◌, inverted, Bytes, filled,
}

pub record Ppu : Type 0 where
  pub vram : Bytes  -- 0x2000 bytes
  pub oam : Bytes  -- 0xA0 bytes
  pub lcdc : ℕ
  pub stat : ℕ
  pub scy : ℕ
  pub scx : ℕ
  pub ly : ℕ
  pub lyc : ℕ
  pub bgp : ℕ
  pub obp0 : ℕ
  pub obp1 : ℕ
  pub wy : ℕ
  pub wx : ℕ
  pub framebuffer : Bytes  -- 160 * 144 * 3 bytes
  pub bg_color_index : Bytes  -- 160 * 144 bytes
  pub mode_cycles : ℕ  -- u32
  pub vblank_interrupt : Bool
  pub stat_interrupt : Bool
  pub window_line_counter : ℕ
  pub prev_lcd_enabled : Bool

abbrev pub mode_hblank : ℕ
mode_hblank = 0

abbrev pub mode_vblank : ℕ
mode_vblank = 1

abbrev pub mode_oam_scan : ℕ
mode_oam_scan = 2

abbrev pub mode_drawing : ℕ
mode_drawing = 3

abbrev pub lcdc_lcd_enable : ℕ
lcdc_lcd_enable = 0b10000000

abbrev pub lcdc_window_enable : ℕ
lcdc_window_enable = 0b00100000

abbrev pub lcdc_window_tilemap : ℕ
lcdc_window_tilemap = 0b01000000

abbrev pub lcdc_bg_tilemap : ℕ
lcdc_bg_tilemap = 0b00001000

abbrev pub lcdc_bg_window_tiles : ℕ
lcdc_bg_window_tiles = 0b00010000

abbrev pub lcdc_bg_enable : ℕ
lcdc_bg_enable = 0b00000001

abbrev pub lcdc_obj_size : ℕ
lcdc_obj_size = 0b00000100

abbrev pub stat_mode_mask : ℕ
stat_mode_mask = 0b00000011

abbrev pub oam_scan_cycles : ℕ
oam_scan_cycles = 80

abbrev pub drawing_cycles : ℕ
drawing_cycles = 172

abbrev pub hblank_cycles : ℕ
hblank_cycles = 204

abbrev pub scanline_cycles : ℕ
scanline_cycles = 456

unfoldable pub new : Ppu
new = record {
  vram = filled 0;
  oam = filled 0;
  lcdc = 0x91;
  stat = 0x02;
  scy = 0;
  scx = 0;
  ly = 0;
  lyc = 0;
  bgp = 0xFC;
  obp0 = 0xFF;
  obp1 = 0xFF;
  wy = 0;
  wx = 0;
  framebuffer = filled 0;
  bg_color_index = filled 0;
  mode_cycles = 0;
  vblank_interrupt = false;
  stat_interrupt = false;
  window_line_counter = 0;
  prev_lcd_enabled = true;
}

-- The interrupt that STAT asks for on entry into a mode.
unfoldable pub mode_interrupt : ℕ → ℕ → Bool
mode_interrupt mode stat =
    if mode == mode_hblank
    then bit_and stat 0x08 != 0
    else if mode == mode_vblank
    then bit_and stat 0x10 != 0
    else if mode == mode_oam_scan
    then bit_and stat 0x20 != 0
    else false

unfoldable pub set_mode : Ppu → ℕ → Ppu
unfolding mode_interrupt
set_mode p mode =
    let old_mode = bit_and p.stat stat_mode_mask in
    let stat' = bit_or (bit_and p.stat (inverted stat_mode_mask)) (bit_and mode stat_mode_mask) in
    let p' = record p { stat = stat' } in
    if mode_interrupt mode stat' && old_mode != mode
    then record p' { stat_interrupt = true }
    else p'

unfoldable pub set_ly : Ppu → ℕ → Ppu
set_ly p value =
    let p' = record p { ly = value } in
    if value == p.lyc
    then (let stat' = bit_or p.stat 0x04 in
        if bit_and stat' 0x40 != 0
        then record p' { stat = stat'; stat_interrupt = true }
        else record p' { stat = stat' })
    else record p' { stat = bit_and p.stat (inverted 0x04) }

unfoldable pub read : Ppu → ℕ → ℕ
read p address =
    if address == 0xFF40
    then p.lcdc
    else if address == 0xFF41
    then p.stat
    else if address == 0xFF42
    then p.scy
    else if address == 0xFF43
    then p.scx
    else if address == 0xFF44
    then p.ly
    else if address == 0xFF45
    then p.lyc
    else if address == 0xFF47
    then p.bgp
    else if address == 0xFF48
    then p.obp0
    else if address == 0xFF49
    then p.obp1
    else if address == 0xFF4A
    then p.wy
    else if address == 0xFF4B
    then p.wx
    else 0xFF

write_lcdc : Ppu → ℕ → Ppu
write_lcdc p value =
    let lcd_was_off = bit_and p.lcdc lcdc_lcd_enable == 0 in
    let p' = record p { lcdc = value } in
    let lcd_is_on = bit_and value lcdc_lcd_enable != 0 in
    if lcd_was_off && lcd_is_on
    then set_mode (record p' { ly = 0; mode_cycles = 0 }) mode_oam_scan
    else p'

-- LY and 0xFF46 take no write here.
unfoldable pub write : Ppu → ℕ → ℕ → Ppu
unfolding write_lcdc
write p address value =
    if address == 0xFF40
    then write_lcdc p value
    else if address == 0xFF41
    then record p { stat = bit_or (bit_and p.stat 0x07) (bit_and value 0xF8) }
    else if address == 0xFF42
    then record p { scy = value }
    else if address == 0xFF43
    then record p { scx = value }
    else if address == 0xFF44
    then p
    else if address == 0xFF45
    then record p { lyc = value }
    else if address == 0xFF47
    then record p { bgp = value }
    else if address == 0xFF48
    then record p { obp0 = value }
    else if address == 0xFF49
    then record p { obp1 = value }
    else if address == 0xFF4A
    then record p { wy = value }
    else if address == 0xFF4B
    then record p { wx = value }
    else p

unfoldable pub frame_ready : Ppu → Bool
frame_ready p = p.vblank_interrupt

unfoldable pub get_framebuffer : Ppu → Bytes
get_framebuffer p = p.framebuffer
