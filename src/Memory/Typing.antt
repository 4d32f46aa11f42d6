-- ===== src/Memory/Typing.antt =====
-- What a memory holds at any time: bytes in every array and register, and devices that can tick.
use rust_gb_emulator.Base.{ℕ, ◌-◌, ◌<◌, bit_or, true, Bytes, set_at, ◌≡◌, arith}
use rust_gb_emulator.Base.Widths.{bit_or-lt}
use rust_gb_emulator.Timer
use rust_gb_emulator.Timer.{Timer}
use rust_gb_emulator.Timer.Edges.{IsTimer}
use rust_gb_emulator.Serial
use rust_gb_emulator.Serial.{Serial}
use rust_gb_emulator.Joypad
use rust_gb_emulator.Joypad.{Joypad}
use rust_gb_emulator.Joypad.Register.{update_register_lem, visible-lt}
use rust_gb_emulator.Ppu.State
use rust_gb_emulator.Ppu.State.{Ppu}
use rust_gb_emulator.Ppu.Frames.{IsPpu}
use rust_gb_emulator.Ppu.Kept.{AllBytes, IsVideo}
use rust_gb_emulator.Memory.{Memory, read_8, bank_offset}

pub record IsBus (m : Memory) : Type 0 where
  pub ram_bytes : AllBytes m.main_memory
  pub rom_bytes : AllBytes m.rom
  pub timer_ok : IsTimer m.timer
  pub ppu_ok : IsPpu m.ppu
  pub video_ok : IsVideo m.ppu
  pub sb_u8 : m.serial.sb < 256
  pub sc_u8 : m.serial.sc < 256
  pub p1_u8 : m.joypad.register < 256
  pub dma_left : m.dma_active ≡ true → 0 < m.dma_cycles_remaining
  pub dma_u16 : m.dma_cycles_remaining < 65536

pub set_at-AllBytes : (f : Bytes) (i v : ℕ) → AllBytes f → v < 256 → AllBytes (set_at f i v)
set_at-AllBytes f i v h k j = ground (arith, h j)

pub update_register-lt : (j : Joypad) → j.register < 256 → (Joypad.update_register j).register < 256
update_register-lt j h = rw (update_register_lem j h) (visible-lt j.register j.buttons)

or_byte : (a k : ℕ) → a < 256 → k < 256 → bit_or a k < 256
or_byte a k h g = bit_or-lt 8 a k h g

-- Reads, device by device.
timer-read-lt : (t : Timer) (address : ℕ) → IsTimer t → Timer.read t address < 256
unfolding Timer.read
timer-read-lt t address v = ground (arith, or_byte t.tac 0xF8)

serial-read-lt : (s : Serial) (address : ℕ) → s.sb < 256 → s.sc < 256 → Serial.read s address < 256
unfolding Serial.read
serial-read-lt s address h k = ground (arith, or_byte s.sc 0x7E)

video-read-lt : (p : Ppu) (address : ℕ) → IsPpu p → IsVideo p → State.read p address < 256
unfolding State.read
video-read-lt p address v w = ground arith

-- In a well-formed memory every read of every address gives a byte. A read of the video memory, the
-- OAM or the ROM past the end of its array gives none, so no read panics there.
pub read_8-lt : (m : Memory) (address : ℕ) → IsBus m → read_8 m address < 256
unfolding read_8 Joypad.read
read_8-lt m address v = ground (
  arith,
  timer-read-lt m.timer address,
  serial-read-lt m.serial address,
  video-read-lt m.ppu address,
  v.video_ok.vram_bytes (address - 0x8000),
  v.video_ok.oam_bytes (address - 0xFE00),
  v.rom_bytes address,
  v.rom_bytes (bank_offset m address),
  v.ram_bytes address,
)
