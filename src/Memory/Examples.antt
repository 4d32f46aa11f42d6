-- ===== src/Memory/Examples.antt =====
-- The bus's theorems at concrete memories.
use rust_gb_emulator.Memory.PowerOn.{new-IsBus}
use rust_gb_emulator.Memory.Typing.{IsBus, read_8-lt}
use rust_gb_emulator.Memory.Writes.{write_8-IsBus}
use rust_gb_emulator.Base.{ℕ, zero, suc, ◌<◌}
use rust_gb_emulator.Base.{◌≡◌, refl, arith, true, false, [], ◌∷◌, filled}
use rust_gb_emulator.Memory
use rust_gb_emulator.Timer
use rust_gb_emulator.Timer.Edges.{IsTimer}
use rust_gb_emulator.Ppu.State
use rust_gb_emulator.Serial
use rust_gb_emulator.Joypad
use rust_gb_emulator.Memory.IoReset.{byte_at}
use rust_gb_emulator.Ppu.State.{Ppu}
use rust_gb_emulator.Ppu.Frames.{IsPpu}
use rust_gb_emulator.Memory.{Memory, read_8, write_8, tick_components}
use rust_gb_emulator.Memory.Dma.{write_8-dma_copy}
use rust_gb_emulator.Memory.Banks.{read_8-write_8_bank, write_8-rom}
use rust_gb_emulator.Memory.Tick.{IsTicking}

-- A ROM of four bytes in its first bank.
abbrev small : Memory
small = record {
  main_memory = filled 0;
  rom = byte_at (0x31 ∷ 0xFE ∷ 0xFF ∷ 0xAF ∷ []);
  rom_loaded = true;
  current_rom_bank = 1;
  timer = Timer.new;
  serial = Serial.new;
  ppu = State.new;
  joypad = Joypad.new;
  dma_active = false;
  dma_cycles_remaining = 0;
  dma_source = 0;
  suppress_io_side_effects = false;
}

-- The same during a DMA, 3 cycles before its end.
abbrev copying : Memory
copying = record small { dma_active = true; dma_cycles_remaining = 3 }

write_8-dma_copy_example :
    ((write_8 small 0xFF46 0).ppu.oam 3 ≡ read_8 small 3)
    × ((write_8 small 0xFF46 0).dma_active ≡ true)
    × ((write_8 small 0xFF46 0).dma_cycles_remaining ≡ 160)
    × ((write_8 small 0xFF46 0).timer ≡ small.timer)
    × ((write_8 small 0xFF46 0).serial ≡ small.serial)
    × ((write_8 small 0xFF46 0).joypad ≡ small.joypad)
    × ((write_8 small 0xFF46 0).rom ≡ small.rom)
    × ((write_8 small 0xFF46 0).ppu.vram ≡ small.ppu.vram)
write_8-dma_copy_example = write_8-dma_copy small 0 3 refl (omega arith)

fresh_clock-IsTimer : IsTimer Timer.new
unfolding Timer.new
fresh_clock-IsTimer = ground arith

fresh_picture-IsPpu : IsPpu State.new
unfolding State.new
fresh_picture-IsPpu = ground arith

abbrev copying-IsTicking : IsTicking copying
copying-IsTicking = record {
  timer_ok = fresh_clock-IsTimer;
  ppu_ok = fresh_picture-IsPpu;
  dma_left = λ h. omega arith;
  dma_u16 = omega arith;
}

read_8-write_8_bank_example :
    (read_8 (write_8 small 0x2100 0x23) 0x4005 ≡ small.rom 0xC005)
    × (read_8 (write_8 small 0x2100 0x23) 5 ≡ small.rom 5)
read_8-write_8_bank_example =
    read_8-write_8_bank small 0x2100 0x23 5 refl refl (omega arith) (omega arith) (omega arith)

write_8-rom_example : (write_8 small 0x0001 0xFF).rom ≡ small.rom
write_8-rom_example = write_8-rom small 0x0001 0xFF

-- A memory of the same ROM.
small_rom_bytes : (i : ℕ) → byte_at (0x31 ∷ 0xFE ∷ 0xFF ∷ 0xAF ∷ []) i < 256
small_rom_bytes zero = omega arith
small_rom_bytes (suc zero) = omega arith
small_rom_bytes (suc (suc zero)) = omega arith
small_rom_bytes (suc (suc (suc zero))) = omega arith
small_rom_bytes (suc (suc (suc (suc i)))) = omega arith

abbrev loaded : Memory
loaded = Memory.new (0x31 ∷ 0xFE ∷ 0xFF ∷ 0xAF ∷ [])

loaded-IsBus : IsBus loaded
loaded-IsBus = new-IsBus (0x31 ∷ 0xFE ∷ 0xFF ∷ 0xAF ∷ []) small_rom_bytes

-- The start of a DMA.
write_8-IsBus_example : IsBus (write_8 loaded 0xFF46 0xC0)
write_8-IsBus_example = write_8-IsBus loaded 0xFF46 0xC0 loaded-IsBus (omega arith)

read_8-lt_example : read_8 loaded 0xFF0F < 256
read_8-lt_example = read_8-lt loaded 0xFF0F loaded-IsBus
