-- ===== src/Memory.antt =====
-- src/memory.rs: the 16-bit address space, banking, OAM DMA, and the tick of the components.
pub mod IoReset
pub mod Dma
pub mod Tick
pub mod Banks
pub mod Typing
pub mod Writes
pub mod Devices
pub mod PowerOn
mod Examples
use rust_gb_emulator.Base.{
  ℕ, zero, suc, ◌+◌, ◌-◌, ◌*◌, ◌%◌, ◌^◌, bit_and, bit_or, Bool, true, false, not, ◌&&◌, ◌||◌, ltb,
  leb, ◌==◌, within, if◌then◌else◌, u8, u16, ◌<<<◌, ◌>>>◌, Bytes, index_at, set_at, store_at,
  filled, Build, Outcome, ok, ◌>>=◌, fit, minus, List, length,
}
use rust_gb_emulator.Timer
use rust_gb_emulator.Timer.{Timer}
use rust_gb_emulator.Serial
use rust_gb_emulator.Serial.{Serial}
use rust_gb_emulator.Joypad
use rust_gb_emulator.Joypad.{Joypad}
use rust_gb_emulator.Ppu.State.{Ppu}
use rust_gb_emulator.Ppu.State
use rust_gb_emulator.Ppu.Step
use IoReset.{io_reset, byte_at}

pub record Memory : Type 0 where
  pub main_memory : Bytes  -- 0x10000 bytes
  pub rom : Bytes  -- 0x2FFFF bytes
  pub rom_loaded : Bool
  pub current_rom_bank : ℕ
  pub timer : Timer
  pub serial : Serial
  pub ppu : Ppu
  pub joypad : Joypad
  pub dma_active : Bool
  pub dma_cycles_remaining : ℕ  -- u16
  pub dma_source : ℕ  -- u16
  pub suppress_io_side_effects : Bool

-- `rom.buffer.len()`
abbrev pub rom_size : ℕ
rom_size = 0x2FFFF

-- `Memory::new`: the first `rom_size` bytes of the file, and 0 behind its end.
unfoldable pub new : List ℕ → Memory
new rom_buffer = record {
  main_memory = filled 0;
  rom = λ i. if ltb i rom_size then byte_at rom_buffer i else 0;
  rom_loaded = true;
  current_rom_bank = 1;
  timer = Timer.new;
  serial = Serial.new;
  ppu = State.new;
  joypad = Joypad.new;
  dma_active = false;
  dma_cycles_remaining = 0;
  dma_source = 0;
  suppress_io_side_effects = false;
}

-- The offset in the ROM of an address of the switched bank.
unfoldable pub bank_offset : Memory → ℕ → ℕ
bank_offset m address =
    let bank = if m.current_rom_bank == 0 then 1 else m.current_rom_bank in
    bank * 0x4000 + (address - 0x4000)

-- The arrays are indexed with their bounds; `main_memory` has a byte for each address of 16 bits.
unfoldable pub read_8 : Memory → ℕ → ℕ
read_8 m address =
    if address == 0xFF00
    then Joypad.read m.joypad
    else if within 0xFF04 0xFF07 address
    then Timer.read m.timer address
    else if within 0xFF01 0xFF02 address
    then Serial.read m.serial address
    else if within 0xFF40 0xFF4B address
    then State.read m.ppu address
    else if within 0x8000 0x9FFF address
    then index_at 0x2000 m.ppu.vram (address - 0x8000)
    else if within 0xFE00 0xFE9F address
    then index_at 0xA0 m.ppu.oam (address - 0xFE00)
    else if m.rom_loaded && ltb address 0x4000
    then index_at rom_size m.rom address
    else if m.rom_loaded && within 0x4000 0x7FFF address
    then (if ltb (bank_offset m address) rom_size
        then index_at rom_size m.rom (bank_offset m address)
        else 0xFF)
    else m.main_memory address

-- One step of the countdown; `m_cycles as u16` keeps the lower 16 bits.
unfoldable pub tick_dma : ℕ → Memory → Memory
tick_dma m_cycles m =
    let elapsed = u16 m_cycles in
    if m.dma_active
    then (if ltb elapsed m.dma_cycles_remaining
        then record m { dma_cycles_remaining = m.dma_cycles_remaining - elapsed }
        else record m { dma_cycles_remaining = 0; dma_active = false })
    else m

-- `m_cycles * 4` is a product of type u32.
unfoldable pub tick_components : Build → ℕ → Memory → Outcome Memory
tick_components b m_cycles m = do
  timer' ← Timer.tick b (u16 m_cycles) m.timer
  cycles ← fit b 32 (m_cycles * 4)
  stepped ← Step.step b cycles m.ppu
  ok (tick_dma m_cycles (record m { timer = timer'; ppu = stepped.0 }))

-- `address + 1` is a sum of type u16.
unfoldable pub read_16 : Build → Memory → ℕ → Outcome ℕ
read_16 b m address = do
  let x = read_8 m address
  next ← fit b 16 (address + 1)
  ok (bit_or (read_8 m next <<< 8) x)

unfoldable pub write_to_rom_register : Memory → ℕ → ℕ → Memory
write_to_rom_register m address value =
    let bank_number = bit_and value 0b0001_1111 in
    if within 0x2000 0x3FFF address
    then record m { current_rom_bank = if bank_number == 0 then 1 else bank_number }
    else m

unfoldable pub set_oam : Memory → ℕ → ℕ → Memory
set_oam m i v = let p = m.ppu in record m { ppu = record p { oam = store_at 0xA0 p.oam i v } }

-- The loop of the DMA, from index i on with `left` bytes to go. `source + i` does not overflow:
-- the source's lower byte is 0.
unfoldable pub dma_copy : ℕ → ℕ → ℕ → Memory → Memory
dma_copy source zero i m = m
dma_copy source (suc left) i m = dma_copy source left (i + 1) (set_oam m i (read_8 m (source + i)))

unfoldable pub start_dma : Memory → ℕ → Memory
start_dma m value =
    let source = value <<< 8 in
    let m1 = record m { dma_active = true; dma_cycles_remaining = 160; dma_source = source } in
    let m2 = dma_copy source 160 0 m1 in
    record m2 { main_memory = set_at m2.main_memory 0xFF46 value }

unfoldable pub write_vram : Memory → ℕ → ℕ → Memory
write_vram m address value =
    let p = m.ppu in
    if m.dma_active || bit_and p.stat 0x03 == 3
    then m
    else record m { ppu = record p { vram = store_at 0x2000 p.vram (address - 0x8000) value } }

unfoldable pub write_8 : Memory → ℕ → ℕ → Memory
write_8 m address value =
    if m.suppress_io_side_effects
    then record m { main_memory = set_at m.main_memory address value }
    else if address == 0xFF46
    then start_dma m value
    else if address == 0xFF00
    then record m { joypad = Joypad.write m.joypad value }
    else if within 0xFF04 0xFF07 address
    then record m { timer = Timer.write m.timer address value }
    else if within 0xFF01 0xFF02 address
    then record m { serial = Serial.write m.serial address value }
    else if within 0xFF40 0xFF4B address
    then record m { ppu = State.write m.ppu address value }
    else if within 0x8000 0x9FFF address
    then write_vram m address value
    else if within 0xFE00 0xFE9F address
    then (if m.dma_active then m else set_oam m (address - 0xFE00) value)
    else if ltb address 0x8000
    then write_to_rom_register m address value
    else record m { main_memory = set_at m.main_memory address value }

unfoldable pub write_16 : Memory → ℕ → ℕ → Memory
write_16 m address value =
    write_8 (write_8 m address (bit_and value 0xFF)) (u16 (address + 1)) (value >>> 8)

unfoldable pub set_rom : Memory → Bytes → Memory
set_rom m rom = record m { rom = rom; rom_loaded = true; current_rom_bank = 1 }

unfoldable pub init_rom_bank : Memory → Memory
init_rom_bank m = record m { rom_loaded = true; current_rom_bank = 1 }

-- The copy of IO_RESET, from index i on with `left` bytes to go.
unfoldable pub copy_io_reset : ℕ → ℕ → Memory → Memory
copy_io_reset zero i m = m
copy_io_reset (suc left) i m =
    copy_io_reset left (i + 1) (write_8 m (u16 (0xFF00 + i)) (io_reset i))

unfoldable pub init_post_boot_state : Memory → Memory
init_post_boot_state m =
    let m1 = copy_io_reset 0x100 0 (record m { suppress_io_side_effects = true }) in
    let m2 = record m1 { suppress_io_side_effects = false } in
    let m3 = record m2 { joypad = Joypad.set_register_raw m2.joypad (m2.main_memory 0xFF00) } in
    record m3 { main_memory = set_at m3.main_memory 0xFF50 0x01 }
