-- ===== src/Memory/Writes.antt =====
-- Writes on the bus, and the tick, keep a memory well formed.
use rust_gb_emulator.Base.{
  ℕ, zero, suc, ◌+◌, ◌-◌, ◌<◌, bit_and, bit_or, Bool, true, false, if◌then◌else◌, ltb, ◌==◌, within,
  ◌>>>◌, ◌<<<◌, u16, Bytes, set_at, store_at, refl, ◌≡◌, ◌≤◌, ◌||◌, arith,
}
use rust_gb_emulator.Base.Masks.{bit_and_ones}
use rust_gb_emulator.Base.Widths.{bit_and-lt, bit_or-lt}
use rust_gb_emulator.Timer.Registers.{operations-IsTimer}
use rust_gb_emulator.Serial
use rust_gb_emulator.Serial.{Serial}
use rust_gb_emulator.Joypad
use rust_gb_emulator.Joypad.{Joypad}
use rust_gb_emulator.Ppu.State
use rust_gb_emulator.Ppu.State.{Ppu, set_mode}
use rust_gb_emulator.Ppu.Frames.{IsPpu, write-IsPpu}
use rust_gb_emulator.Ppu.Kept.{AllBytes, IsVideo}
use rust_gb_emulator.Memory.{
  Memory, read_8, write_8, write_16, set_oam, dma_copy, start_dma, write_vram,
  write_to_rom_register,
}
use rust_gb_emulator.Memory.Typing.{IsBus, set_at-AllBytes, update_register-lt, read_8-lt}

-- Each part of a memory may be replaced by a well-formed one.
pub ram-IsBus :
    (m : Memory) (ram : Bytes) → IsBus m → AllBytes ram → IsBus (record m { main_memory = ram })
ram-IsBus m ram v h = ground arith

ppu_replaced-IsBus :
    (m : Memory) (p : Ppu) → IsBus m → IsPpu p → IsVideo p → IsBus (record m { ppu = p })
ppu_replaced-IsBus m p v h k = ground arith

store-IsBus :
    (m : Memory) (address value : ℕ)
    → IsBus m
    → value < 256
    → IsBus (record m { main_memory = set_at m.main_memory address value })
store-IsBus m address value v h =
    ram-IsBus m (set_at m.main_memory address value) v
      (set_at-AllBytes m.main_memory address value v.ram_bytes h)

oam-IsPpu : (p : Ppu) (oam : Bytes) → IsPpu p → IsPpu (record p { oam = oam })
oam-IsPpu p oam v = ground arith

oam-IsVideo : (p : Ppu) (oam : Bytes) → IsVideo p → AllBytes oam → IsVideo (record p { oam = oam })
oam-IsVideo p oam v h = ground arith

either-IsBus : (test : Bool) (x y : Memory) → IsBus x → IsBus y → IsBus (if test then x else y)
either-IsBus true x y v w = v
either-IsBus false x y v w = w

where-IsBus :
    (test : Bool) (x y : Memory) → (test ≡ true → IsBus x) → IsBus y → IsBus (if test then x else y)
where-IsBus true x y v w = v refl
where-IsBus false x y v w = w

store_at-AllBytes :
    (size : ℕ) (bytes : Bytes) (i value : ℕ)
    → AllBytes bytes
    → value < 256
    → i < size
    → AllBytes (store_at size bytes i value)
store_at-AllBytes size bytes i value h k inside =
    let here : ltb i size ≡ true = ground arith in rw here (set_at-AllBytes bytes i value h k)

vram-IsPpu : (p : Ppu) (vram : Bytes) → IsPpu p → IsPpu (record p { vram = vram })
vram-IsPpu p vram v = ground arith

vram-IsVideo :
    (p : Ppu) (vram : Bytes) → IsVideo p → AllBytes vram → IsVideo (record p { vram = vram })
vram-IsVideo p vram v h = ground arith

set_oam-IsBus :
    (m : Memory) (i value : ℕ) → IsBus m → value < 256 → i < 0xA0 → IsBus (set_oam m i value)
unfolding set_oam
set_oam-IsBus m i value v h inside =
    let p = m.ppu in
    let oam = store_at 0xA0 p.oam i value in
    ppu_replaced-IsBus m (record p { oam = oam }) v (oam-IsPpu p oam v.ppu_ok)
      (oam-IsVideo p oam v.video_ok
        (store_at-AllBytes 0xA0 p.oam i value v.video_ok.oam_bytes h inside))

dma_copy-IsBus :
    (source left i : ℕ) (m : Memory) → IsBus m → i + left ≤ 0xA0 → IsBus (dma_copy source left i m)
unfolding dma_copy
dma_copy-IsBus source zero i m v fits = v
dma_copy-IsBus source (suc left) i m v fits =
    dma_copy-IsBus source left (i + 1) (set_oam m i (read_8 m (source + i)))
      (set_oam-IsBus m i (read_8 m (source + i)) v (read_8-lt m (source + i) v) (omega arith))
      (omega arith)

start_dma-IsBus : (m : Memory) (value : ℕ) → IsBus m → value < 256 → IsBus (start_dma m value)
unfolding start_dma
start_dma-IsBus m value v h =
    let source = value <<< 8 in
    let m1 : Memory = record m {
      dma_active = true;
      dma_cycles_remaining = 160;
      dma_source = source;
    } in
    let v1 : IsBus m1 = ground arith in
    store-IsBus (dma_copy source 160 0 m1) 0xFF46 value
      (dma_copy-IsBus source 160 0 m1 v1 (omega arith)) h

write_vram-IsBus :
    (m : Memory) (address value : ℕ)
    → IsBus m
    → value < 256
    → within 0x8000 0x9FFF address ≡ true
    → IsBus (write_vram m address value)
unfolding write_vram
write_vram-IsBus m address value v h inside =
    let place = address - 0x8000 in
    let fits : place < 0x2000 = ground arith in
    let p = m.ppu in
    let vram = store_at 0x2000 p.vram place value in
    either-IsBus (m.dma_active || bit_and p.stat 0x03 == 3) m
      (record m { ppu = record p { vram = vram } }) v
      (ppu_replaced-IsBus m (record p { vram = vram }) v (vram-IsPpu p vram v.ppu_ok)
        (vram-IsVideo p vram v.video_ok
          (store_at-AllBytes 0x2000 p.vram place value v.video_ok.vram_bytes h fits)))

set_mode-IsVideo : (p : Ppu) (mode : ℕ) → IsVideo p → IsVideo (set_mode p mode)
unfolding set_mode
set_mode-IsVideo p mode v = ground arith

write-IsVideo :
    (p : Ppu) (address value : ℕ) → IsVideo p → value < 256 → IsVideo (State.write p address value)
unfolding State.write
write-IsVideo p address value v h =
    let p0 = record p { lcdc = value; ly = 0; mode_cycles = 0 } in
    let v0 : IsVideo p0 = ground arith in ground (arith, set_mode-IsVideo p0 2 v0)

serial-write-bytes :
    (s : Serial) (address value : ℕ)
    → s.sb < 256
    → s.sc < 256
    → value < 256
    → ((Serial.write s address value).sb < 256) × ((Serial.write s address value).sc < 256)
unfolding Serial.write
serial-write-bytes s address value h k l =
    ground (arith, bit_or-lt 8 (bit_and value 0x81) 0x7E (bit_and-lt 8 value 0x81 l))

joypad-write-lt :
    (j : Joypad) (value : ℕ)
    → j.register < 256
    → value < 256
    → (Joypad.write j value).register < 256
unfolding Joypad.write
joypad-write-lt j value h k =
    update_register-lt
      (record j { register = bit_or (bit_and j.register 0xC0) (bit_and value 0x30) })
      (bit_or-lt 8 (bit_and j.register 0xC0) (bit_and value 0x30) (bit_and-lt 8 j.register 0xC0 h)
        (bit_and-lt 8 value 0x30 k))

-- A write of a byte to any address keeps a memory well formed, which a write past the end of the
-- video memory or the OAM, one of a DMA too, would not.
pub write_8-IsBus :
    (m : Memory) (address value : ℕ) → IsBus m → value < 256 → IsBus (write_8 m address value)
unfolding write_8 write_to_rom_register
write_8-IsBus m address value v h =
    let stored = store-IsBus m address value v h in
    let t = (operations-IsTimer m.timer 0 address value v.timer_ok h).2 in
    let j = joypad-write-lt m.joypad value v.p1_u8 h in
    let s = serial-write-bytes m.serial address value v.sb_u8 v.sc_u8 h in
    let p = (write-IsPpu m.ppu address value v.ppu_ok h).1 in
    let w = write-IsVideo m.ppu address value v.video_ok h in
    either-IsBus m.suppress_io_side_effects _ _ stored (
      either-IsBus (address == 0xFF46) _ _ (start_dma-IsBus m value v h) (
        either-IsBus (address == 0xFF00) _ _ (ground (arith, j)) (
          either-IsBus (within 0xFF04 0xFF07 address) _ _ (ground (arith, t)) (
            either-IsBus (within 0xFF01 0xFF02 address) _ _ (ground (arith, s)) (
              either-IsBus (within 0xFF40 0xFF4B address) _ _
                (ppu_replaced-IsBus m (State.write m.ppu address value) v p w)
                (where-IsBus (within 0x8000 0x9FFF address) _ _
                  (write_vram-IsBus m address value v h)
                  (where-IsBus (within 0xFE00 0xFE9F address) _ _
                    (λ inside.
                      either-IsBus m.dma_active _ _ v
                        (set_oam-IsBus m (address - 0xFE00) value v h (ground arith)))
                    (either-IsBus (ltb address 0x8000) _ _ (ground arith) stored))))))))

pub write_16-IsBus :
    (m : Memory) (address value : ℕ) → IsBus m → value < 65536 → IsBus (write_16 m address value)
unfolding write_16
write_16-IsBus m address value v h =
    let low : bit_and value 0xFF < 256 = omega (arith, bit_and_ones 8 value) in
    write_8-IsBus (write_8 m address (bit_and value 0xFF)) (u16 (address + 1)) (value >>> 8)
      (write_8-IsBus m address (bit_and value 0xFF) v low) (omega arith)
