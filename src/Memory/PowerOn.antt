-- ===== src/Memory/PowerOn.antt =====
-- The memory at power-on is well formed.
use rust_gb_emulator.Base.{
  ℕ, zero, suc, ◌+◌, ◌<◌, ◌≤◌, Bool, true, false, ltb, u16, refl, arith, ltb→lt, List, set_at,
}
use rust_gb_emulator.Base.Masks.{every_below, every_below_lem}
use rust_gb_emulator.Timer
use rust_gb_emulator.Serial
use rust_gb_emulator.Joypad
use rust_gb_emulator.Ppu.State
use rust_gb_emulator.Ppu.State.{Ppu}
use rust_gb_emulator.Ppu.Frames.{IsPpu}
use rust_gb_emulator.Ppu.Kept.{AllBytes, IsVideo}
use rust_gb_emulator.Memory
use rust_gb_emulator.Memory.{
  Memory, write_8, copy_io_reset, init_rom_bank, init_post_boot_state, rom_size,
}
use rust_gb_emulator.Memory.IoReset.{io_reset, byte_at}
use rust_gb_emulator.Memory.Typing.{IsBus, set_at-AllBytes, update_register-lt}
use rust_gb_emulator.Memory.Writes.{write_8-IsBus, ram-IsBus}

new-IsVideo : IsVideo State.new
unfolding State.new
new-IsVideo = ground arith

new-IsPpu : IsPpu State.new
unfolding State.new
new-IsPpu = ground arith

pub new-IsBus :
    (rom_buffer : List ℕ) → AllBytes (byte_at rom_buffer) → IsBus (Memory.new rom_buffer)
unfolding Memory.new Timer.new Serial.new Joypad.new
new-IsBus rom_buffer h = record {
  ram_bytes = λ i. omega arith;
  rom_bytes = λ i. ground (arith, h i);
  timer_ok = ground arith;
  ppu_ok = new-IsPpu;
  video_ok = new-IsVideo;
  sb_u8 = omega arith;
  sc_u8 = omega arith;
  p1_u8 = omega arith;
  dma_left = λ e. cc;
  dma_u16 = omega arith;
}

io_reset-lt : (i : ℕ) → i < 256 → io_reset i < 256
unfolding every_below io_reset
io_reset-lt i h = ltb→lt (io_reset i) 256 (every_below_lem 256 (λ n. ltb (io_reset n) 256) i refl h)

copy_io_reset-IsBus :
    (left i : ℕ) (m : Memory) → i + left ≤ 256 → IsBus m → IsBus (copy_io_reset left i m)
unfolding copy_io_reset
copy_io_reset-IsBus zero i m h v = v
copy_io_reset-IsBus (suc left) i m h v =
    copy_io_reset-IsBus left (i + 1) (write_8 m (u16 (0xFF00 + i)) (io_reset i)) (omega arith)
      (write_8-IsBus m (u16 (0xFF00 + i)) (io_reset i) v (io_reset-lt i (omega arith)))

suppress-IsBus :
    (m : Memory) (on : Bool) → IsBus m → IsBus (record m { suppress_io_side_effects = on })
suppress-IsBus m on v = ground arith

pub joypad-IsBus :
    (m : Memory) (j : Joypad.Joypad) → IsBus m → j.register < 256 → IsBus (record m { joypad = j })
joypad-IsBus m j v h = ground arith

pub init_post_boot_state-IsBus : (m : Memory) → IsBus m → IsBus (init_post_boot_state m)
unfolding init_post_boot_state Joypad.set_register_raw
init_post_boot_state-IsBus m v =
    let m0 : Memory = record m { suppress_io_side_effects = true } in
    let m1 = copy_io_reset 0x100 0 m0 in
    let m2 : Memory = record m1 { suppress_io_side_effects = false } in
    let j0 : Joypad.Joypad = let j = m2.joypad in record j { register = m2.main_memory 0xFF00 } in
    let m3 : Memory = record m2 { joypad = Joypad.update_register j0 } in
    let v2 : IsBus m2 =
      suppress-IsBus m1 false
        (copy_io_reset-IsBus 0x100 0 m0 (omega arith) (suppress-IsBus m true v)) in
    let v3 : IsBus m3 =
      joypad-IsBus m2 (Joypad.update_register j0) v2
        (update_register-lt j0 (v2.ram_bytes 0xFF00)) in
    ram-IsBus m3 (set_at m3.main_memory 0xFF50 0x01) v3
      (set_at-AllBytes m3.main_memory 0xFF50 0x01 v3.ram_bytes (omega arith))

pub init_rom_bank-IsBus : (m : Memory) → IsBus m → IsBus (init_rom_bank m)
unfolding init_rom_bank
init_rom_bank-IsBus m v = ground arith
