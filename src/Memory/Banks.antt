-- ===== src/Memory/Banks.antt =====
-- The ROM: its banks, and that the bus never changes it.
use rust_gb_emulator.Base.{
  out_of_bounds, ℕ, ◌+◌, ◌-◌, ◌*◌, ◌%◌, ◌<◌, ◌≤◌, Bool, true, false, ltb, ◌==◌, within,
  if◌then◌else◌, ◌≡◌, refl, arith, ◌∙◌, ap, Bytes, ◌<<<◌,
}
use rust_gb_emulator.Base.Masks.{bit_and_ones}
use rust_gb_emulator.Memory.{
  Memory, rom_size, read_8, write_8, bank_offset, write_to_rom_register, set_oam, start_dma,
  write_vram,
}
use rust_gb_emulator.Memory.Dma.{dma_copy-rest}

-- The bank that a number written to the register selects: its lower five bits, and 1 for 0.
abbrev pub selected : ℕ → ℕ
selected value = if value % 32 == 0 then 1 else value % 32

write_8-register :
    (m : Memory) (address value : ℕ)
    → m.suppress_io_side_effects ≡ false
    → 0x2000 ≤ address
    → address < 0x4000
    → write_8 m address value ≡ record m { current_rom_bank = selected value }
unfolding write_8 write_to_rom_register
write_8-register m address value plain low high =
    simp
      (
        plain,
        not_dma,
        not_joypad,
        not_timer,
        not_serial,
        not_ppu,
        not_vram,
        not_oam,
        rom,
        register,
        bit_and_ones 5 value,
      )
      refl
  where
    not_dma : (address == 0xFF46) ≡ false
    not_dma = ground arith

    not_joypad : (address == 0xFF00) ≡ false
    not_joypad = ground arith

    not_timer : within 0xFF04 0xFF07 address ≡ false
    not_timer = ground arith

    not_serial : within 0xFF01 0xFF02 address ≡ false
    not_serial = ground arith

    not_ppu : within 0xFF40 0xFF4B address ≡ false
    not_ppu = ground arith

    not_vram : within 0x8000 0x9FFF address ≡ false
    not_vram = ground arith

    not_oam : within 0xFE00 0xFE9F address ≡ false
    not_oam = ground arith

    rom : ltb address 0x8000 ≡ true
    rom = ground arith

    register : within 0x2000 0x3FFF address ≡ true
    register = ground arith

read_8-switched :
    (m : Memory) (i : ℕ)
    → m.rom_loaded ≡ true
    → i < 0x4000
    → (m.current_rom_bank == 0) ≡ false
    → read_8 m (0x4000 + i) ≡ (
        if ltb (m.current_rom_bank * 0x4000 + i) rom_size
        then m.rom (m.current_rom_bank * 0x4000 + i)
        else 0xFF)
unfolding read_8 bank_offset
read_8-switched m i loaded below some =
    simp
      (
        not_joypad, not_timer, not_serial, not_ppu, not_vram, not_oam, loaded, not_first, second,
        some, offset,
      )
      (tested_twice (ltb (m.current_rom_bank * 0x4000 + i) rom_size)
        (m.rom (m.current_rom_bank * 0x4000 + i)))
  where
    tested_twice :
        (test : Bool) (byte : ℕ)
        → (if test then if test then byte else out_of_bounds else 0xFF)
          ≡ (if test then byte else 0xFF)
    tested_twice true byte = refl
    tested_twice false byte = refl

    not_joypad : ((0x4000 + i) == 0xFF00) ≡ false
    not_joypad = ground arith

    not_timer : within 0xFF04 0xFF07 (0x4000 + i) ≡ false
    not_timer = ground arith

    not_serial : within 0xFF01 0xFF02 (0x4000 + i) ≡ false
    not_serial = ground arith

    not_ppu : within 0xFF40 0xFF4B (0x4000 + i) ≡ false
    not_ppu = ground arith

    not_vram : within 0x8000 0x9FFF (0x4000 + i) ≡ false
    not_vram = ground arith

    not_oam : within 0xFE00 0xFE9F (0x4000 + i) ≡ false
    not_oam = ground arith

    not_first : ltb (0x4000 + i) 0x4000 ≡ false
    not_first = ground arith

    second : within 0x4000 0x7FFF (0x4000 + i) ≡ true
    second = ground arith

    offset : 0x4000 + i - 0x4000 ≡ i
    offset = omega arith

read_8-fixed : (m : Memory) (i : ℕ) → m.rom_loaded ≡ true → i < 0x4000 → read_8 m i ≡ m.rom i
unfolding read_8
read_8-fixed m i loaded below =
    simp (not_joypad, not_timer, not_serial, not_ppu, not_vram, not_oam, loaded, first, in_rom) refl
  where
    in_rom : ltb i rom_size ≡ true
    in_rom = ground arith

    not_joypad : (i == 0xFF00) ≡ false
    not_joypad = ground arith

    not_timer : within 0xFF04 0xFF07 i ≡ false
    not_timer = ground arith

    not_serial : within 0xFF01 0xFF02 i ≡ false
    not_serial = ground arith

    not_ppu : within 0xFF40 0xFF4B i ≡ false
    not_ppu = ground arith

    not_vram : within 0x8000 0x9FFF i ≡ false
    not_vram = ground arith

    not_oam : within 0xFE00 0xFE9F i ≡ false
    not_oam = ground arith

    first : ltb i 0x4000 ≡ true
    first = ground arith

selected-some : (value : ℕ) → (selected value == 0) ≡ false
selected-some value = ground arith

-- While side effects are not suppressed and a ROM is loaded, a write to 0x2000..0x3FFF selects the
-- bank of the value's lower five bits, 1 for 0: a read of 0x4000..0x7FFF then gives that bank's
-- byte of the ROM, or 0xFF behind the ROM's end, and a read of 0x0000..0x3FFF that of the first
-- bank, whatever bank was selected before.
pub read_8-write_8_bank :
    (m : Memory) (address value i : ℕ)
    → m.suppress_io_side_effects ≡ false
    → m.rom_loaded ≡ true
    → 0x2000 ≤ address
    → address < 0x4000
    → i < 0x4000
    → (read_8 (write_8 m address value) (0x4000 + i) ≡ (
        if ltb (selected value * 0x4000 + i) rom_size
        then m.rom (selected value * 0x4000 + i)
        else 0xFF))
      × (read_8 (write_8 m address value) i ≡ m.rom i)
read_8-write_8_bank m address value i plain loaded low high below =
    let m1 : Memory = record m { current_rom_bank = selected value } in
    let written = write_8-register m address value plain low high in
    (
      ap (λ (x : Memory). read_8 x (0x4000 + i)) written
          ∙ read_8-switched m1 i loaded below (selected-some value),
      ap (λ (x : Memory). read_8 x i) written ∙ read_8-fixed m1 i loaded below,
    )

-- A choice between two memories with the same ROM.
if_rom :
    (test : Bool) (x y : Memory) (r : Bytes)
    → x.rom ≡ r
    → y.rom ≡ r
    → (if test then x else y).rom ≡ r
if_rom true x y r e f = e
if_rom false x y r e f = f

start_dma-rom : (m : Memory) (value : ℕ) → (start_dma m value).rom ≡ m.rom
unfolding start_dma
start_dma-rom m value =
    let m1 : Memory = record m {
      dma_active = true;
      dma_cycles_remaining = 160;
      dma_source = value <<< 8;
    } in
    ap (λ (x : Memory). x.rom) (dma_copy-rest 160 (value <<< 8) 0 m1)

-- No write on the bus, of any value to any address, changes the ROM.
pub write_8-rom : (m : Memory) (address value : ℕ) → (write_8 m address value).rom ≡ m.rom
unfolding write_8 write_vram set_oam write_to_rom_register
write_8-rom m address value = if_rom m.suppress_io_side_effects _ _ m.rom refl (
    if_rom (address == 0xFF46) _ _ m.rom (start_dma-rom m value) (
      if_rom (address == 0xFF00) _ _ m.rom refl (
        if_rom (within 0xFF04 0xFF07 address) _ _ m.rom refl (
          if_rom (within 0xFF01 0xFF02 address) _ _ m.rom refl (
            if_rom (within 0xFF40 0xFF4B address) _ _ m.rom refl (
              if_rom (within 0x8000 0x9FFF address) _ _ m.rom (if_rom _ _ _ m.rom refl refl) (
                if_rom (within 0xFE00 0xFE9F address) _ _ m.rom
                  (if_rom m.dma_active _ _ m.rom refl refl)
                  (if_rom (ltb address 0x8000) _ _ m.rom (if_rom _ _ _ m.rom refl refl) refl))))))))
