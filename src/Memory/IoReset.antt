-- ===== src/Memory/IoReset.antt =====
-- src/memory.rs: the table IO_RESET, the values of 0xFF00..0xFFFF after the boot ROM.
use rust_gb_emulator.Base.{ℕ, zero, suc, List, [], ◌∷◌}

-- An element of an array, and 0 beyond its end, where no index of the source lies.
abbrev pub byte_at : List ℕ → ℕ → ℕ
byte_at [] n = 0
byte_at (x ∷ xs) zero = x
byte_at (x ∷ xs) (suc n) = byte_at xs n

io_reset_table : List ℕ
io_reset_table =
    0xCF ∷ 0x00 ∷ 0x7C ∷ 0xFF ∷ 0x00 ∷ 0x00 ∷ 0x00 ∷ 0xF8 ∷ 0xFF ∷ 0xFF ∷ 0xFF ∷ 0xFF ∷ 0xFF ∷ 0xFF
    ∷ 0xFF ∷ 0x01 ∷ 0x80 ∷ 0xBF ∷ 0xF3 ∷ 0xFF ∷ 0xBF ∷ 0xFF ∷ 0x3F ∷ 0x00 ∷ 0xFF ∷ 0xBF ∷ 0x7F
    ∷ 0xFF ∷ 0x9F ∷ 0xFF ∷ 0xBF ∷ 0xFF ∷ 0xFF ∷ 0x00 ∷ 0x00 ∷ 0xBF ∷ 0x77 ∷ 0xF3 ∷ 0xF1 ∷ 0xFF
    ∷ 0xFF ∷ 0xFF ∷ 0xFF ∷ 0xFF ∷ 0xFF ∷ 0xFF ∷ 0xFF ∷ 0xFF ∷ 0x00 ∷ 0xFF ∷ 0x00 ∷ 0xFF ∷ 0x00
    ∷ 0xFF ∷ 0x00 ∷ 0xFF ∷ 0x00 ∷ 0xFF ∷ 0x00 ∷ 0xFF ∷ 0x00 ∷ 0xFF ∷ 0x00 ∷ 0xFF ∷ 0x91 ∷ 0x80
    ∷ 0x00 ∷ 0x00 ∷ 0x00 ∷ 0x00 ∷ 0x00 ∷ 0xFC ∷ 0x00 ∷ 0x00 ∷ 0x00 ∷ 0x00 ∷ 0xFF ∷ 0x7E ∷ 0xFF
    ∷ 0xFE ∷ 0xFF ∷ 0xFF ∷ 0xFF ∷ 0xFF ∷ 0xFF ∷ 0xFF ∷ 0x3E ∷ 0xFF ∷ 0xFF ∷ 0xFF ∷ 0xFF ∷ 0xFF
    ∷ 0xFF ∷ 0xFF ∷ 0xFF ∷ 0xFF ∷ 0xFF ∷ 0xFF ∷ 0xFF ∷ 0xFF ∷ 0xFF ∷ 0xFF ∷ 0xFF ∷ 0xFF ∷ 0xC0
    ∷ 0xFF ∷ 0xC1 ∷ 0x00 ∷ 0xFE ∷ 0xFF ∷ 0xFF ∷ 0xFF ∷ 0xF8 ∷ 0xFF ∷ 0x00 ∷ 0x00 ∷ 0x00 ∷ 0x8F
    ∷ 0x00 ∷ 0x00 ∷ 0xFF ∷ 0xFF ∷ 0xFF ∷ 0xFF ∷ 0xFF ∷ 0xFF ∷ 0xFF ∷ 0xFF ∷ 0xCE ∷ 0xED ∷ 0x66
    ∷ 0x66 ∷ 0xCC ∷ 0x0D ∷ 0x00 ∷ 0x0B ∷ 0x03 ∷ 0x73 ∷ 0x00 ∷ 0x83 ∷ 0x00 ∷ 0x0C ∷ 0x00 ∷ 0x0D
    ∷ 0x00 ∷ 0x08 ∷ 0x11 ∷ 0x1F ∷ 0x88 ∷ 0x89 ∷ 0x00 ∷ 0x0E ∷ 0xDC ∷ 0xCC ∷ 0x6E ∷ 0xE6 ∷ 0xDD
    ∷ 0xDD ∷ 0xD9 ∷ 0x99 ∷ 0xBB ∷ 0xBB ∷ 0x67 ∷ 0x63 ∷ 0x6E ∷ 0x0E ∷ 0xEC ∷ 0xCC ∷ 0xDD ∷ 0xDC
    ∷ 0x99 ∷ 0x9F ∷ 0xBB ∷ 0xB9 ∷ 0x33 ∷ 0x3E ∷ 0x45 ∷ 0xEC ∷ 0x52 ∷ 0xFA ∷ 0x08 ∷ 0xB7 ∷ 0x07
    ∷ 0x5D ∷ 0x01 ∷ 0xFD ∷ 0xC0 ∷ 0xFF ∷ 0x08 ∷ 0xFC ∷ 0x00 ∷ 0xE5 ∷ 0x0B ∷ 0xF8 ∷ 0xC2 ∷ 0xCE
    ∷ 0xF4 ∷ 0xF9 ∷ 0x0F ∷ 0x7F ∷ 0x45 ∷ 0x6D ∷ 0x3D ∷ 0xFE ∷ 0x46 ∷ 0x97 ∷ 0x33 ∷ 0x5E ∷ 0x08
    ∷ 0xEF ∷ 0xF1 ∷ 0xFF ∷ 0x86 ∷ 0x83 ∷ 0x24 ∷ 0x74 ∷ 0x12 ∷ 0xFC ∷ 0x00 ∷ 0x9F ∷ 0xB4 ∷ 0xB7
    ∷ 0x06 ∷ 0xD5 ∷ 0xD0 ∷ 0x7A ∷ 0x00 ∷ 0x9E ∷ 0x04 ∷ 0x5F ∷ 0x41 ∷ 0x2F ∷ 0x1D ∷ 0x77 ∷ 0x36
    ∷ 0x75 ∷ 0x81 ∷ 0xAA ∷ 0x70 ∷ 0x3A ∷ 0x98 ∷ 0xD1 ∷ 0x71 ∷ 0x02 ∷ 0x4D ∷ 0x01 ∷ 0xC1 ∷ 0xFF
    ∷ 0x0D ∷ 0x00 ∷ 0xD3 ∷ 0x05 ∷ 0xF9 ∷ 0x00 ∷ 0x0B ∷ 0x00 ∷ []

unfoldable pub io_reset : ℕ → ℕ
unfolding io_reset_table
io_reset i = byte_at io_reset_table i
