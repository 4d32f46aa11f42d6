-- ===== src/Serial.antt =====
-- src/serial.rs: the registers SB and SC, and the bytes captured from transfers.
pub mod Capture
mod Examples
use rust_gb_emulator.Base.{
  ℕ, bit_and, bit_or, Bool, true, false, not, ◌&&◌, ◌==◌, ◌!=◌, if◌then◌else◌, List, [], ◌∷◌, ◌++◌,
  Option, none, some,
}
use rust_gb_emulator.Text.{from_utf8_lossy}

pub record Serial : Type 0 where
  pub sb : ℕ  -- u8
  pub sc : ℕ  -- u8
  pub interrupt_pending : Bool
  pub output_buffer : List ℕ

unfoldable pub new : Serial
new = record { sb = 0; sc = 0; interrupt_pending = false; output_buffer = [] }

unfoldable pub read : Serial → ℕ → ℕ
read s address =
    if address == 0xFF01 then s.sb else if address == 0xFF02 then bit_or s.sc 0x7E else 0xFF

-- The arm of SC: a transfer captures SB, unless it is 0 or 0x55.
write_sc : Serial → ℕ → Serial
write_sc s value =
    let s' = record s { sc = bit_or (bit_and value 0x81) 0x7E } in
    if bit_and value 0x80 != 0
    then if s'.sb != 0 && s'.sb != 0x55
      then record s' { output_buffer = s'.output_buffer ++ s'.sb ∷ [] }
      else s'
    else s'

unfoldable pub write : Serial → ℕ → ℕ → Serial
unfolding write_sc
write s address value =
    if address == 0xFF01
    then record s { sb = value }
    else if address == 0xFF02
    then write_sc s value
    else s

unfoldable pub clear_interrupt : Serial → Serial
clear_interrupt s = record s { interrupt_pending = false }

get_first : Serial → List ℕ → Option ℕ × Serial
get_first s [] = (none, s)
get_first s (byte ∷ rest) = (some byte, record s { output_buffer = rest })

-- `remove(0)` takes the oldest byte.
unfoldable pub get_output : Serial → Option ℕ × Serial
unfolding get_first
get_output s = get_first s s.output_buffer

unfoldable pub get_output_string : Serial → List ℕ
get_output_string s = from_utf8_lossy s.output_buffer

unfoldable pub clear_output : Serial → Serial
clear_output s = record s { output_buffer = [] }
