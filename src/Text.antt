-- ===== src/Text.antt =====
-- Strings of the standard library: `String::from_utf8_lossy`, and the boundaries of characters that
-- a slice of a string is cut at. A string is the list of its UTF-8 bytes.
pub mod Lossy
use rust_gb_emulator.Base.{
  ℕ, zero, suc, ◌+◌, Bool, true, false, not, ◌&&◌, ◌||◌, ltb, leb, ◌==◌, if◌then◌else◌, List, [],
  ◌∷◌, ◌++◌, length,
}

-- A byte 10xxxxxx.
abbrev pub is_continuation : ℕ → Bool
is_continuation byte = leb 0x80 byte && ltb byte 0xC0

-- How many bytes the head of the input takes, at least one, and whether they are a character; if
-- not, they are the longest start of one.
pub record Chunk : Type 0 where
  pub used : ℕ
  pub valid : Bool

-- The continuation bytes still to come, after `used` bytes.
unfoldable pub continue_char : ℕ → ℕ → List ℕ → Chunk
continue_char zero used bytes = record { used = used; valid = true }
continue_char (suc missing) used [] = record { used = used; valid = false }
continue_char (suc missing) used (byte ∷ bytes) =
    let rest = continue_char missing (used + 1) bytes in
    if is_continuation byte then rest else record { used = used; valid = false }

-- The second byte of a character of three or four bytes, whose range depends on the first.
unfoldable pub is_second : ℕ → ℕ → Bool
is_second first byte =
    if first == 0xE0
    then leb 0xA0 byte && ltb byte 0xC0
    else if first == 0xED
    then leb 0x80 byte && ltb byte 0xA0
    else if first == 0xF0
    then leb 0x90 byte && ltb byte 0xC0
    else if first == 0xF4
    then leb 0x80 byte && ltb byte 0x90
    else is_continuation byte

unfoldable pub long_char : ℕ → ℕ → List ℕ → Chunk
unfolding continue_char is_second
long_char first missing [] = record { used = 1; valid = false }
long_char first missing (byte ∷ bytes) =
    let rest = continue_char missing 2 bytes in
    if is_second first byte then rest else record { used = 1; valid = false }

unfoldable pub next_chunk : ℕ → List ℕ → Chunk
unfolding continue_char long_char
next_chunk first bytes =
    if ltb first 0x80
    then record { used = 1; valid = true }
    else if leb 0xC2 first && ltb first 0xE0
    then continue_char 1 1 bytes
    else if leb 0xE0 first && ltb first 0xF0
    then long_char first 1 bytes
    else if leb 0xF0 first && ltb first 0xF5
    then long_char first 2 bytes
    else record { used = 1; valid = false }

unfoldable pub take : ℕ → List ℕ → List ℕ
take zero bytes = []
take (suc n) [] = []
take (suc n) (byte ∷ bytes) = byte ∷ take n bytes

unfoldable pub drop : ℕ → List ℕ → List ℕ
drop zero bytes = bytes
drop (suc n) [] = []
drop (suc n) (byte ∷ bytes) = drop n bytes

-- U+FFFD in UTF-8.
abbrev pub replacement : List ℕ
replacement = 0xEF ∷ 0xBF ∷ 0xBD ∷ []

-- The rounds of the decoder; as many as there are bytes are enough, since each takes one or more.
unfoldable pub decode_lossy : ℕ → List ℕ → List ℕ
unfolding take drop next_chunk
decode_lossy zero bytes = []
decode_lossy (suc rounds) [] = []
decode_lossy (suc rounds) (byte ∷ bytes) =
    let chunk = next_chunk byte bytes in
    let rest = decode_lossy rounds (drop chunk.used (byte ∷ bytes)) in
    if chunk.valid then take chunk.used (byte ∷ bytes) ++ rest else replacement ++ rest

unfoldable pub from_utf8_lossy : List ℕ → List ℕ
unfolding decode_lossy
from_utf8_lossy bytes = decode_lossy (length bytes) bytes

unfoldable pub starts_char : List ℕ → Bool
starts_char [] = true
starts_char (byte ∷ text) = not (is_continuation byte)

-- `is_char_boundary`; a slice of a string panics where this is false.
unfoldable pub is_char_boundary : ℕ → List ℕ → Bool
unfolding starts_char drop
is_char_boundary place text = place == 0 || leb place (length text) && starts_char (drop place text)
