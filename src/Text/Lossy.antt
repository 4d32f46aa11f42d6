-- ===== src/Text/Lossy.antt =====
-- The lossy decoding of bytes that are characters, and of a character of two bytes that is not
-- complete yet.
use rust_gb_emulator.Base.{ℕ, ◌+◌, ◌<◌, ◌≤◌, true, List, [], ◌∷◌, ◌++◌, length, ◌≡◌, refl, arith}
use rust_gb_emulator.Text.{
  take, drop, continue_char, long_char, replacement, next_chunk, decode_lossy, from_utf8_lossy,
  is_char_boundary, starts_char,
}

-- Bytes that are characters by themselves.
abbrev pub IsAscii : List ℕ → Type 0
IsAscii [] = Unit {0}
IsAscii (byte ∷ bytes) = (byte < 0x80) × IsAscii bytes

pub decode_lossy-ascii :
    (bytes : List ℕ) → IsAscii bytes → decode_lossy (length bytes) bytes ≡ bytes
unfolding decode_lossy next_chunk take drop
decode_lossy-ascii [] h = refl
decode_lossy-ascii (byte ∷ bytes) (small, h) =
    let later = decode_lossy-ascii bytes h in ground (arith, later)

pub decode_lossy-prefix :
    (old bytes : List ℕ)
    → IsAscii old
    → decode_lossy (length (old ++ bytes)) (old ++ bytes) ≡ old ++ decode_lossy (length bytes) bytes
unfolding decode_lossy next_chunk take drop
decode_lossy-prefix [] bytes h = refl
decode_lossy-prefix (byte ∷ old) bytes (small, h) =
    let later = decode_lossy-prefix old bytes h in ground (arith, later)

pub IsAscii-append : (xs ys : List ℕ) → IsAscii xs → IsAscii ys → IsAscii (xs ++ ys)
IsAscii-append [] ys h k = k
IsAscii-append (x ∷ xs) ys (small, h) k = (small, IsAscii-append xs ys h k)

pub drop-append : (xs ys : List ℕ) → drop (length xs) (xs ++ ys) ≡ ys
unfolding drop
drop-append [] ys = refl
drop-append (x ∷ xs) ys = drop-append xs ys

pub length-append : (xs ys : List ℕ) → length (xs ++ ys) ≡ length xs + length ys
length-append [] ys = omega arith
length-append (x ∷ xs) ys = omega (arith, length-append xs ys)

pub drop-past : (xs ys zs : List ℕ) → drop (length (xs ++ ys)) (xs ++ zs) ≡ drop (length ys) zs
unfolding drop
drop-past [] ys zs = refl
drop-past (x ∷ xs) ys zs = drop-past xs ys zs

starts_ascii : (bytes : List ℕ) → IsAscii bytes → starts_char bytes ≡ true
unfolding starts_char
starts_ascii [] h = refl
starts_ascii (byte ∷ bytes) (small, h) = ground arith

pub start_boundary :
    (old more : List ℕ)
    → starts_char more ≡ true
    → is_char_boundary (length old) (old ++ more) ≡ true
unfolding is_char_boundary
start_boundary old more h = ground (arith, drop-append old more, length-append old more, h)

pub ascii_boundary :
    (old more : List ℕ) → IsAscii more → is_char_boundary (length old) (old ++ more) ≡ true
ascii_boundary old more h = start_boundary old more (starts_ascii more h)

-- The three outputs of a character of two bytes and a byte behind it.
pub lossy_one : (a : ℕ) → 0xC2 ≤ a → a < 0xE0 → from_utf8_lossy (a ∷ []) ≡ replacement
unfolding from_utf8_lossy decode_lossy next_chunk continue_char take drop
lossy_one a h k = ground arith

pub lossy_two :
    (a b : ℕ)
    → 0xC2 ≤ a
    → a < 0xE0
    → 0x80 ≤ b
    → b < 0xC0
    → from_utf8_lossy (a ∷ b ∷ []) ≡ a ∷ b ∷ []
unfolding from_utf8_lossy decode_lossy next_chunk continue_char take drop
lossy_two a b h k l m = ground arith

pub lossy_three :
    (a b c : ℕ)
    → 0xC2 ≤ a
    → a < 0xE0
    → 0x80 ≤ b
    → b < 0xC0
    → 0x80 ≤ c
    → from_utf8_lossy (a ∷ b ∷ c ∷ []) ≡ a ∷ b ∷ replacement
unfolding from_utf8_lossy decode_lossy next_chunk continue_char long_char take drop
lossy_three a b c h k l m n = ground arith
