-- ===== src/Emulator/Forwarding.antt =====
-- src/main.rs: the serial output of a program, forwarded between its writes to the port.
use rust_gb_emulator.Base.{
  ℕ, ◌<◌, ◌≤◌, ltb, if◌then◌else◌, List, [], ◌∷◌, ◌++◌, length, Outcome, ok, panic, ◌>>=◌, ◌≡◌,
  refl, ap, sym, ◌∙◌, arith,
}
use mathlib.Core.List.{append_assoc}
use rust_gb_emulator.Text.{drop, replacement, from_utf8_lossy, is_char_boundary, starts_char}
use rust_gb_emulator.Serial.{Serial, new, get_output_string}
use rust_gb_emulator.Serial.Capture.{captured, send_all, send_all-output_buffer}
use rust_gb_emulator.Emulator.{Forwarded, nothing_forwarded, forward}
use rust_gb_emulator.Text.Lossy.{
  IsAscii, IsAscii-append, length-append, decode_lossy-prefix, drop-past, start_boundary, lossy_one,
  lossy_two, lossy_three,
}
use rust_gb_emulator.Emulator.Batches.{
  forward_all, captured-IsAscii, printed_all, forward-ascii, concat, AllAscii, forward_all-from,
}

-- A program that sends ASCII bytes over a new port, in whatever batches between the rounds of the
-- loop, has each of them printed exactly once and in order, less 0 and 0x55, and the slice never
-- panics.
pub forward_all-ascii :
    (batches : List (List ℕ))
    → AllAscii batches
    → forward_all batches new nothing_forwarded
      ≡ ok (
        send_all new (concat batches),
        record {
          last_serial_len = length (captured (concat batches));
          printed = captured (concat batches);
        },
      )
unfolding new
forward_all-ascii batches h = forward_all-from batches new h tt

sent_one :
    (serial : Serial) (byte : ℕ)
    → 0x80 ≤ byte
    → (send_all serial (byte ∷ [])).output_buffer ≡ serial.output_buffer ++ byte ∷ []
unfolding captured
sent_one serial byte h = send_all-output_buffer serial (byte ∷ []) ∙ (ground arith)

-- What `forward` makes of a text.
abbrev forward_text : Forwarded → List ℕ → Outcome Forwarded
forward_text f text =
    if ltb f.last_serial_len (length text)
    then if is_char_boundary f.last_serial_len text
      then ok (record {
        last_serial_len = length text;
        printed = f.printed ++ drop f.last_serial_len text;
      })
      else panic
    else ok f

forward-text :
    (serial : Serial) (f : Forwarded) (buffer text : List ℕ)
    → serial.output_buffer ≡ buffer
    → from_utf8_lossy buffer ≡ text
    → forward serial f ≡ forward_text f text
unfolding forward get_output_string
forward-text serial f buffer text e lossy =
    ap (λ b. forward_text f (from_utf8_lossy b)) e ∙ ap (forward_text f) lossy

lossy_behind :
    (old bytes text : List ℕ)
    → IsAscii old
    → from_utf8_lossy bytes ≡ text
    → from_utf8_lossy (old ++ bytes) ≡ old ++ text
unfolding from_utf8_lossy
lossy_behind old bytes text h e = decode_lossy-prefix old bytes h ∙ ap (λ t. old ++ t) e

-- A character of two bytes, forwarded byte by byte behind ASCII, and a byte from 0x80 on behind it.
cut_panics :
    (old : List ℕ) (a b c : ℕ) (rest : List (List ℕ)) (serial : Serial)
    → IsAscii old
    → serial.output_buffer ≡ old
    → 0xC2 ≤ a
    → a < 0xE0
    → 0x80 ≤ b
    → b < 0xC0
    → 0x80 ≤ c
    → c < 256
    → forward_all ((a ∷ []) ∷ (b ∷ []) ∷ (c ∷ []) ∷ rest) serial (printed_all old) ≡ panic
unfolding forward_all is_char_boundary starts_char drop
cut_panics old a b c rest serial ascii e h k l m n o =
    let s1 = send_all serial (a ∷ []) in
    let s2 = send_all s1 (b ∷ []) in
    let s3 = send_all s2 (c ∷ []) in
    let text1 = old ++ replacement in
    let text2 = old ++ a ∷ b ∷ [] in
    let text3 = old ++ a ∷ b ∷ replacement in
    let f1 : Forwarded = record {
      last_serial_len = length text1;
      printed = old ++ drop (length old) text1;
    } in
    let e1 : s1.output_buffer ≡ old ++ a ∷ [] =
      sent_one serial a (omega arith) ∙ ap (λ l. l ++ a ∷ []) e in
    let e2 : s2.output_buffer ≡ text2 =
      sent_one s1 b l ∙ ap (λ l. l ++ b ∷ []) e1 ∙ append_assoc old (a ∷ []) (b ∷ []) in
    let e3 : s3.output_buffer ≡ old ++ a ∷ b ∷ c ∷ [] =
      sent_one s2 c n ∙ ap (λ l. l ++ c ∷ []) e2 ∙ append_assoc old (a ∷ b ∷ []) (c ∷ []) in
    let size1 = length-append old replacement in
    let size2 = length-append old (a ∷ b ∷ []) in
    let size3 = length-append old (a ∷ b ∷ replacement) in
    let first : forward s1 (printed_all old) ≡ ok f1 =
      forward-text s1 (printed_all old) (old ++ a ∷ []) text1 e1
        (lossy_behind old (a ∷ []) replacement ascii (lossy_one a h k))
      ∙ ground (arith, size1, start_boundary old replacement refl) in
    let second : forward s2 f1 ≡ ok f1 =
      forward-text s2 f1 text2 text2 e2
        (lossy_behind old (a ∷ b ∷ []) (a ∷ b ∷ []) ascii (lossy_two a b h k l m))
      ∙ ground (arith, size1, size2) in
    let third : forward s3 f1 ≡ panic =
      forward-text s3 f1 (old ++ a ∷ b ∷ c ∷ []) text3 e3 (
        lossy_behind old (a ∷ b ∷ c ∷ []) (a ∷ b ∷ replacement) ascii (lossy_three a b c h k l m n))
      ∙ ground (arith, size1, size3, drop-past old replacement (a ∷ b ∷ replacement)) in
    rw (first, second, third) refl

-- After any batches of ASCII bytes on a new port, a character of two bytes whose bytes are forwarded
-- one at a time, with any byte from 0x80 on behind it in a third batch, makes the slice panic,
-- whatever batches would follow.
pub forward_all-panic :
    (batches : List (List ℕ)) (a b c : ℕ) (rest : List (List ℕ))
    → AllAscii batches
    → 0xC2 ≤ a
    → a < 0xE0
    → 0x80 ≤ b
    → b < 0xC0
    → 0x80 ≤ c
    → c < 256
    → forward_all (batches ++ (a ∷ []) ∷ (b ∷ []) ∷ (c ∷ []) ∷ rest) new nothing_forwarded ≡ panic
unfolding forward_all new
forward_all-panic batches a b c rest ascii h k l m n o = behind batches new ascii tt
  where
    behind :
        (batches : List (List ℕ)) (serial : Serial)
        → AllAscii batches
        → IsAscii serial.output_buffer
        → forward_all
            (batches ++ (a ∷ []) ∷ (b ∷ []) ∷ (c ∷ []) ∷ rest)
            serial
            (printed_all serial.output_buffer)
          ≡ panic
    behind [] serial v w = cut_panics serial.output_buffer a b c rest serial w refl h k l m n o
    behind (bytes ∷ later) serial (small, v) w =
        let more = captured-IsAscii bytes small in
        let sent = send_all-output_buffer serial bytes in
        let ends = (a ∷ []) ∷ (b ∷ []) ∷ (c ∷ []) ∷ rest in
        ap (λ o. o >>= (λ f. forward_all (later ++ ends) (send_all serial bytes) f))
          (forward-ascii serial.output_buffer (captured bytes) (send_all serial bytes) w more sent
            ∙ ap (λ buffer. ok (printed_all buffer)) (sym sent))
        ∙ behind later (send_all serial bytes) v
            (rw sent (IsAscii-append serial.output_buffer (captured bytes) w more))
