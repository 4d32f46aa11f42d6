-- ===== src/Emulator/Batches.antt =====
-- src/main.rs: the serial output of a program, forwarded between the batches of bytes that it sends.
use rust_gb_emulator.Base.{
  ℕ, Bool, true, false, ◌!=◌, ◌&&◌, if◌then◌else◌, List, [], ◌∷◌, ◌++◌, length, Outcome, ok, ◌>>=◌,
  ◌≡◌, refl, ap, sym, ◌∙◌, arith,
}
use mathlib.Core.List.{append_assoc, append-nil}
use rust_gb_emulator.Text.{from_utf8_lossy}
use rust_gb_emulator.Serial.{Serial, get_output_string}
use rust_gb_emulator.Serial.Capture.{captured, send, send_all, send_all-output_buffer}
use rust_gb_emulator.Emulator.{Forwarded, forward}
use rust_gb_emulator.Text.Lossy.{
  IsAscii, decode_lossy-ascii, IsAscii-append, drop-append, length-append, ascii_boundary,
}

-- A program that sends some bytes, then lets the loop forward what is there, and so on.
unfoldable pub forward_all : List (List ℕ) → Serial → Forwarded → Outcome (Serial × Forwarded)
forward_all [] serial f = ok (serial, f)
forward_all (bytes ∷ rest) serial f =
    let serial' = send_all serial bytes in do f' ← forward serial' f; forward_all rest serial' f'

pub captured-IsAscii : (bytes : List ℕ) → IsAscii bytes → IsAscii (captured bytes)
unfolding captured
captured-IsAscii [] h = tt
captured-IsAscii (byte ∷ bytes) (small, h) =
    kept (byte != 0 && byte != 0x55) (captured-IsAscii bytes h)
  where
    kept :
        (test : Bool)
        → IsAscii (captured bytes)
        → IsAscii (if test then byte ∷ captured bytes else captured bytes)
    kept true k = (small, k)
    kept false k = k

-- All of the buffer has been printed.
abbrev pub printed_all : List ℕ → Forwarded
printed_all buffer = record { last_serial_len = length buffer; printed = buffer }

forward-more :
    (old : List ℕ) (byte : ℕ) (more : List ℕ) (serial : Serial)
    → IsAscii old
    → IsAscii (byte ∷ more)
    → serial.output_buffer ≡ old ++ byte ∷ more
    → forward serial (printed_all old) ≡ ok (printed_all (old ++ byte ∷ more))
unfolding forward get_output_string from_utf8_lossy
forward-more old byte more serial h k e =
    rw (e, decode_lossy-ascii (old ++ byte ∷ more) (IsAscii-append old (byte ∷ more) h k))
      (ground (
        arith,
        length-append old (byte ∷ more),
        ascii_boundary old (byte ∷ more) k,
        drop-append old (byte ∷ more),
      ))

pub forward-ascii :
    (old more : List ℕ) (serial : Serial)
    → IsAscii old
    → IsAscii more
    → serial.output_buffer ≡ old ++ more
    → forward serial (printed_all old) ≡ ok (printed_all (old ++ more))
unfolding forward get_output_string from_utf8_lossy
forward-ascii old [] serial h k e = rw (e, append-nil old, decode_lossy-ascii old h) (ground arith)
forward-ascii old (byte ∷ more) serial h k e = forward-more old byte more serial h k e

unfoldable pub concat : List (List ℕ) → List ℕ
concat [] = []
concat (bytes ∷ rest) = bytes ++ concat rest

send_all-append :
    (xs ys : List ℕ) (serial : Serial)
    → send_all (send_all serial xs) ys ≡ send_all serial (xs ++ ys)
unfolding send_all
send_all-append [] ys serial = refl
send_all-append (x ∷ xs) ys serial = send_all-append xs ys (send serial x)

captured-append : (xs ys : List ℕ) → captured (xs ++ ys) ≡ captured xs ++ captured ys
unfolding captured
captured-append [] ys = refl
captured-append (x ∷ xs) ys = kept (x != 0 && x != 0x55) (captured-append xs ys)
  where
    kept :
        (test : Bool)
        → captured (xs ++ ys) ≡ captured xs ++ captured ys
        → (if test then x ∷ captured (xs ++ ys) else captured (xs ++ ys))
          ≡ (if test then x ∷ captured xs else captured xs) ++ captured ys
    kept true e = ap (λ l. x ∷ l) e
    kept false e = e

abbrev pub AllAscii : List (List ℕ) → Type 0
AllAscii [] = Unit {0}
AllAscii (bytes ∷ rest) = IsAscii bytes × AllAscii rest

pub forward_all-from :
    (batches : List (List ℕ)) (serial : Serial)
    → AllAscii batches
    → IsAscii serial.output_buffer
    → forward_all batches serial (printed_all serial.output_buffer)
      ≡ ok (
        send_all serial (concat batches),
        printed_all (serial.output_buffer ++ captured (concat batches)),
      )
unfolding forward_all concat
forward_all-from [] serial h k =
    unfold send_all captured in
    ap (λ buffer. ok (serial, printed_all buffer)) (sym (append-nil serial.output_buffer))
forward_all-from (bytes ∷ rest) serial (small, h) k =
    let old = serial.output_buffer in
    let serial' = send_all serial bytes in
    let more = captured-IsAscii bytes small in
    let sent = send_all-output_buffer serial bytes in
    let ih =
      forward_all-from rest serial' h (rw sent (IsAscii-append old (captured bytes) k more)) in
    ap (λ o. o >>= (λ f. forward_all rest serial' f))
      (forward-ascii old (captured bytes) serial' k more sent
        ∙ ap (λ buffer. ok (printed_all buffer)) (sym sent))
    ∙ ih
    ∙ (λ i. ok (send_all-append bytes (concat rest) serial i, printed_all (joined serial' sent i)))
  where
    joined :
        (serial' : Serial)
        → serial'.output_buffer ≡ serial.output_buffer ++ captured bytes
        → serial'.output_buffer ++ captured (concat rest)
          ≡ serial.output_buffer ++ captured (bytes ++ concat rest)
    joined serial' e =
        ap (λ b. b ++ captured (concat rest)) e
        ∙ append_assoc serial.output_buffer (captured bytes) (captured (concat rest))
        ∙ ap (λ l. serial.output_buffer ++ l) (sym (captured-append bytes (concat rest)))
