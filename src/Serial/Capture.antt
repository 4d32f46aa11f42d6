-- ===== src/Serial/Capture.antt =====
-- What a program that prints over the serial port leaves in the buffer.
use rust_gb_emulator.Base.{
  ℕ, zero, suc, ◌≤◌, length, ◌+◌, ◌*◌, ◌/◌, ◌%◌, ◌<◌, bit_and, bit_or, false, ◌&&◌, ◌!=◌,
  if◌then◌else◌, List, [], ◌∷◌, ◌++◌, none, some, ◌≡◌, refl, arith, sym, ◌∙◌, ap,
}
use mathlib.Core.List.{append_assoc, append-nil}
use rust_gb_emulator.Base.Masks.{every_below, byte_table}
use rust_gb_emulator.Serial.{Serial, new, read, write, clear_interrupt, get_output, clear_output}

-- A program's way to print a byte: into SB, then a transfer with the internal clock.
unfoldable pub send : Serial → ℕ → Serial
send s byte = write (write s 0xFF01 byte) 0xFF02 0x81

unfoldable pub send_all : Serial → List ℕ → Serial
send_all s [] = s
send_all s (byte ∷ bytes) = send_all (send s byte) bytes

-- What `get_output` gives, called as long as it gives a byte; the first argument bounds the calls.
unfoldable pub drain : ℕ → Serial → List ℕ
drain zero s = []
drain (suc fuel) s =
    let (byte?, s') = get_output s in
    let rest = drain fuel s' in elim byte? [ none ↦ [] | some byte ↦ byte ∷ rest ]

-- The bytes that a transfer captures.
unfoldable pub captured : List ℕ → List ℕ
captured [] = []
captured (byte ∷ bytes) =
    let rest = captured bytes in if byte != 0 && byte != 0x55 then byte ∷ rest else rest

send-output_buffer :
    (s : Serial) (byte : ℕ) → (send s byte).output_buffer ≡ s.output_buffer ++ captured (byte ∷ [])
unfolding send write captured
send-output_buffer s byte = ground (arith, append-nil s.output_buffer)

pub captured-cons :
    (byte : ℕ) (bytes : List ℕ) → captured (byte ∷ bytes) ≡ captured (byte ∷ []) ++ captured bytes
unfolding captured
captured-cons byte bytes = ground arith

pub send_all-output_buffer :
    (s : Serial) (bytes : List ℕ)
    → (send_all s bytes).output_buffer ≡ s.output_buffer ++ captured bytes
unfolding send_all
send_all-output_buffer s [] = unfold captured in sym (append-nil s.output_buffer)
send_all-output_buffer s (byte ∷ bytes) =
    rw
      (
        send_all-output_buffer (send s byte) bytes,
        send-output_buffer s byte,
        captured-cons byte bytes,
      )
      (append_assoc s.output_buffer (captured (byte ∷ [])) (captured bytes))

drain-output_buffer :
    (buffer : List ℕ) (fuel : ℕ) (s : Serial)
    → s.output_buffer ≡ buffer
    → length buffer ≤ fuel
    → drain fuel s ≡ buffer
unfolding drain get_output
drain-output_buffer [] zero s e h = refl
drain-output_buffer [] (suc fuel) s e h = ground arith
drain-output_buffer (byte ∷ rest) zero s e h = elim h [ ]
drain-output_buffer (byte ∷ rest) (suc fuel) s e h =
    ground (arith, drain-output_buffer rest fuel (record s { output_buffer = rest }))

-- Bytes sent from an empty buffer come out of `get_output` in the order sent, less those that the
-- source leaves out (0 and 0x55), and nothing else comes; any number of calls from theirs on.
pub drain-send_all :
    (s : Serial) (bytes : List ℕ) (calls : ℕ)
    → s.output_buffer ≡ []
    → length (captured bytes) ≤ calls
    → drain calls (send_all s bytes) ≡ captured bytes
drain-send_all s bytes calls e h =
    drain-output_buffer (captured bytes) calls (send_all s bytes)
      (send_all-output_buffer s bytes ∙ ap (λ buffer. buffer ++ captured bytes) e) h

-- The operations, as one step of the device.
pub data Op : Type 0 where
  op_write : ℕ → ℕ → Op
  op_get_output op_clear_output op_clear_interrupt : Op

pub apply : Op → Serial → Serial
apply (op_write address value) s = write s address value
apply op_get_output s = (get_output s).1
apply op_clear_output s = clear_output s
apply op_clear_interrupt s = clear_interrupt s

pub run : List Op → Serial → Serial
run [] s = s
run (op ∷ ops) s = run ops (apply op s)

apply-no_interrupt :
    (op : Op) (s : Serial) → s.interrupt_pending ≡ false → (apply op s).interrupt_pending ≡ false
unfolding apply write get_output clear_output clear_interrupt
apply-no_interrupt (op_write address value) s e = ground arith
apply-no_interrupt op_get_output s e = ground arith
apply-no_interrupt op_clear_output s e = ground arith
apply-no_interrupt op_clear_interrupt s e = ground arith

run-no_interrupt :
    (ops : List Op) (s : Serial)
    → s.interrupt_pending ≡ false
    → (run ops s).interrupt_pending ≡ false
unfolding run
run-no_interrupt [] s e = e
run-no_interrupt (op ∷ ops) s e = run-no_interrupt ops (apply op s) (apply-no_interrupt op s e)

-- No sequence of operations on a new port ever requests the serial interrupt.
pub new-no_interrupt : (ops : List Op) → (run ops new).interrupt_pending ≡ false
new-no_interrupt ops = run-no_interrupt ops new (unfold new in refl)

sc_read :
    (v : ℕ) → v < 256 → bit_or (bit_or (bit_and v 0x81) 0x7E) 0x7E ≡ v / 128 * 128 + 0x7E + v % 2
unfolding every_below
sc_read v h =
    byte_table (λ x. bit_or (bit_or (bit_and x 0x81) 0x7E) 0x7E) (λ x. x / 128 * 128 + 0x7E + x % 2)
      v refl h

-- A transfer never completes: SC reads back with bits 7 and 0 as they were written and the others
-- set, SB keeps its byte, and the interrupt flag does not change.
pub read-write_sc :
    (s : Serial) (value : ℕ)
    → value < 256
    → (read (write s 0xFF02 value) 0xFF02 ≡ value / 128 * 128 + 0x7E + value % 2)
      × (read (write s 0xFF02 value) 0xFF01 ≡ s.sb)
      × ((write s 0xFF02 value).interrupt_pending ≡ s.interrupt_pending)
unfolding read write
read-write_sc s value h = ground (arith, sc_read value h)
