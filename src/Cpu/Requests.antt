-- ===== src/Cpu/Requests.antt =====
-- How the requests of the devices reach IF.
use rust_gb_emulator.Base.{
  ℕ, zero, suc, ◌+◌, ◌/◌, ◌%◌, bit_and, bit_or, Bool, true, false, ◌&&◌, ◌||◌, ◌==◌, ◌!=◌,
  if◌then◌else◌, Bool-cases, inl, inr, ◌≡◌, refl, arith, ◌∙◌, ap, sym,
}
use mathlib.Core.Path.{fun_ext}
use rust_gb_emulator.Base.Tests.{==_iff}
use rust_gb_emulator.Base.Bits.{or_low, bit_or-zero}
use rust_gb_emulator.Joypad
use rust_gb_emulator.Memory
use rust_gb_emulator.Memory.{Memory}
use rust_gb_emulator.Cpu.Loads.{set_if}
use rust_gb_emulator.Cpu.Machine.{Machine}
use rust_gb_emulator.Cpu.Interrupts.{request_flags, clear_sources, sync_requests, handle_interrupts}
use rust_gb_emulator.Cpu.Priority.{handle_interrupts-ime_off}

-- IF and IE, as the memory holds them.
abbrev pub interrupt_flags : Memory → ℕ
interrupt_flags m = m.main_memory 0xFF0F

abbrev pub interrupt_enables : Memory → ℕ
interrupt_enables m = m.main_memory 0xFFFF

or_bit : (a b : ℕ) → (bit_or a b % 2 == 1) ≡ (a % 2 == 1 || b % 2 == 1)
or_bit a b = ground (arith, or_low a b)

or_half : (a b : ℕ) → bit_or a b / 2 ≡ bit_or (a / 2) (b / 2)
or_half a b = ground (arith, or_low a b)

halves :
    (x' x a' a f' f : ℕ) → x' ≡ x / 2 → a' ≡ a / 2 → f' ≡ f / 2 → x ≡ bit_or a f → x' ≡ bit_or a' f'
halves x' x a' a f' f e g k h =
    e ∙ ap (λ n. n / 2) h ∙ or_half a f ∙ (λ i. bit_or (sym g i) (sym k i))

request_flags-sum :
    (v s t l j : Bool)
    → set_if j 0x10 (set_if l 0x08 (set_if t 0x04 (set_if s 0x02 (set_if v 0x01 0))))
      ≡ (if v then 1 else 0)
        + (if s then 2 else 0)
        + (if t then 4 else 0)
        + (if l then 8 else 0)
        + (if j then 16 else 0)
request_flags-sum v s t l j = ground arith

-- What the memory m' holds when the requests of the devices of m have reached IF: a bit of IF is set
-- if it was, or if its device asks. No device asks any more; of the rest nothing has changed.
pub record Requested (m m' : Memory) : Type 0 where
  pub vblank :
      (interrupt_flags m' % 2 == 1) ≡ (interrupt_flags m % 2 == 1 || m.ppu.vblank_interrupt)
  pub stat :
      (interrupt_flags m' / 2 % 2 == 1) ≡ (interrupt_flags m / 2 % 2 == 1 || m.ppu.stat_interrupt)
  pub timer :
      (interrupt_flags m' / 4 % 2 == 1)
      ≡ (interrupt_flags m / 4 % 2 == 1 || m.timer.interrupt_pending)
  pub serial :
      (interrupt_flags m' / 8 % 2 == 1)
      ≡ (interrupt_flags m / 8 % 2 == 1 || m.serial.interrupt_pending)
  pub joypad :
      (interrupt_flags m' / 16 % 2 == 1)
      ≡ (interrupt_flags m / 16 % 2 == 1 || m.joypad.interrupt_requested)
  pub upper : interrupt_flags m' / 32 ≡ interrupt_flags m / 32
  pub rest : m' ≡ (
      let p = m.ppu in
      let t = m.timer in
      let s = m.serial in
      let j = m.joypad in
      record m {
        ppu = record p { vblank_interrupt = false; stat_interrupt = false };
        timer = record t { interrupt_pending = false };
        serial = record s { interrupt_pending = false };
        joypad = record j { interrupt_requested = false };
        main_memory = λ i. if i == 0xFF0F then interrupt_flags m' else m.main_memory i;
      })

-- The devices that no longer ask, around a RAM.
abbrev quiet : Memory → (ℕ → ℕ) → Memory
quiet m ram =
    let p = m.ppu in
    let t = m.timer in
    let s = m.serial in
    let j = m.joypad in
    record m {
      ppu = record p { vblank_interrupt = false; stat_interrupt = false };
      timer = record t { interrupt_pending = false };
      serial = record s { interrupt_pending = false };
      joypad = record j { interrupt_requested = false };
      main_memory = ram;
    }

abbrev with_flags : Memory → ℕ → ℕ → ℕ
with_flags m n i = if i == 0xFF0F then n else m.main_memory i

quiet_joypad :
    (j : Joypad.Joypad)
    → (if j.interrupt_requested then Joypad.clear_interrupt j else j)
      ≡ record j { interrupt_requested = false }
unfolding Joypad.clear_interrupt
quiet_joypad j = ground arith

clear_sources-quiet : (m : Memory) → clear_sources m ≡ quiet m m.main_memory
unfolding clear_sources
clear_sources-quiet m =
    let q = quiet m m.main_memory in λ i. record q { joypad = quiet_joypad m.joypad i }

written-quiet :
    (m : Memory) (n : ℕ)
    → Memory.write_8 (quiet m m.main_memory) 0xFF0F n ≡ quiet m (with_flags m n)
unfolding Memory.write_8
written-quiet m n = elim (Bool-cases m.suppress_io_side_effects) [
  | inl on ↦ rw on refl
  | inr off ↦ rw off refl
]

unchanged : (m : Memory) → m.main_memory ≡ with_flags m (interrupt_flags m)
unchanged m = fun_ext (λ i. elim (Bool-cases (i == 0xFF0F)) [
  | inl same ↦ rw (same) (ap m.main_memory ((==_iff i 0xFF0F).0 same))
  | inr other ↦ rw other refl
])

read_flags : (m : Memory) → Memory.read_8 m 0xFF0F ≡ interrupt_flags m
unfolding Memory.read_8
read_flags m = elim (Bool-cases m.rom_loaded) [
  | inl loaded ↦ rw loaded refl
  | inr none_loaded ↦ rw none_loaded refl
]

read_enables : (m : Memory) → Memory.read_8 m 0xFFFF ≡ interrupt_enables m
unfolding Memory.read_8
read_enables m = elim (Bool-cases m.rom_loaded) [
  | inl loaded ↦ rw loaded refl
  | inr none_loaded ↦ rw none_loaded refl
]

synced_with :
    (m : Memory) (n : ℕ)
    → let c = clear_sources m in
      (if n != 0 then Memory.write_8 c 0xFF0F (bit_or (Memory.read_8 c 0xFF0F) n) else c)
      ≡ quiet m (with_flags m (bit_or (interrupt_flags m) n))
synced_with m zero =
    clear_sources-quiet m
    ∙ ap (quiet m) (unchanged m ∙ ap (with_flags m) (sym (bit_or-zero (interrupt_flags m))))
synced_with m (suc n) =
    let some : (suc n != 0) ≡ true = ground arith in
    rw some (
      ap (λ c. Memory.write_8 c 0xFF0F (bit_or (Memory.read_8 c 0xFF0F) (suc n)))
        (clear_sources-quiet m)
      ∙ ap (λ k. Memory.write_8 (quiet m m.main_memory) 0xFF0F (bit_or k (suc n)))
          (read_flags (quiet m m.main_memory))
      ∙ written-quiet m (bit_or (interrupt_flags m) (suc n)))

sync_requests-quiet :
    (m : Memory)
    → sync_requests m ≡ quiet m (with_flags m (bit_or (interrupt_flags m) (request_flags m)))
unfolding sync_requests
sync_requests-quiet m = synced_with m (request_flags m)

pub sync_requests-Requested : (m : Memory) → Requested m (sync_requests m)
unfolding request_flags
sync_requests-Requested m =
    let a = interrupt_flags m in
    let f = request_flags m in
    let e = sync_requests-quiet m in
    let now : interrupt_flags (sync_requests m) ≡ bit_or a f = ap interrupt_flags e in
    let sum =
      request_flags-sum m.ppu.vblank_interrupt m.ppu.stat_interrupt m.timer.interrupt_pending
        m.serial.interrupt_pending m.joypad.interrupt_requested in
    let x = bit_or a f in
    let h1 : bit_or a f / 2 ≡ bit_or (a / 2) (f / 2) = or_half a f in
    let h2 : bit_or a f / 4 ≡ bit_or (a / 4) (f / 4) =
      halves (x / 4) (x / 2) (a / 4) (a / 2) (f / 4) (f / 2) (omega arith) (omega arith)
        (omega arith) h1 in
    let h3 : bit_or a f / 8 ≡ bit_or (a / 8) (f / 8) =
      halves (x / 8) (x / 4) (a / 8) (a / 4) (f / 8) (f / 4) (omega arith) (omega arith)
        (omega arith) h2 in
    let h4 : bit_or a f / 16 ≡ bit_or (a / 16) (f / 16) =
      halves (x / 16) (x / 8) (a / 16) (a / 8) (f / 16) (f / 8) (omega arith) (omega arith)
        (omega arith) h3 in
    let h5 : bit_or a f / 32 ≡ bit_or (a / 32) (f / 32) =
      halves (x / 32) (x / 16) (a / 32) (a / 16) (f / 32) (f / 16) (omega arith) (omega arith)
        (omega arith) h4 in
    let at : ℕ → Bool = λ n. n % 2 == 1 in
    record {
      vblank = ap at now ∙ or_bit a f ∙ ap (λ t. at a || t) (ground (arith, sum));
      stat =
          ap (λ n. at (n / 2)) now
          ∙ ap at h1
          ∙ or_bit (a / 2) (f / 2)
          ∙ ap (λ t. at (a / 2) || t) (ground (arith, sum));
      timer =
          ap (λ n. at (n / 4)) now
          ∙ ap at h2
          ∙ or_bit (a / 4) (f / 4)
          ∙ ap (λ t. at (a / 4) || t) (ground (arith, sum));
      serial =
          ap (λ n. at (n / 8)) now
          ∙ ap at h3
          ∙ or_bit (a / 8) (f / 8)
          ∙ ap (λ t. at (a / 8) || t) (ground (arith, sum));
      joypad =
          ap (λ n. at (n / 16)) now
          ∙ ap at h4
          ∙ or_bit (a / 16) (f / 16)
          ∙ ap (λ t. at (a / 16) || t) (ground (arith, sum));
      upper =
          ap (λ n. n / 32) now
          ∙ h5
          ∙ ap (bit_or (a / 32)) (ground (arith, sum))
          ∙ bit_or-zero (a / 32);
      rest = e ∙ ap (λ n. quiet m (with_flags m n)) (sym now);
    }

-- With IME off nothing is serviced: the registers and the time are as before. Each of the five bits of
-- IF is set if it was or if its device asks, no device asks any more, and nothing else of the memory
-- has changed; the processor is halted afterwards exactly if it was and no interrupt is both enabled
-- in IE and now requested in IF.
pub handle_interrupts-Requested :
    (s : Machine)
    → s.cpu.registers.ime ≡ 0
    → let s' = handle_interrupts s in
      (s'.cpu.registers ≡ s.cpu.registers)
      × (s'.cpu.cycles ≡ s.cpu.cycles)
      × Requested s.mem s'.mem
      × (s'.cpu.halted
          ≡ s.cpu.halted && (bit_and (interrupt_enables s'.mem) (interrupt_flags s'.mem) == 0))
handle_interrupts-Requested s off =
    let (registers, cycles, memory, halted) = handle_interrupts-ime_off s off in
    let m = sync_requests s.mem in
    (
      registers,
      cycles,
      rw memory (sync_requests-Requested s.mem),
      halted ∙ (λ i. s.cpu.halted && (bit_and (read_enables m i) (read_flags m i) == 0)) ∙ (λ i.
          s.cpu.halted
          && (bit_and (interrupt_enables (sym memory i)) (interrupt_flags (sym memory i)) == 0)),
    )
