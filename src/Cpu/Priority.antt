-- ===== src/Cpu/Priority.antt =====
-- Which interrupt is serviced, and what that does.
use rust_gb_emulator.Base.{
  ℕ, zero, suc, ◌+◌, ◌*◌, ◌-◌, ◌/◌, ◌%◌, ◌^◌, ◌<◌, bit_and, Bool, true, false, if◌then◌else◌, ◌&&◌,
  ◌==◌, ◌!=◌, ◌<<<◌, inverted, Bool-cases, inl, inr, ◌≡◌, refl, arith, ◌∙◌, ap,
}
use native.Mathlib.Nat.{one-le-pow, zero-div}
use rust_gb_emulator.Base.Masks.{bit_and_bit}
use rust_gb_emulator.Memory
use rust_gb_emulator.Memory.{Memory}
use rust_gb_emulator.Cpu.Registers
use rust_gb_emulator.Cpu.Registers.{reg_sp, reg_pc}
use rust_gb_emulator.Cpu.Machine.{Machine}
use rust_gb_emulator.Cpu.Interrupts.{
  sync_requests, service_interrupt, service_first, handle_interrupts,
}

-- IE and IF after the requests have reached IF.
abbrev pub pending : Machine → ℕ
pending s = let m = sync_requests s.mem in bit_and (Memory.read_8 m 0xFFFF) (Memory.read_8 m 0xFF0F)

tested : (b p t : ℕ) → 0 < t → b ≡ p * t → p ≡ 1 → (b != 0) ≡ true
tested b p t h e k = ground arith

not_tested : (b p t : ℕ) → b ≡ p * t → p ≡ 0 → (b != 0) ≡ false
not_tested b p t e k = ground arith

bit_masked : (p i : ℕ) → bit_and p (1 <<< i) ≡ p / 2 ^ i % 2 * 2 ^ i
bit_masked p i = ap (λ (t : ℕ). bit_and p t) (omega arith) ∙ bit_and_bit i p

bit_at : (p n m v : ℕ) → n ≡ m → p / 2 ^ m % 2 ≡ v → p / 2 ^ n % 2 ≡ v
bit_at p n m v e h = ap (λ (x : ℕ). p / 2 ^ x % 2) e ∙ h

service_first-lowest :
    (k left i p : ℕ) (s : Machine)
    → k < left
    → p / 2 ^ (i + k) % 2 ≡ 1
    → ((j : ℕ) → j < k → p / 2 ^ (i + j) % 2 ≡ 0)
    → service_first left i p s ≡ service_interrupt (i + k) s
unfolding service_first
service_first-lowest k zero i p s h bit lower = absurd (omega arith)
service_first-lowest zero (suc left) i p s h bit lower =
    rw
      (tested (bit_and p (1 <<< i)) (p / 2 ^ i % 2) (2 ^ i) (one-le-pow i 2 (omega arith))
        (bit_masked p i) bit')
      (ap (λ (n : ℕ). service_interrupt n s) (omega arith))
  where
    bit' : p / 2 ^ i % 2 ≡ 1
    bit' = ap (λ (n : ℕ). p / 2 ^ n % 2) (omega arith) ∙ bit
service_first-lowest (suc k) (suc left) i p s h bit lower =
    ap (λ (t : Bool). if t then service_interrupt i s else service_first left (i + 1) p s)
      (not_tested (bit_and p (1 <<< i)) (p / 2 ^ i % 2) (2 ^ i) (bit_masked p i)
        (bit_at p i (i + 0) 0 (omega arith) (lower 0 (omega arith))))
    ∙ service_first-lowest k left (i + 1) p s (omega arith)
        (bit_at p (i + 1 + k) (i + suc k) 1 (omega arith) bit)
        (λ j below. bit_at p (i + 1 + j) (i + suc j) 0 (omega arith) (lower (suc j) (omega arith)))
    ∙ ap (λ (n : ℕ). service_interrupt n s) (omega arith)

-- What the service of interrupt k does to the processor `c`, whose requests have reached `s`.
pub record Serviced (k : ℕ) (s s' : Machine) : Type 0 where
  pub at_vector : s'.cpu.registers.pc ≡ 0x40 + k * 8
  pub pushed : s'.cpu.registers.sp ≡ (s.cpu.registers.sp + 0x10000 - 2) % 65536
  pub disabled : s'.cpu.registers.ime ≡ 0
  pub running : s'.cpu.halted ≡ false
  pub no_ei : s'.cpu.ei_pending ≡ false
  pub time : s'.cpu.cycles ≡ s.cpu.cycles + 20
  pub others_kept :
      (s'.cpu.registers.af ≡ s.cpu.registers.af)
      × (s'.cpu.registers.bc ≡ s.cpu.registers.bc)
      × (s'.cpu.registers.de ≡ s.cpu.registers.de)
      × (s'.cpu.registers.hl ≡ s.cpu.registers.hl)
  pub return_address : s'.mem ≡ (
      let m = sync_requests s.mem in
      Memory.write_16
        (Memory.write_8 m 0xFF0F (bit_and (Memory.read_8 m 0xFF0F) (inverted (1 <<< k))))
        s'.cpu.registers.sp
        s.cpu.registers.pc)

-- The machine when its requests have reached IF.
abbrev synced : Machine → Machine
synced s =
    let c = s.cpu in
    record {
      cpu = record c { halted = if c.halted && (pending s != 0) then false else c.halted };
      mem = sync_requests s.mem;
    }

enters_service :
    (s : Machine)
    → s.cpu.registers.ime ≡ 1
    → (pending s == 0) ≡ false
    → handle_interrupts s ≡ service_first 5 0 (pending s) (synced s)
unfolding handle_interrupts Registers.read_ime
enters_service s on some = simp (on, some)

nonzero : (p k : ℕ) → p / 2 ^ k % 2 ≡ 1 → (p == 0) ≡ false
nonzero zero k bit = absurd (omega (arith, zero-div (2 ^ k)))
nonzero (suc p) k bit = ground arith

service_interrupt-Serviced : (s : Machine) (k : ℕ) → Serviced k s (service_interrupt k (synced s))
unfolding service_interrupt Registers.write_ime Registers.read_r16 Registers.write_r16
service_interrupt-Serviced s k = record {
  at_vector = refl;
  pushed = refl;
  disabled = refl;
  running = refl;
  no_ei = refl;
  time = refl;
  others_kept = (refl, refl, refl, refl);
  return_address = refl;
}

-- With IME set, and k < 5 the lowest number that is pending after the requests have reached IF,
-- `handle_interrupts` services k: it continues at 0x40 + 8 k with IME off, awake, with no EI to
-- come, 20 cycles later and with AF, BC, DE and HL as before; bit k of IF is cleared, and PC is
-- pushed on the stack.
pub handle_interrupts-lowest :
    (s : Machine) (k : ℕ)
    → s.cpu.registers.ime ≡ 1
    → k < 5
    → pending s / 2 ^ k % 2 ≡ 1
    → ((j : ℕ) → j < k → pending s / 2 ^ j % 2 ≡ 0)
    → Serviced k s (handle_interrupts s)
handle_interrupts-lowest s k on h bit lower = rw served (service_interrupt-Serviced s k)
  where
    served : handle_interrupts s ≡ service_interrupt k (synced s)
    served =
        enters_service s on (nonzero (pending s) k bit)
        ∙ service_first-lowest k 5 0 (pending s) (synced s) h
            (bit_at (pending s) (0 + k) k 1 (omega arith) bit)
            (λ j below. bit_at (pending s) (0 + j) j 0 (omega arith) (lower j below))
        ∙ ap (λ (n : ℕ). service_interrupt n (synced s)) (omega arith)

woken : (p : ℕ) → (if p != 0 then false else true) ≡ (p == 0)
woken p = ground arith

-- The machine where IME is off.
pub handle_interrupts-ime_off :
    (s : Machine)
    → s.cpu.registers.ime ≡ 0
    → let s' = handle_interrupts s in
      (s'.cpu.registers ≡ s.cpu.registers)
      × (s'.cpu.cycles ≡ s.cpu.cycles)
      × (s'.mem ≡ sync_requests s.mem)
      × (s'.cpu.halted ≡ s.cpu.halted && (pending s == 0))
unfolding handle_interrupts Registers.read_ime
handle_interrupts-ime_off s off = elim (Bool-cases s.cpu.halted) [
  | inl h ↦ simp (off, h) (refl, refl, refl, woken (pending s))
  | inr h ↦ simp (off, h) (refl, refl, refl, refl)
]
