-- ===== src/Cpu/Flags.antt =====
-- What an operation on A and F does to the machine.
use rust_gb_emulator.Base.{
  ℕ, ◌+◌, ◌/◌, ◌%◌, ◌<◌, Bool, false, if◌then◌else◌, ◌≡◌, refl, arith, ◌∙◌, ap, Outcome, ok,
}
use rust_gb_emulator.Cpu.Registers
use rust_gb_emulator.Cpu.Registers.{Reg8, reg_a, reg_f, Registers}
use rust_gb_emulator.Cpu.RegisterLaws.{
  IsRegisters, same_reg, kept, read_r8-half, write_r8-IsRegisters, read_r8-write_r8,
}
use rust_gb_emulator.Cpu.Machine.{Machine, set_registers}

-- The byte of F with the flags Z, N, H and C.
abbrev pub flag_bits : Bool → Bool → Bool → Bool → ℕ
flag_bits z n h c =
    (if z then 128 else 0) + (if n then 64 else 0) + (if h then 32 else 0) + (if c then 16 else 0)

-- What an operation on A has done: it returned, A and F hold these bytes, every other 8-bit
-- register, SP, PC and IME are as before, and no memory is touched.
pub record Computes (s : Machine) (result : Outcome (Unit {0} × Machine)) (a f : ℕ) : Type 0 where
  pub after : Registers
  pub returns : result ≡ ok (tt, set_registers after s)
  pub accumulator : Registers.read_r8 after reg_a ≡ a
  pub flags : Registers.read_r8 after reg_f ≡ f
  pub others :
      (x : Reg8)
      → same_reg reg_a x ≡ false
      → same_reg reg_f x ≡ false
      → Registers.read_r8 after x ≡ Registers.read_r8 s.cpu.registers x
  pub counters :
      (after.sp ≡ s.cpu.registers.sp)
      × (after.pc ≡ s.cpu.registers.pc)
      × (after.ime ≡ s.cpu.registers.ime)
  pub well : IsRegisters after

pub flags_now :
    (r : Registers)
    → IsRegisters r
    → (Registers.read_r8 r reg_f < 256) × (Registers.read_r8 r reg_f % 16 ≡ 0)
flags_now r v = ground (arith, read_r8-half r reg_f v)

pub a_now : (r : Registers) → IsRegisters r → Registers.read_r8 r reg_a < 256
a_now r v = ground (arith, read_r8-half r reg_a v)

if_false : {A : Type 0} (x : A) {test : Bool} {y : A} → test ≡ false → (if test then x else y) ≡ y
if_false x e = rw e refl

flag_bits-range : (z n h c : Bool) → (flag_bits z n h c < 256) × (flag_bits z n h c % 16 ≡ 0)
flag_bits-range z n h c = ground arith

-- A is written, then F.
pub writes :
    (s : Machine) (result : Outcome (Unit {0} × Machine)) (a a' f : ℕ) (z n h c : Bool)
    → IsRegisters s.cpu.registers
    → a ≡ a'
    → a' < 256
    → f ≡ flag_bits z n h c
    → result
      ≡ ok (
        tt,
        set_registers (Registers.write_r8 (Registers.write_r8 s.cpu.registers reg_a a) reg_f f) s,
      )
    → Computes s result a' (flag_bits z n h c)
unfolding same_reg kept
writes s result a a' f z n h c v same_a ha same_f e =
    let r = s.cpu.registers in
    let g = flag_bits z n h c in
    let range = flag_bits-range z n h c in
    let r1 = Registers.write_r8 r reg_a a' in
    let v1 = write_r8-IsRegisters r reg_a a' v ha in
    record {
      after = Registers.write_r8 r1 reg_f g;
      returns =
          e
          ∙ ap
              (λ (x : ℕ × ℕ). ok (
                tt,
                set_registers (Registers.write_r8 (Registers.write_r8 r reg_a x.0) reg_f x.1) s,
              ))
              (pair_path same_a same_f);
      accumulator =
          (read_r8-write_r8 r1 reg_f reg_a g v1 range.0).0
          ∙ (read_r8-write_r8 r reg_a reg_a a' v ha).0;
      flags = (read_r8-write_r8 r1 reg_f reg_f g v1 range.0).0 ∙ (omega (arith, range.1));
      others = λ x not_a not_f.
          (read_r8-write_r8 r1 reg_f x g v1 range.0).0
          ∙ if_false (kept reg_f g) not_f
          ∙ (read_r8-write_r8 r reg_a x a' v ha).0
          ∙ if_false (kept reg_a a') not_a;
      counters = unfold Registers.write_r8 in (refl, refl, refl);
      well = write_r8-IsRegisters r1 reg_f g v1 range.0;
    }
  where
    pair_path : {x x' y y' : ℕ} → x ≡ x' → y ≡ y' → Path (ℕ × ℕ) (x, y) (x', y')
    pair_path p q = rw (p, q) refl

abbrev pub accumulator : Machine → ℕ
accumulator s = Registers.read_r8 s.cpu.registers reg_a

abbrev pub carry : Machine → ℕ
carry s = Registers.read_r8 s.cpu.registers reg_f / 16 % 2

-- F as it stands between the two writes.
unfoldable pub flags_between : Machine → ℕ → ℕ
flags_between s a = Registers.read_r8 (Registers.write_r8 s.cpu.registers reg_a a) reg_f

pub flags_between-range :
    (s : Machine) (a : ℕ)
    → IsRegisters s.cpu.registers
    → a < 256
    → (flags_between s a < 256) × (flags_between s a % 16 ≡ 0)
unfolding flags_between
flags_between-range s a v h =
    let r = Registers.write_r8 s.cpu.registers reg_a a in
    flags_now r (write_r8-IsRegisters s.cpu.registers reg_a a v h)

-- F alone is written.
pub writes_flags :
    (s : Machine) (result : Outcome (Unit {0} × Machine)) (f : ℕ) (z n h c : Bool)
    → IsRegisters s.cpu.registers
    → f ≡ flag_bits z n h c
    → result ≡ ok (tt, set_registers (Registers.write_r8 s.cpu.registers reg_f f) s)
    → Computes s result (accumulator s) (flag_bits z n h c)
unfolding same_reg kept
writes_flags s result f z n h c v same_f e =
    let r = s.cpu.registers in
    let g = flag_bits z n h c in
    let range = flag_bits-range z n h c in
    record {
      after = Registers.write_r8 r reg_f g;
      returns = e ∙ ap (λ (x : ℕ). ok (tt, set_registers (Registers.write_r8 r reg_f x) s)) same_f;
      accumulator = (read_r8-write_r8 r reg_f reg_a g v range.0).0;
      flags = (read_r8-write_r8 r reg_f reg_f g v range.0).0 ∙ (omega (arith, range.1));
      others = λ x not_a not_f.
          (read_r8-write_r8 r reg_f x g v range.0).0 ∙ if_false (kept reg_f g) not_f;
      counters = unfold Registers.write_r8 in (refl, refl, refl);
      well = write_r8-IsRegisters r reg_f g v range.0;
    }
