-- ===== src/Cpu/RamWords.antt =====
-- Words in the RAM.
use rust_gb_emulator.Base.{
  ℕ, ◌+◌, ◌*◌, ◌/◌, ◌%◌, ◌<◌, ◌≤◌, bit_and, ◌>>>◌, ◌≡◌, refl, ap, arith, Build, ok, set_at, Bytes,
}
use rust_gb_emulator.Base.Masks.{bit_and_ones}
use rust_gb_emulator.Cpu.Registers
use rust_gb_emulator.Cpu.Registers.{Registers, Reg16, reg_sp, reg_pc}
use rust_gb_emulator.Cpu.Machine.{
  Machine, Exec, ◌>>=◌, return, read_r16, write_r16, add_u16, tick_internal, read_byte_tick,
  write_byte_tick, read_word_tick, write_word_tick, set_registers,
}
use rust_gb_emulator.Cpu.RegisterTypes.{write_r16-IsRegisters}
use rust_gb_emulator.Cpu.Takes.{IsMachine}
use rust_gb_emulator.Cpu.RamAccesses.{
  Leaves, bind-Leaves, then-Leaves, same-Leaves, tick_internal-Leaves, write_byte_tick-Leaves,
  known, read_byte_tick-Leaves, next_address, InRam,
}

-- RAM with a word at an address.
abbrev pub with_word : Bytes → ℕ → ℕ → Bytes
with_word ram address value = set_at (set_at ram address (value % 256)) (address + 1) (value / 256)

pub write_word_tick-Leaves :
    (b : Build) (s : Machine) (address value : ℕ)
    → IsMachine s
    → InRam address
    → InRam (address + 1)
    → value < 65536
    → Leaves
        (write_word_tick address value b s)
        tt
        s.cpu.registers
        (with_word s.mem.main_memory address value)
unfolding write_word_tick
write_word_tick-Leaves b s address value v h k small =
    let r = s.cpu.registers in
    let low = bit_and value 0xFF in
    let ram = s.mem.main_memory in
    let ram1 = set_at ram address low in
    let high : ℕ → Exec (Unit {0}) = λ next. write_byte_tick next (value >>> 8) in
    same-Leaves (write_word_tick address value b s) tt tt r r
      (set_at ram1 (address + 1) (value >>> 8)) (with_word ram address value)
      (then-Leaves b s (write_byte_tick address low) (add_u16 address 1 >>= high) tt r r ram1
        (set_at ram1 (address + 1) (value >>> 8))
        (write_byte_tick-Leaves b s address low v h (omega (arith, bit_and_ones 8 value)))
        λ t w e f.
          bind-Leaves b t (add_u16 address 1) high (address + 1) tt r r ram1
            (set_at ram1 (address + 1) (value >>> 8))
            (record {
              machine = t;
              returns = next_address b address t h;
              typed = w;
              registers_are = e;
              ram_is = f;
            })
            λ t' w' e' f'.
              same-Leaves (write_byte_tick (address + 1) (value >>> 8) b t') tt tt t'.cpu.registers
                r (set_at t'.mem.main_memory (address + 1) (value >>> 8))
                (set_at ram1 (address + 1) (value >>> 8))
                (write_byte_tick-Leaves b t' (address + 1) (value >>> 8) w' k (omega arith)) refl e'
                (ap (λ m. set_at m (address + 1) (value >>> 8)) f'))
      refl refl
      (ap (λ n. set_at (set_at ram address n) (address + 1) (value / 256)) (bit_and_ones 8 value))

pub read_word_tick-Leaves :
    (b : Build) (s : Machine) (address : ℕ)
    → IsMachine s
    → InRam address
    → InRam (address + 1)
    → let ram = s.mem.main_memory in
      Leaves
        (read_word_tick address b s)
        (ram address + ram (address + 1) * 256)
        s.cpu.registers
        ram
unfolding read_word_tick
read_word_tick-Leaves b s address v h k =
    let r = s.cpu.registers in
    let ram = s.mem.main_memory in
    let word = ram address + ram (address + 1) * 256 in
    let rest : ℕ → Exec ℕ =
      λ lo. (do next ← add_u16 address 1; hi ← read_byte_tick next; return (lo + hi * 256)) in
    let upper : ℕ → Exec ℕ =
      λ next. (do hi ← read_byte_tick next; return (ram address + hi * 256)) in
    bind-Leaves b s (read_byte_tick address) rest (ram address) word r r ram ram
      (read_byte_tick-Leaves b s address v h)
      λ t w e f.
        bind-Leaves b t (add_u16 address 1) upper (address + 1) word r r ram ram
          (record {
            machine = t;
            returns = next_address b address t h;
            typed = w;
            registers_are = e;
            ram_is = f;
          })
          λ t' w' e' f'.
            bind-Leaves b t' (read_byte_tick (address + 1)) (λ hi. return (ram address + hi * 256))
              (ram (address + 1)) word r r ram ram
              (same-Leaves (read_byte_tick (address + 1) b t') (t'.mem.main_memory (address + 1))
                (ram (address + 1)) t'.cpu.registers r t'.mem.main_memory ram
                (read_byte_tick-Leaves b t' (address + 1) w' k) (ap (λ m. m (address + 1)) f') e'
                f')
              λ t'' w'' e'' f''. known word b t'' r ram w'' e'' f''

pub word_found :
    (ram : Bytes) (top value : ℕ)
    → with_word ram top value top + with_word ram top value (top + 1) * 256 ≡ value
word_found ram top value = ground arith

pub write_r16-Leaves :
    (b : Build) (x : Reg16) (value : ℕ) (r : Registers) (ram : Bytes) (t : Machine)
    → IsMachine t
    → t.cpu.registers ≡ r
    → t.mem.main_memory ≡ ram
    → value < 65536
    → Leaves (write_r16 x value b t) tt (Registers.write_r16 r x value) ram
unfolding write_r16 set_registers
write_r16-Leaves b x value r ram t v e f h = record {
  machine = set_registers (Registers.write_r16 t.cpu.registers x value) t;
  returns = refl;
  typed = record {
    registers_ok = write_r16-IsRegisters t.cpu.registers x value v.registers_ok h;
    bus_ok = v.bus_ok;
  };
  registers_are = ap (λ q. Registers.write_r16 q x value) e;
  ram_is = f;
}

pub read_r16-Leaves :
    (b : Build) (x : Reg16) (r : Registers) (ram : Bytes) (t : Machine)
    → IsMachine t
    → t.cpu.registers ≡ r
    → t.mem.main_memory ≡ ram
    → Leaves (read_r16 x b t) (Registers.read_r16 r x) r ram
unfolding read_r16
read_r16-Leaves b x r ram t v e f = record {
  machine = t;
  returns = ap (λ q. ok (Registers.read_r16 q x, t)) e;
  typed = v;
  registers_are = e;
  ram_is = f;
}

pub tick_at :
    (b : Build) (n : ℕ) (r : Registers) (ram : Bytes) (t : Machine)
    → IsMachine t
    → t.cpu.registers ≡ r
    → t.mem.main_memory ≡ ram
    → n ≤ 20
    → Leaves (tick_internal n b t) tt r ram
tick_at b n r ram t v e f h =
    same-Leaves (tick_internal n b t) tt tt t.cpu.registers r t.mem.main_memory ram
      (tick_internal-Leaves b n t v h) refl e f

pub write_at :
    (b : Build) (address value : ℕ) (r : Registers) (ram : Bytes) (t : Machine)
    → IsMachine t
    → t.cpu.registers ≡ r
    → t.mem.main_memory ≡ ram
    → InRam address
    → InRam (address + 1)
    → value < 65536
    → Leaves (write_word_tick address value b t) tt r (with_word ram address value)
write_at b address value r ram t v e f h k small =
    same-Leaves (write_word_tick address value b t) tt tt t.cpu.registers r
      (with_word t.mem.main_memory address value) (with_word ram address value)
      (write_word_tick-Leaves b t address value v h k small) refl e
      (ap (λ m. with_word m address value) f)

pub read_at :
    (b : Build) (address : ℕ) (r : Registers) (ram : Bytes) (t : Machine)
    → IsMachine t
    → t.cpu.registers ≡ r
    → t.mem.main_memory ≡ ram
    → InRam address
    → InRam (address + 1)
    → Leaves (read_word_tick address b t) (ram address + ram (address + 1) * 256) r ram
read_at b address r ram t v e f h k =
    same-Leaves (read_word_tick address b t)
      (t.mem.main_memory address + t.mem.main_memory (address + 1) * 256)
      (ram address + ram (address + 1) * 256) t.cpu.registers r t.mem.main_memory ram
      (read_word_tick-Leaves b t address v h k) (ap (λ m. m address + m (address + 1) * 256) f) e f
