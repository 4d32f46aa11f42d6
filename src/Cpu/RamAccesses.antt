-- ===== src/Cpu/RamAccesses.antt =====
-- Runs that are known: their value, the registers and the RAM that they leave.
use rust_gb_emulator.Base.{
  ℕ, ◌+◌, ◌<◌, ◌≤◌, ◌≡◌, refl, ap, ◌∙◌, arith, Build, Outcome, ok, panic, set_at, Bytes,
}
use rust_gb_emulator.Memory.{Memory, read_8, write_8}
use rust_gb_emulator.Memory.Tick.{fits}
use rust_gb_emulator.Memory.Writes.{write_8-IsBus}
use rust_gb_emulator.Memory.Devices.{tick_components-ram}
use rust_gb_emulator.Cpu.Registers.{Registers}
use rust_gb_emulator.Cpu.Machine.{
  Machine, Exec, ◌>>=◌, ◌>>◌, return, add_u16, peek, poke, tick_internal, read_byte_tick,
  write_byte_tick,
}
use rust_gb_emulator.Cpu.Takes.{IsMachine}

-- What a run gives and leaves: the value `a`, the registers `r` and the RAM `ram`.
pub record Leaves {A : Type 0} (o : Outcome (A × Machine)) (a : A) (r : Registers) (ram : Bytes)
    : Type 0 where
  pub machine : Machine
  pub returns : o ≡ ok (a, machine)
  pub typed : IsMachine machine
  pub registers_are : machine.cpu.registers ≡ r
  pub ram_is : machine.mem.main_memory ≡ ram

pub bind-Leaves :
    {A B : Type 0} (b : Build) (s : Machine) (e : Exec A) (f : A → Exec B) (a : A) (c : B)
    (r r' : Registers) (ram ram' : Bytes)
    → Leaves (e b s) a r ram
    → ((t : Machine)
        → IsMachine t
        → t.cpu.registers ≡ r
        → t.mem.main_memory ≡ ram
        → Leaves (f a b t) c r' ram')
    → Leaves ((e >>= f) b s) c r' ram'
bind-Leaves b s e f a c r r' ram ram' first rest =
    let later = rest first.machine first.typed first.registers_are first.ram_is in
    record {
      machine = later.machine;
      returns =
          ap (λ o. elim o [ ok q ↦ f q.0 b q.1 | panic ↦ panic ]) first.returns ∙ later.returns;
      typed = later.typed;
      registers_are = later.registers_are;
      ram_is = later.ram_is;
    }

pub then-Leaves :
    {B : Type 0} (b : Build) (s : Machine) (e : Exec (Unit {0})) (f : Exec B) (c : B)
    (r r' : Registers) (ram ram' : Bytes)
    → Leaves (e b s) tt r ram
    → ((t : Machine)
        → IsMachine t
        → t.cpu.registers ≡ r
        → t.mem.main_memory ≡ ram
        → Leaves (f b t) c r' ram')
    → Leaves ((e >> f) b s) c r' ram'
then-Leaves b s e f c r r' ram ram' first rest =
    bind-Leaves b s e (λ _. f) tt c r r' ram ram' first rest

-- What is left may be said otherwise.
pub same-Leaves :
    {A : Type 0} (o : Outcome (A × Machine)) (a a' : A) (r r' : Registers) (ram ram' : Bytes)
    → Leaves o a r ram
    → a ≡ a'
    → r ≡ r'
    → ram ≡ ram'
    → Leaves o a' r' ram'
same-Leaves o a a' r r' ram ram' h e f g = record {
  machine = h.machine;
  returns = h.returns ∙ ap (λ x. ok (x, h.machine)) e;
  typed = h.typed;
  registers_are = h.registers_are ∙ f;
  ram_is = h.ram_is ∙ g;
}

pub tick_internal-Leaves :
    (b : Build) (n : ℕ) (s : Machine)
    → IsMachine s
    → n ≤ 20
    → Leaves (tick_internal n b s) tt s.cpu.registers s.mem.main_memory
unfolding tick_internal
tick_internal-Leaves b n s v h =
    let (m', returns, bus, ram) = tick_components-ram b n s.mem v.bus_ok h in
    let c = s.cpu in
    let c' = record c { instruction_m_cycles_ticked = c.instruction_m_cycles_ticked + n } in
    record {
      machine = record { cpu = c'; mem = m' };
      returns =
          ap
            (λ (o : Outcome Memory). elim o as (λ o. Outcome (Unit {0} × Machine)) [
              | ok mem' ↦ ok (tt, record { cpu = c'; mem = mem' })
              | panic ↦ panic
            ])
            returns;
      typed = record { registers_ok = v.registers_ok; bus_ok = bus };
      registers_are = refl;
      ram_is = ram;
    }

-- The addresses that are RAM alone: no register, no video memory and no ROM.
abbrev pub InRam : ℕ → Type 0
InRam address = (0xC000 ≤ address) × (address < 0xFE00)

read_8-ram : (m : Memory) (address : ℕ) → InRam address → read_8 m address ≡ m.main_memory address
unfolding read_8
read_8-ram m address h = ground arith

write_8-ram :
    (m : Memory) (address value : ℕ)
    → InRam address
    → (write_8 m address value).main_memory ≡ set_at m.main_memory address value
unfolding write_8
write_8-ram m address value h = ground arith

pub write_byte_tick-Leaves :
    (b : Build) (s : Machine) (address value : ℕ)
    → IsMachine s
    → InRam address
    → value < 256
    → Leaves
        (write_byte_tick address value b s)
        tt
        s.cpu.registers
        (set_at s.mem.main_memory address value)
unfolding write_byte_tick poke
write_byte_tick-Leaves b s address value v h k =
    let t : Machine = record s { mem = write_8 s.mem address value } in
    let w : IsMachine t = record {
      registers_ok = v.registers_ok;
      bus_ok = write_8-IsBus s.mem address value v.bus_ok k;
    } in
    same-Leaves (tick_internal 1 b t) tt tt t.cpu.registers t.cpu.registers t.mem.main_memory
      (set_at s.mem.main_memory address value) (tick_internal-Leaves b 1 t w (omega arith)) refl
      refl (write_8-ram s.mem address value h)

pub known :
    {A : Type 0} (a : A) (b : Build) (t : Machine) (r : Registers) (ram : Bytes)
    → IsMachine t
    → t.cpu.registers ≡ r
    → t.mem.main_memory ≡ ram
    → Leaves (return a b t) a r ram
known a b t r ram v e f = record {
  machine = t;
  returns = refl;
  typed = v;
  registers_are = e;
  ram_is = f;
}

pub read_byte_tick-Leaves :
    (b : Build) (s : Machine) (address : ℕ)
    → IsMachine s
    → InRam address
    → Leaves
        (read_byte_tick address b s)
        (s.mem.main_memory address)
        s.cpu.registers
        s.mem.main_memory
unfolding read_byte_tick peek
read_byte_tick-Leaves b s address v h =
    let a = read_8 s.mem address in
    let r = s.cpu.registers in
    let ram = s.mem.main_memory in
    same-Leaves (read_byte_tick address b s) a (ram address) r r ram ram
      (then-Leaves b s (tick_internal 1) (return a) a r r ram ram
        (tick_internal-Leaves b 1 s v (omega arith)) λ t w e f. known a b t r ram w e f)
      (read_8-ram s.mem address h) refl refl

pub next_address :
    (b : Build) (address : ℕ) (t : Machine)
    → InRam address
    → add_u16 address 1 b t ≡ ok (address + 1, t)
unfolding add_u16
next_address b address t h =
    ap
      (λ (o : Outcome ℕ). elim o as (λ o. Outcome (ℕ × Machine)) [
        | ok z ↦ ok (z, t)
        | panic ↦ panic
      ])
      (fits b 16 (address + 1) (omega arith))
