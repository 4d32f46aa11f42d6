-- ===== src/Cpu/Times/Conditions.antt =====
-- The conditions of jumps, and the switches of HALT and EI: what they tick.
use rust_gb_emulator.Base.{
  ℕ, ◌+◌, ◌%◌, ◌<◌, ◌≤◌, Bool, true, false, ◌<<<◌, ◌≡◌, refl, arith, Build, debug, release, ok,
  panic,
}
use rust_gb_emulator.Base.Widths.{bit_or-lt}
use rust_gb_emulator.Cpu.Registers.{reg_f}
use rust_gb_emulator.Cpu.Machine.{Exec}
use rust_gb_emulator.Cpu.Takes.{Takes, Any, IsWord, bind_Takes, weaken_Takes, return-Takes, at_once}
use rust_gb_emulator.Cpu.Accesses.{read_r8-Takes, IsWord-or_panic}
use rust_gb_emulator.Memory
use rust_gb_emulator.Memory.Typing.{IsBus, read_8-lt}
use rust_gb_emulator.Memory.Writes.{write_16-IsBus}
use rust_gb_emulator.Cpu.Flow.{
  Cflag, cflag_c, cflag_z, cflag_other, condition, set_ei_pending, set_halted, set_halt_bug,
  read_ime, peek_16, poke_16,
}

-- The flags that the source does not panic on.
unfoldable pub is_flag : Cflag → Bool
is_flag cflag_other = false
is_flag _ = true

pub condition-Takes :
    (cflag : Cflag) (z : Bool) → is_flag cflag ≡ true → Takes Any 0 0 (condition cflag z)
unfolding condition is_flag
condition-Takes cflag_c z h = bind_Takes (read_r8-Takes reg_f) λ f k. return-Takes _ tt
condition-Takes cflag_z z h = bind_Takes (read_r8-Takes reg_f) λ f k. return-Takes _ tt
condition-Takes cflag_other z h = cc

pub set_ei_pending-Takes : (v : Bool) → Takes Any 0 0 (set_ei_pending v)
unfolding set_ei_pending
set_ei_pending-Takes v = record {
  runs = λ b s k.
      at_once Any tt s _ tt (record { registers_ok = k.registers_ok; bus_ok = k.bus_ok }) refl;
}

pub set_halted-Takes : (v : Bool) → Takes Any 0 0 (set_halted v)
unfolding set_halted
set_halted-Takes v = record {
  runs = λ b s k.
      at_once Any tt s _ tt (record { registers_ok = k.registers_ok; bus_ok = k.bus_ok }) refl;
}

pub set_halt_bug-Takes : (v : Bool) → Takes Any 0 0 (set_halt_bug v)
unfolding set_halt_bug
set_halt_bug-Takes v = record {
  runs = λ b s k.
      at_once Any tt s _ tt (record { registers_ok = k.registers_ok; bus_ok = k.bus_ok }) refl;
}

pub read_ime-Takes : Takes Any 0 0 read_ime
unfolding read_ime
read_ime-Takes = record { runs = λ b s k. at_once Any _ s s tt k refl }

word_at :
    (b : Build) (m : Memory.Memory) (address z : ℕ)
    → IsBus m
    → Memory.read_16 b m address ≡ ok z
    → z < 65536
unfolding Memory.read_16
word_at debug m address z v e =
    let lo = Memory.read_8 m address in
    let hi = Memory.read_8 m (address + 1) in
    let below = bit_or-lt 16 (hi <<< 8) lo in
    ground (arith, e, read_8-lt m address v, read_8-lt m (address + 1) v, below)
word_at release m address z v e =
    let lo = Memory.read_8 m address in
    let hi = Memory.read_8 m ((address + 1) % 65536) in
    let below = bit_or-lt 16 (hi <<< 8) lo in
    ground (arith, e, read_8-lt m address v, read_8-lt m ((address + 1) % 65536) v, below)

read_16-panic :
    (b : Build) (m : Memory.Memory) (address : ℕ) → Memory.read_16 b m address ≡ panic → b ≡ debug
unfolding Memory.read_16
read_16-panic debug m address e = refl
read_16-panic release m address e = cc

pub peek_16-Takes : (address : ℕ) → Takes IsWord 0 0 (peek_16 address)
unfolding peek_16
peek_16-Takes address = record {
  runs = λ b s v.
      IsWord-or_panic b s (Memory.read_16 b s.mem address) v
        (λ z e. word_at b s.mem address z v.bus_ok e) (λ e. read_16-panic b s.mem address e);
}

pub poke_16-Takes : (address value : ℕ) → value < 65536 → Takes Any 0 0 (poke_16 address value)
unfolding poke_16
poke_16-Takes address value h = record {
  runs = λ b s v.
      at_once Any tt s (record s { mem = Memory.write_16 s.mem address value }) tt
        (record {
          registers_ok = v.registers_ok;
          bus_ok = write_16-IsBus s.mem address value v.bus_ok h;
        })
        refl;
}

-- A branch of an instruction whose time depends on a condition.
pub branch :
    {lo hi : ℕ} (lo' hi' : ℕ) {e : Exec (Unit {0})}
    → lo' ≤ lo
    → hi ≤ hi'
    → Takes Any lo hi e
    → Takes Any lo' hi' e
branch lo' hi' h k takes = weaken_Takes lo' hi' (λ a x. x) h k takes
