-- ===== src/Cpu/Accesses.antt =====
-- The rule of each access of the processor to its registers and to memory.
use rust_gb_emulator.Base.{
  ℕ, ◌+◌, ◌*◌, ◌<◌, ◌≤◌, bit_and, Bool, true, false, ◌>>>◌, ◌≡◌, refl, arith, Build, debug, release,
  Outcome, ok, panic, fit, minus,
}
use rust_gb_emulator.Base.Masks.{bit_and_ones}
use rust_gb_emulator.Memory
use rust_gb_emulator.Memory.Typing.{read_8-lt}
use rust_gb_emulator.Memory.Writes.{write_8-IsBus}
use rust_gb_emulator.Memory.Devices.{tick_components-IsBus}
use rust_gb_emulator.Cpu.Registers
use rust_gb_emulator.Cpu.Registers.{
  Reg8, Reg16, Operand, reg8, reg16, mem_hl, mem_bc, mem_de, reg_a, reg_b, reg_c, reg_d, reg_e,
  reg_h, reg_l, reg_f, reg_hl, reg_bc, reg_de, reg_af, reg_sp, reg_pc, Registers,
}
use rust_gb_emulator.Cpu.RegisterLaws.{IsRegisters, write_r8-IsRegisters}
use rust_gb_emulator.Cpu.Machine.{
  Machine, read_r8, read_r16, write_r8, write_r16, write_ime, add_u16, sub_u16, peek, poke,
  tick_internal, read_byte_tick, write_byte_tick, read_word_tick, write_word_tick, set_registers,
  read_operand, write_operand,
}
use rust_gb_emulator.Cpu.Loads.{immediate_byte, immediate_word}
use rust_gb_emulator.Cpu.Takes.{
  IsMachine, Runs, Takes, Any, IsByte, IsWord, bind_Takes, then_Takes, return-Takes, at_once,
}
use rust_gb_emulator.Cpu.RegisterTypes.{
  byte_of, word_of, write_r16-IsRegisters, write_f-IsRegisters,
}

set_registers-IsMachine :
    (s : Machine) (r : Registers) → IsMachine s → IsRegisters r → IsMachine (set_registers r s)
unfolding set_registers
set_registers-IsMachine s r v h = record { registers_ok = h; bus_ok = v.bus_ok }

pub read_r8-Takes : (x : Reg8) → Takes IsByte 0 0 (read_r8 x)
unfolding read_r8
read_r8-Takes x = record {
  runs = λ b s v. at_once IsByte _ s s (byte_of s.cpu.registers x v.registers_ok) v refl;
}

pub read_r16-Takes : (x : Reg16) → Takes IsWord 0 0 (read_r16 x)
unfolding read_r16
read_r16-Takes x = record {
  runs = λ b s v. at_once IsWord _ s s (word_of s.cpu.registers x v.registers_ok) v refl;
}

pub write_r8-Takes : (x : Reg8) (value : ℕ) → value < 256 → Takes Any 0 0 (write_r8 x value)
unfolding write_r8 set_registers
write_r8-Takes x value h = record {
  runs = λ b s v.
      let r = Registers.write_r8 s.cpu.registers x value in
      at_once Any tt s (set_registers r s) tt
        (set_registers-IsMachine s r v
          (write_r8-IsRegisters s.cpu.registers x value v.registers_ok h))
        refl;
}

pub write_f-Takes : (value : ℕ) → Takes Any 0 0 (write_r8 reg_f value)
unfolding write_r8 set_registers
write_f-Takes value = record {
  runs = λ b s v.
      let r = Registers.write_r8 s.cpu.registers reg_f value in
      at_once Any tt s (set_registers r s) tt
        (set_registers-IsMachine s r v (write_f-IsRegisters s.cpu.registers value v.registers_ok))
        refl;
}

pub write_r16-Takes : (x : Reg16) (value : ℕ) → value < 65536 → Takes Any 0 0 (write_r16 x value)
unfolding write_r16 set_registers
write_r16-Takes x value h = record {
  runs = λ b s v.
      let r = Registers.write_r16 s.cpu.registers x value in
      at_once Any tt s (set_registers r s) tt
        (set_registers-IsMachine s r v
          (write_r16-IsRegisters s.cpu.registers x value v.registers_ok h))
        refl;
}

pub write_ime-Takes : (value : ℕ) → Takes Any 0 0 (write_ime value)
unfolding write_ime set_registers Registers.write_ime
write_ime-Takes value = record {
  runs = λ b s v.
      let r = Registers.write_ime s.cpu.registers value in
      at_once Any tt s (set_registers r s) tt (set_registers-IsMachine s r v (ground arith)) refl;
}

pub IsWord-or_panic :
    (b : Build) (s : Machine) (o : Outcome ℕ)
    → IsMachine s
    → ((z : ℕ) → o ≡ ok z → z < 65536)
    → (o ≡ panic → b ≡ debug)
    → Runs IsWord 0 0 b s (elim o [ ok z ↦ ok (z, s) | panic ↦ panic ])
IsWord-or_panic b s (ok z) v h k = at_once IsWord z s s (h z refl) v refl
IsWord-or_panic b s panic v h k = k refl

fit-word : (b : Build) (n z : ℕ) → fit b 16 n ≡ ok z → z < 65536
fit-word debug n z e = ground arith
fit-word release n z e = ground arith

fit-panic : (b : Build) (n : ℕ) → fit b 16 n ≡ panic → b ≡ debug
fit-panic debug n e = refl
fit-panic release n e = cc

minus-word : (b : Build) (x y z : ℕ) → x < 65536 → minus b 16 x y ≡ ok z → z < 65536
minus-word debug x y z h e = ground arith
minus-word release x y z h e = ground arith

minus-panic : (b : Build) (x y : ℕ) → minus b 16 x y ≡ panic → b ≡ debug
minus-panic debug x y e = refl
minus-panic release x y e = cc

pub add_u16-Takes : (x y : ℕ) → Takes IsWord 0 0 (add_u16 x y)
unfolding add_u16
add_u16-Takes x y = record {
  runs = λ b s v.
      IsWord-or_panic b s (fit b 16 (x + y)) v (λ z e. fit-word b (x + y) z e)
        (λ e. fit-panic b (x + y) e);
}

pub sub_u16-Takes : (x y : ℕ) → x < 65536 → Takes IsWord 0 0 (sub_u16 x y)
unfolding sub_u16
sub_u16-Takes x y h = record {
  runs = λ b s v.
      IsWord-or_panic b s (minus b 16 x y) v (λ z e. minus-word b x y z h e)
        (λ e. minus-panic b x y e);
}

pub peek-Takes : (address : ℕ) → Takes IsByte 0 0 (peek address)
unfolding peek
peek-Takes address = record {
  runs = λ b s v. at_once IsByte _ s s (read_8-lt s.mem address v.bus_ok) v refl;
}

pub poke-Takes : (address value : ℕ) → value < 256 → Takes Any 0 0 (poke address value)
unfolding poke
poke-Takes address value h = record {
  runs = λ b s v.
      let m = Memory.write_8 s.mem address value in
      at_once Any tt s (record s { mem = m }) tt
        (record {
          registers_ok = v.registers_ok;
          bus_ok = write_8-IsBus s.mem address value v.bus_ok h;
        })
        refl;
}

pub tick_internal-Takes : (n : ℕ) → n ≤ 20 → Takes Any n n (tick_internal n)
unfolding tick_internal
tick_internal-Takes n h = record {
  runs = λ b s v.
      let (m, returns, ok_bus) = tick_components-IsBus b n s.mem v.bus_ok h in
      rw (returns, Runs)
        (record {
          value = tt;
          typed = record { registers_ok = v.registers_ok; bus_ok = ok_bus };
          least = omega arith;
          most = omega arith;
        });
}

-- Accesses that tick.
pub tick_1 : Takes Any 1 1 (tick_internal 1)
tick_1 = tick_internal-Takes 1 (omega arith)

pub tick_2 : Takes Any 2 2 (tick_internal 2)
tick_2 = tick_internal-Takes 2 (omega arith)

pub read_byte_tick-Takes : (address : ℕ) → Takes IsByte 1 1 (read_byte_tick address)
unfolding read_byte_tick
read_byte_tick-Takes address =
    bind_Takes (peek-Takes address) λ value h. then_Takes tick_1 (return-Takes value h)

pub write_byte_tick-Takes :
    (address value : ℕ) → value < 256 → Takes Any 1 1 (write_byte_tick address value)
unfolding write_byte_tick
write_byte_tick-Takes address value h = then_Takes (poke-Takes address value h) tick_1

pub read_word_tick-Takes : (address : ℕ) → Takes IsWord 2 2 (read_word_tick address)
unfolding read_word_tick
read_word_tick-Takes address = bind_Takes (read_byte_tick-Takes address) λ lo h.
    bind_Takes (add_u16-Takes address 1) λ next k.
      bind_Takes (read_byte_tick-Takes next) λ hi l. return-Takes (lo + hi * 256) (omega arith)

pub write_word_tick-Takes :
    (address value : ℕ) → value < 65536 → Takes Any 2 2 (write_word_tick address value)
unfolding write_word_tick
write_word_tick-Takes address value h =
    then_Takes
      (write_byte_tick-Takes address (bit_and value 0xFF) (omega (arith, bit_and_ones 8 value)))
      (bind_Takes (add_u16-Takes address 1)
        λ next k. write_byte_tick-Takes next (value >>> 8) (omega arith))

-- The operands that a read or a write of a byte takes; a register pair is none.
unfoldable pub is_operand : Operand → Bool
is_operand (reg16 x) = false
is_operand _ = true

pub read_operand-Takes : (op : Operand) → is_operand op ≡ true → Takes IsByte 0 0 (read_operand op)
unfolding read_operand is_operand
read_operand-Takes (reg8 x) h = read_r8-Takes x
read_operand-Takes mem_hl h = bind_Takes (read_r16-Takes reg_hl) λ address k. peek-Takes address
read_operand-Takes mem_bc h = bind_Takes (read_r16-Takes reg_bc) λ address k. peek-Takes address
read_operand-Takes mem_de h = bind_Takes (read_r16-Takes reg_de) λ address k. peek-Takes address
read_operand-Takes (reg16 x) h = cc

pub write_operand-Takes :
    (op : Operand) (value : ℕ)
    → is_operand op ≡ true
    → value < 256
    → Takes Any 0 0 (write_operand op value)
unfolding write_operand is_operand
write_operand-Takes (reg8 x) value h k = write_r8-Takes x value k
write_operand-Takes mem_hl value h k =
    bind_Takes (read_r16-Takes reg_hl) λ address l. poke-Takes address value k
write_operand-Takes mem_bc value h k =
    bind_Takes (read_r16-Takes reg_bc) λ address l. poke-Takes address value k
write_operand-Takes mem_de value h k =
    bind_Takes (read_r16-Takes reg_de) λ address l. poke-Takes address value k
write_operand-Takes (reg16 x) value h k = cc

pub immediate_byte-Takes : Takes IsByte 1 1 immediate_byte
unfolding immediate_byte
immediate_byte-Takes =
    bind_Takes (read_r16-Takes reg_pc)
      λ pc h. bind_Takes (add_u16-Takes pc 1) λ next k. read_byte_tick-Takes next

pub immediate_word-Takes : Takes IsWord 2 2 immediate_word
unfolding immediate_word
immediate_word-Takes =
    bind_Takes (read_r16-Takes reg_pc)
      λ pc h. bind_Takes (add_u16-Takes pc 1) λ next k. read_word_tick-Takes next
