-- ===== src/Cpu/Times/Post.antt =====
-- What follows the execution of an instruction: PC, the cycles, the check and IME.
use rust_gb_emulator.Base.{
  ℕ, ◌/◌, ◌<◌, ◌≤◌, Bool, true, false, if◌then◌else◌, leb, ◌||◌, ◌&&◌, ◌≡◌, refl, arith, List, [],
  ◌∷◌, Build, debug, release, ok, panic,
}
use rust_gb_emulator.Base.Masks.{every_below, every_below_lem}
use rust_gb_emulator.Cpu.Registers.{reg_pc}
use rust_gb_emulator.Cpu.Machine.{Machine}
use rust_gb_emulator.Cpu.Takes.{
  IsMachine, ticked, Runs, Takes, Any, bind_Takes, then_Takes, if_Takes, return-Takes, at_once,
}
use rust_gb_emulator.Cpu.Accesses.{
  read_r16-Takes, write_r16-Takes, write_ime-Takes, add_u16-Takes, peek-Takes,
}
use rust_gb_emulator.Memory.IoReset.{byte_at}
use rust_gb_emulator.Memory.Devices.{tick_components-IsBus}
use rust_gb_emulator.Cpu.Tables.{opcode_duration, opcode_duration_cb}
use rust_gb_emulator.Cpu.Step.{
  contains, mismatch, is_halted, is_halt_bug, is_ei_pending, tick_memory, add_cycles, advance_pc,
  duration, check_timing, handle_post_instruction, enable_interrupts,
}
use rust_gb_emulator.Cpu.Times.Conditions.{set_ei_pending-Takes, set_halt_bug-Takes}

-- The opcodes that no instruction has.
abbrev pub undocumented_opcodes : List ℕ
undocumented_opcodes =
    0xD3 ∷ 0xDB ∷ 0xDD ∷ 0xE3 ∷ 0xE4 ∷ 0xEB ∷ 0xEC ∷ 0xED ∷ 0xF4 ∷ 0xFC ∷ 0xFD ∷ []

-- The T-cycles of an instruction: at most 24, and at least 4 unless its opcode is undocumented.
pub record Timed (opcode cycles : ℕ) : Type 0 where
  pub most : cycles ≤ 24
  pub least : (if contains undocumented_opcodes opcode then 0 else 4) ≤ cycles

pub least_documented :
    (opcode cycles : ℕ)
    → Timed opcode cycles
    → contains undocumented_opcodes opcode ≡ false
    → 4 ≤ cycles
least_documented opcode cycles timed h = raised (contains undocumented_opcodes opcode) h timed.least
  where
    raised : (test : Bool) → test ≡ false → (if test then 0 else 4) ≤ cycles → 4 ≤ cycles
    raised test h k = ground arith

fourth : (test : Bool) (cycles : ℕ) → 4 ≤ cycles → (if test then 0 else 4) ≤ cycles
fourth test cycles h = ground arith

-- At least 4 cycles, of any opcode.
pub four_or_more : (opcode cycles : ℕ) → 4 ≤ cycles → cycles ≤ 24 → Timed opcode cycles
four_or_more opcode cycles h k = record {
  most = k;
  least = fourth (contains undocumented_opcodes opcode) cycles h;
}

pub is_halted-Takes : Takes Any 0 0 is_halted
unfolding is_halted
is_halted-Takes = record { runs = λ b s v. at_once Any _ s s tt v refl }

pub is_halt_bug-Takes : Takes Any 0 0 is_halt_bug
unfolding is_halt_bug
is_halt_bug-Takes = record { runs = λ b s v. at_once Any _ s s tt v refl }

pub is_ei_pending-Takes : Takes Any 0 0 is_ei_pending
unfolding is_ei_pending
is_ei_pending-Takes = record { runs = λ b s v. at_once Any _ s s tt v refl }

pub tick_memory-Takes : (n : ℕ) → n ≤ 20 → Takes Any 0 0 (tick_memory n)
unfolding tick_memory
tick_memory-Takes n h = record {
  runs = λ b s v.
      let (m, returns, ok_bus) = tick_components-IsBus b n s.mem v.bus_ok h in
      rw (returns, Runs)
        (at_once Any tt s (record s { mem = m }) tt
          (record { registers_ok = v.registers_ok; bus_ok = ok_bus }) refl);
}

pub add_cycles-Takes : (cycles : ℕ) → Takes Any 0 0 (add_cycles cycles)
unfolding add_cycles
add_cycles-Takes cycles = record {
  runs = λ b s v.
      at_once Any tt s _ tt (record { registers_ok = v.registers_ok; bus_ok = v.bus_ok }) refl;
}

checked :
    (s : Machine) (test : Bool)
    → IsMachine s
    → Runs Any 0 0 debug s (if test then panic else ok (tt, s))
checked s true v = refl
checked s false v = at_once Any tt s s tt v refl

pub check_timing-Takes : (opcode cycles : ℕ) → Takes Any 0 0 (check_timing opcode cycles)
unfolding check_timing
check_timing-Takes opcode cycles = record { runs = run }
  where
    run :
        (b : Build) (s : Machine) → IsMachine s → Runs Any 0 0 b s (check_timing opcode cycles b s)
    run debug s v = checked s (mismatch opcode (cycles / 4) (ticked s)) v
    run release s v = at_once Any tt s s tt v refl

pub advance_pc-Takes : (opcode : ℕ) → Takes Any 0 0 (advance_pc opcode)
unfolding advance_pc
advance_pc-Takes opcode =
    if_Takes _
      (bind_Takes (read_r16-Takes reg_pc) λ pc h. bind_Takes is_halt_bug-Takes λ halt_bug k.
        if_Takes halt_bug (set_halt_bug-Takes false) (write_r16-Takes reg_pc _ (omega arith)))
      (return-Takes tt tt)

table-Timed :
    (table : List ℕ) (opcode : ℕ)
    → every_below 256 (λ n.
      leb (byte_at table n) 24 && (contains undocumented_opcodes n || leb 4 (byte_at table n)))
      ≡ true
    → opcode < 256
    → Timed opcode (byte_at table opcode)
table-Timed table opcode e h =
    let (short, long) = read_test (contains undocumented_opcodes opcode) (byte_at table opcode) (
      every_below_lem 256
        (λ n.
          leb (byte_at table n) 24 && (contains undocumented_opcodes n || leb 4 (byte_at table n)))
        opcode e h) in
    record { most = short; least = long }
  where
    read_test :
        (test : Bool) (n : ℕ)
        → (leb n 24 && (test || leb 4 n)) ≡ true
        → (n ≤ 24) × ((if test then 0 else 4) ≤ n)
    read_test test n e = ground arith

between : (n : ℕ) → (leb n 24 && leb 4 n) ≡ true → (n ≤ 24) × (4 ≤ n)
between n e = ground arith

within_table :
    (table : List ℕ) (opcode n : ℕ)
    → every_below 256 (λ n. leb (byte_at table n) 24 && leb 4 (byte_at table n)) ≡ true
    → n < 256
    → Timed opcode (byte_at table n)
within_table table opcode n e h =
    let (short, long) =
      between (byte_at table n)
        (every_below_lem 256 (λ n. leb (byte_at table n) 24 && leb 4 (byte_at table n)) n e h) in
    four_or_more opcode (byte_at table n) long short

duration-Takes : (opcode : ℕ) → opcode < 256 → Takes (Timed opcode) 0 0 (duration opcode)
unfolding duration every_below
duration-Takes opcode h =
    if_Takes _
      (bind_Takes (read_r16-Takes reg_pc) λ pc k. bind_Takes (add_u16-Takes pc 1) λ next l.
        bind_Takes (peek-Takes next)
          λ cb_opcode m. return-Takes _ (within_table opcode_duration_cb opcode cb_opcode refl m))
      (return-Takes _ (table-Timed opcode_duration opcode refl h))

pub handle_post_instruction-Takes :
    (opcode : ℕ) → opcode < 256 → Takes (Timed opcode) 0 0 (handle_post_instruction opcode)
unfolding handle_post_instruction
handle_post_instruction-Takes opcode h = then_Takes (advance_pc-Takes opcode) (
    bind_Takes (duration-Takes opcode h) λ cycles k.
      then_Takes (check_timing-Takes opcode cycles)
        (then_Takes (add_cycles-Takes cycles) (return-Takes cycles k)))

pub enable_interrupts-Takes : Takes Any 0 0 enable_interrupts
unfolding enable_interrupts
enable_interrupts-Takes = bind_Takes is_ei_pending-Takes λ pending h.
    if_Takes pending (then_Takes (write_ime-Takes 1) (set_ei_pending-Takes false))
      (return-Takes tt tt)
