-- ===== src/Cpu/InterruptTypes.antt =====
-- Interrupts keep a machine well formed.
use rust_gb_emulator.Base.{
  ℕ, zero, suc, ◌+◌, ◌<◌, ◌≤◌, bit_and, bit_or, Bool, true, false, if◌then◌else◌, ◌==◌, ◌!=◌, ◌&&◌,
  ◌<<<◌, inverted, arith, Bool-cases, inl, inr,
}
use rust_gb_emulator.Base.Widths.{bit_and-lt, bit_or-lt}
use rust_gb_emulator.Joypad
use rust_gb_emulator.Joypad.{JoypadButton}
use rust_gb_emulator.Memory.{Memory, read_8, write_8}
use rust_gb_emulator.Memory.Typing.{IsBus, read_8-lt}
use rust_gb_emulator.Memory.Writes.{write_8-IsBus, write_16-IsBus}
use rust_gb_emulator.Cpu.Registers
use rust_gb_emulator.Cpu.Registers.{reg_sp, reg_pc, reg_af, reg_bc, reg_de, reg_hl}
use rust_gb_emulator.Cpu.Machine.{Machine}
use rust_gb_emulator.Cpu.Takes.{IsMachine}
use rust_gb_emulator.Cpu.Loads.{set_if, wrapping_sub_16}
use rust_gb_emulator.Cpu.Interrupts.{
  request_flags, clear_sources, sync_requests, service_interrupt, service_first, handle_interrupts,
}

flags-lt :
    (a b c d e : Bool)
    → set_if a 0x10 (set_if b 0x08 (set_if c 0x04 (set_if d 0x02 (set_if e 0x01 0)))) < 256
flags-lt a b c d e = ground arith

clear_sources-IsBus : (m : Memory) → IsBus m → IsBus (clear_sources m)
unfolding clear_sources Joypad.clear_interrupt
clear_sources-IsBus m v = ground arith

sync_requests-IsBus : (m : Memory) → IsBus m → IsBus (sync_requests m)
unfolding sync_requests request_flags
sync_requests-IsBus m v = elim (Bool-cases (request_flags m != 0)) [
  | inl some_request ↦ rw some_request written
  | inr no_request ↦ rw no_request cleared
]
  where
    cleared : IsBus (clear_sources m)
    cleared = clear_sources-IsBus m v

    written : IsBus (
        write_8
          (clear_sources m)
          0xFF0F
          (bit_or (read_8 (clear_sources m) 0xFF0F) (request_flags m)))
    written = write_8-IsBus (clear_sources m) 0xFF0F _ cleared (
        bit_or-lt 8 (read_8 (clear_sources m) 0xFF0F) (request_flags m)
          (read_8-lt (clear_sources m) 0xFF0F cleared)
          (flags-lt m.joypad.interrupt_requested m.serial.interrupt_pending
            m.timer.interrupt_pending m.ppu.stat_interrupt m.ppu.vblank_interrupt))

service_interrupt-IsMachine :
    (k : ℕ) (s : Machine) → k < 5 → IsMachine s → IsMachine (service_interrupt k s)
unfolding service_interrupt Registers.write_ime Registers.read_r16 Registers.write_r16
service_interrupt-IsMachine k s h v =
    let m = s.mem in
    let cleared = bit_and (read_8 m 0xFF0F) (inverted (1 <<< k)) in
    let m1 = write_8 m 0xFF0F cleared in
    let v1 =
      write_8-IsBus m 0xFF0F cleared v.bus_ok
        (bit_and-lt 8 (read_8 m 0xFF0F) (inverted (1 <<< k)) (read_8-lt m 0xFF0F v.bus_ok)) in
    record {
      registers_ok = ground arith;
      bus_ok =
          write_16-IsBus m1 (wrapping_sub_16 s.cpu.registers.sp 2) s.cpu.registers.pc v1
            v.registers_ok.pc_u16;
    }

service_first-IsMachine :
    (left i pending : ℕ) (s : Machine)
    → i + left ≤ 5
    → IsMachine s
    → IsMachine (service_first left i pending s)
unfolding service_first
service_first-IsMachine zero i pending s h v = v
service_first-IsMachine (suc left) i pending s h v =
    elim (Bool-cases (bit_and pending (1 <<< i) != 0)) [
      | inl first ↦ rw first (service_interrupt-IsMachine i s (omega arith) v)
      | inr later ↦ rw later (service_first-IsMachine left (i + 1) pending s (omega arith) v)
    ]

choice-IsMachine :
    (test : Bool) (x y : Machine) → IsMachine x → IsMachine y → IsMachine (if test then x else y)
choice-IsMachine true x y v w = v
choice-IsMachine false x y v w = w

-- Whatever devices ask, `handle_interrupts` of a well-formed machine leaves one.
pub handle_interrupts-IsMachine : (s : Machine) → IsMachine s → IsMachine (handle_interrupts s)
unfolding handle_interrupts
handle_interrupts-IsMachine s v =
    let c = s.cpu in
    let m = sync_requests s.mem in
    let pending = bit_and (read_8 m 0xFFFF) (read_8 m 0xFF0F) in
    let ime_off = Registers.read_ime c.registers == 0 in
    let bus = sync_requests-IsBus s.mem v.bus_ok in
    let asleep : Machine = record { cpu = c; mem = m } in
    let awake : Machine = record {
      cpu = record c { halted = if c.halted && (pending != 0) then false else c.halted };
      mem = m;
    } in
    let served = service_first 5 0 pending awake in
    let asleep_ok : IsMachine asleep = record { registers_ok = v.registers_ok; bus_ok = bus } in
    let awake_ok : IsMachine awake = record { registers_ok = v.registers_ok; bus_ok = bus } in
    choice-IsMachine (ime_off && (if c.halted then false else true)) asleep
      (if ime_off then awake else if pending == 0 then awake else served) asleep_ok
      (choice-IsMachine ime_off awake (if pending == 0 then awake else served) awake_ok (
        choice-IsMachine (pending == 0) awake served awake_ok
          (service_first-IsMachine 5 0 pending awake (omega arith) awake_ok)))
