-- ===== src/Cpu/Interrupts.antt =====
-- src/cpu.rs: how the devices' requests reach IF, and the service of the first one.
use rust_gb_emulator.Base.{
  ℕ, zero, suc, ◌+◌, ◌*◌, bit_and, bit_or, true, false, if◌then◌else◌, ◌&&◌, ◌==◌, ◌!=◌, ◌<<<◌,
  inverted,
}
use rust_gb_emulator.Joypad
use rust_gb_emulator.Memory
use rust_gb_emulator.Memory.{Memory}
use rust_gb_emulator.Cpu.Registers
use rust_gb_emulator.Cpu.Registers.{reg_sp, reg_pc}
use rust_gb_emulator.Cpu.Machine.{Machine}
use rust_gb_emulator.Cpu.Loads.{set_if, wrapping_sub_16}

-- `request_flags`, a bit for each device that asks.
unfoldable pub request_flags : Memory → ℕ
request_flags m = set_if m.joypad.interrupt_requested 0x10 (
    set_if m.serial.interrupt_pending 0x08 (
      set_if m.timer.interrupt_pending 0x04
        (set_if m.ppu.stat_interrupt 0x02 (set_if m.ppu.vblank_interrupt 0x01 0))))

-- Each source that asks is cleared; one that does not ask has its flag false already.
unfoldable pub clear_sources : Memory → Memory
clear_sources m =
    let p = m.ppu in
    let t = m.timer in
    let s = m.serial in
    let j = m.joypad in
    record m {
      ppu = record p { vblank_interrupt = false; stat_interrupt = false };
      timer = record t { interrupt_pending = false };
      serial = record s { interrupt_pending = false };
      joypad = if j.interrupt_requested then Joypad.clear_interrupt j else j;
    }

unfoldable pub sync_requests : Memory → Memory
sync_requests m =
    let flags = request_flags m in
    let m1 = clear_sources m in
    if flags != 0 then Memory.write_8 m1 0xFF0F (bit_or (Memory.read_8 m1 0xFF0F) flags) else m1

unfoldable pub service_interrupt : ℕ → Machine → Machine
service_interrupt interrupt s =
    let c = s.cpu in
    let r = Registers.write_ime c.registers 0 in
    let m = s.mem in
    let m1 =
      Memory.write_8 m 0xFF0F (bit_and (Memory.read_8 m 0xFF0F) (inverted (1 <<< interrupt))) in
    let pc = Registers.read_r16 r reg_pc in
    let sp = Registers.read_r16 r reg_sp in
    let r1 = Registers.write_r16 r reg_sp (wrapping_sub_16 sp 2) in
    let m2 = Memory.write_16 m1 (Registers.read_r16 r1 reg_sp) pc in
    record {
      cpu = record c {
        registers = Registers.write_r16 r1 reg_pc (0x0040 + interrupt * 0x08);
        halted = false;
        ei_pending = false;
        cycles = c.cycles + 20;
      };
      mem = m2;
    }

-- The loop over the bits from `i` on, `left` of them.
unfoldable pub service_first : ℕ → ℕ → ℕ → Machine → Machine
service_first zero i pending s = s
service_first (suc left) i pending s =
    if bit_and pending (1 <<< i) != 0
    then service_interrupt i s
    else service_first left (i + 1) pending s

unfoldable pub handle_interrupts : Machine → Machine
handle_interrupts s =
    let c = s.cpu in
    let m = sync_requests s.mem in
    let ime_off = Registers.read_ime c.registers == 0 in
    let pending = bit_and (Memory.read_8 m 0xFFFF) (Memory.read_8 m 0xFF0F) in
    let awake = record c { halted = if c.halted && (pending != 0) then false else c.halted } in
    if ime_off && (if c.halted then false else true)
    then record { cpu = c; mem = m }
    else if ime_off
    then record { cpu = awake; mem = m }
    else if pending == 0
    then record { cpu = awake; mem = m }
    else service_first 5 0 pending (record { cpu = awake; mem = m })
