-- ===== src/Emulator/Boot.antt =====
-- The machine at power-on is well formed.
use rust_gb_emulator.Base.{ℕ, ◌≡◌, refl, arith, List}
use rust_gb_emulator.Ppu.Kept.{AllBytes}
use rust_gb_emulator.Memory
use rust_gb_emulator.Memory.{
  Memory, write_8, copy_io_reset, init_rom_bank, init_post_boot_state, rom_size,
}
use rust_gb_emulator.Memory.IoReset.{byte_at}
use rust_gb_emulator.Memory.PowerOn.{new-IsBus, init_rom_bank-IsBus, init_post_boot_state-IsBus}
use rust_gb_emulator.Cpu.Registers.{write_r16}
use rust_gb_emulator.Cpu.Machine
use rust_gb_emulator.Cpu.Takes.{IsMachine}
use rust_gb_emulator.Emulator.{boot, boot_registers}

pub boot-IsMachine :
    (rom_buffer : List ℕ)
    → AllBytes (byte_at rom_buffer)
    → IsMachine (boot rom_buffer)
      × ((boot rom_buffer).cpu.registers.pc ≡ 0x0100)
      × ((boot rom_buffer).cpu.registers.ime ≡ 1)
unfolding boot boot_registers Machine.new write_r16
boot-IsMachine rom_buffer h = (
  record {
    registers_ok = ground arith;
    bus_ok =
        init_post_boot_state-IsBus (init_rom_bank (Memory.new rom_buffer))
          (init_rom_bank-IsBus (Memory.new rom_buffer) (new-IsBus rom_buffer h));
  },
  refl,
  refl,
)
