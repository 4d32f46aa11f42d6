-- ===== src/Lib.antt =====
-- A model of a Game Boy emulator: the processor, the bus, the timer, the serial port, the joypad,
-- the picture unit and the loops of the program.
--
-- Parts and files. Timer is src/timer.rs, Serial is src/serial.rs, Joypad is src/joypad.rs, Memory
-- is src/memory.rs, with the table IO_RESET in Memory/IoReset. src/ppu.rs is Ppu/State (the fields,
-- the registers, `set_mode` and `set_ly`), Ppu/Render (the background of a scanline), Ppu/Window
-- (the window and the sprites) and Ppu/Step (the mode machine); Ppu/Reference is a description of the
-- picture pixel by pixel that the passes are compared with. src/cpu.rs is Cpu/Registers (the
-- register file and the operands), Cpu/Machine (the processor's state and its accesses to memory),
-- Cpu/Loads, Cpu/Alu, Cpu/Rotates, Cpu/Flow and Cpu/Cb (the instruction methods), Cpu/Decode and
-- Cpu/Execute (`execute`, as a table of arms and what each arm runs), Cpu/Tables (the three tables of
-- the opcodes), Cpu/Step (`step` and `handle_post_instruction`) and Cpu/Interrupts. Emulator is
-- src/main.rs: the machine at power-on, the keys, the events and the loops of a frame.
-- Text has the strings of the standard library that the serial output is read as.
-- Base has what they share: what a Rust function gives back, casts and shifts of fixed widths,
-- masks as quotients and remainders, and Boolean tests. The other files state and prove; an
-- Examples file in each part runs the definitions and the theorems at concrete states.
--
-- How the parts interact. `Memory` owns the timer, the serial port, the picture unit and the joypad
-- and routes each address to one of them; `tick_components` lets the timer, the picture unit and a
-- DMA go on together. An instruction reads and writes through the bus and ticks it, so that a
-- method with `&mut self` and `&mut Memory` is an `Exec`, a state monad over `Machine` that may
-- panic. `handle_interrupts` collects the requests of the devices into IF. The main loop gives the
-- events of a frame to the joypad, and then alternates `step` and `handle_interrupts` until 70224
-- cycles have passed. After each pair it forwards new serial output; `forward` is that step;
-- `run_forwarding` is the loop of a frame with it, and `run_cycles` and the loop over the frames are
-- without it.
--
-- How the proofs are laid out. IsTimer, IsPpu, IsVideo, IsBus and IsMachine say that each field is of
-- its width and that the devices can tick; Cpu/Takes has the rules of a run from a well-formed machine
-- (its value, its machine, and how many M-cycles it counts), Cpu/Accesses the rules of the accesses,
-- and the files of Cpu/Times put them together for every instruction, for `execute` and for `step`.
--
-- Numbers. A field of w bits is a native number, and every operation writes its wrap-around out.
-- Arithmetic that Rust checks takes the `Build`: it panics in a debug build and wraps in a
-- release build. `instruction_m_cycles_ticked` is kept in both builds, where a release build has
-- no such field; nothing but a debug build's check reads it, and `cycles` and this count are
-- taken not to reach their widths. An array is a function of the index. The bus, which is
-- `read_8`, `write_8` and the copy of a DMA, indexes the video memory, the OAM and the ROM with
-- their lengths: 0x100, which is no byte and which no well-formed state holds, stands for the
-- panic past their ends, as the result of a read and everywhere in an array that is written
-- there. The main memory has a place for every address. The indices of the picture unit's passes
-- and of the tables are taken to be within the lengths that the fields' comments give. So a panic
-- of the model is one of checked arithmetic, of `from_index`, of a condition's name or of the
-- check of the cycles. A buffer of the ROM's file is a list.
--
-- Loops are structural recursions over the number of rounds that the source's bounds give: the
-- T-cycles of a tick, the 160 bytes of a DMA, the 256 bytes of the reset table, the pixels of a
-- line, the 40 sprites, the five interrupts. Only the loop of a frame has no such bound, since an
-- undocumented opcode takes no time: `run_cycles` has fuel, and gives none where it was not enough; a
-- frame of documented opcodes needs at most 17556 rounds, a quarter of its cycles.
--
-- Not modelled: of src/main.rs the window, the texture, the clock and the file, which are calls of
-- SDL2 and of the standard library; the line that an unknown opcode prints; the tracing of the timer that an
-- environment variable switches on; the tests.
pub mod Base
pub mod Text
pub mod Timer
pub mod Serial
pub mod Joypad
pub mod Ppu
pub mod Memory
pub mod Cpu
pub mod Emulator
