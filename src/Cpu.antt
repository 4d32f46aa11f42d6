-- ===== src/Cpu.antt =====
-- src/cpu.rs: the processor.
pub mod Registers
pub mod RegisterLaws
pub mod Machine
pub mod Loads
pub mod Alu
pub mod Rotates
pub mod Flow
pub mod Cb
pub mod DecimalTables
pub mod Decimal
pub mod Decode
pub mod Execute
pub mod Tables
pub mod Step
pub mod Takes
pub mod RegisterTypes
pub mod Accesses
pub mod Times
pub mod Undocumented
pub mod RamAccesses
pub mod RamWords
pub mod Stack
pub mod PushPop
pub mod Interrupts
pub mod Priority
pub mod Requests
pub mod InterruptTypes
pub mod Flags
pub mod Additions
pub mod Subtractions
pub mod Logic
pub mod RegisterRuns
pub mod ShiftRuns
pub mod Shifts
mod Examples
mod RunExamples
