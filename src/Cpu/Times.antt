-- ===== src/Cpu/Times.antt =====
-- The M-cycles and the types of the instruction methods.
pub mod Loads
pub mod Alu
pub mod Rotates
pub mod Conditions
pub mod Flow
pub mod Cb
pub mod Bounds
pub mod Arms
pub mod Opcodes
pub mod Post
pub mod Steps
