-- ===== src/Ppu.antt =====
-- src/ppu.rs: the picture unit.
pub mod State
pub mod Render
pub mod Window
pub mod Step
pub mod Pixels
pub mod Reference
pub mod Fields
pub mod Timing
pub mod Clock
pub mod Frames
pub mod Kept
pub mod Tiles
pub mod Passes
pub mod WindowPass
pub mod Sprites
pub mod SpritePixels
pub mod SpriteLine
pub mod SpritePass
pub mod Outside
pub mod Effects
pub mod Scanline
pub mod Scene
pub mod Picture
pub mod Drawn
pub mod Draws
pub mod Stat
pub mod StatSteps
mod Examples
