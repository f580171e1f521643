-- ===== src/Gfx.antt =====
-- src/lib_chromatron/gfx_lib.c: the pixels, their faders and their colors.
pub mod Fader
pub mod Types
pub mod Frames
pub mod Positions
pub mod Setters
pub mod Arrays
pub mod Params
pub mod Colors
pub mod Noise
pub mod Proper
pub mod Starts
pub mod Steps
mod Tests
