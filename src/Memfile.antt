-- ===== src/Memfile.antt =====
-- The memory images for simulation and for the board's fabric flash.
pub mod Files
pub mod Read
mod Tests
