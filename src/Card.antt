-- ===== src/Card.antt =====
-- The microSD card that carries a kernel: tools/sdkernel.py, which writes it, and sw/sbi/sdboot.c,
-- which loads from it.
pub mod Words
pub mod Payload
pub mod Firmware
pub mod Boots
pub mod Device
pub mod Write
pub mod Compared
pub mod Written
pub mod Verified
pub mod Table
pub mod Inspect
pub mod Kept
pub mod Fake
mod Tests
pub mod Inspected
