-- ===== src/Image.antt =====
-- sw/linux/check_initramfs.py from the archive's members on, with what it takes from check_rootfs.py.
pub mod Elf
pub mod Problem
pub mod Members
pub mod Scripts
pub mod Sends
pub mod Verdict
pub mod Facts
pub mod Bootable
pub mod Passes
pub mod Quoted
pub mod Hashes
mod Tests
