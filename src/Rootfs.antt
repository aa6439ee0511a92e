-- ===== src/Rootfs.antt =====
-- sw/linux/check_rootfs.py, which checks a userspace when Buildroot has made it.
pub mod Table
pub mod Parse
pub mod Verdict
pub mod Granted
pub mod Passes
mod Tests
