-- ===== src/Cpio.antt =====
-- sw/linux/check_initramfs.py, which reads the cpio archive that the kernel unpacks at boot and judges it.
pub mod Archive
pub mod Digits
pub mod Slices
pub mod Written
pub mod ReadBack
pub mod Ends
pub mod Sample
mod Tests
