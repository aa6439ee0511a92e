-- ===== src/Config.antt =====
-- sw/linux/check_config.py, which checks a resolved kernel configuration.
pub mod Table
pub mod Parse
pub mod Verdict
pub mod Meets
pub mod Passes
mod Tests
